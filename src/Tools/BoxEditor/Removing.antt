-- ===== src/Tools/BoxEditor/Removing.antt =====
-- A right click in the editor of tools/correct_mouse_boxes.py removes a smallest box under the
-- pointer.
use mathlib.Core.Path.{subst}
use mousinator.Prelude.Floats.{Floats}
use mousinator.Tools.BoxEditor.Boxes.{point_in_box, area, Box}
use mousinator.Tools.BoxEditor.Editor.{
  right_down, on, display_to_image, remove_match, on_mouse, Editor, mouse_callback, snapshot, push,
  remove_at, Match, smallest, Point, matches_from,
}
use mousinator.Prelude.{
  sym, ap, ℤ, ap, some, ltb, get_elem?, if_both, arith, All-weaken, Bool-cases, All, ℕ, zero, suc,
  ◌+◌, ◌≤◌, ◌≡◌, refl, ◌⊎◌, inl, inr, true, false, List, [], ◌∷◌, ◌++◌,
}

-- One box under the point is taken out, and no box under it is smaller.
abbrev pub RemovesSmallest : Point → List Box → List Box → Type 0
RemovesSmallest p bs cs =
    (front : List Box) × (b : Box) × (back : List Box) × (bs ≡ front ++ b ∷ back)
    × (cs ≡ front ++ back)
    × (point_in_box p.x p.y b ≡ true)
    × All (λ c. (point_in_box p.x p.y c ≡ false) ⊎ (area b ≤ area c)) bs

-- The editor after a right click at a point: it is as before where no box is under the point, or else
-- a box is gone and the boxes before are put on the undo stack.
abbrev pub Removes : {F : Type 0} → Point → Editor F → Editor F → Type 0
Removes p e t =
    ((t ≡ e) × All (λ c. point_in_box p.x p.y c ≡ false) e.boxes)
    ⊎ (RemovesSmallest p e.boxes t.boxes
        × (t ≡ record e { boxes = t.boxes; undo_stack = push e.boxes e.undo_stack }))

-- What a match says of the list that `i` boxes came before.
abbrev IsMatch : ℕ → Point → List Box → Match → Type 0
IsMatch i p bs m =
    (k : ℕ) × (b : Box) × (m.index ≡ k + i)
    × (m.size ≡ area b)
    × (get_elem? bs k ≡ some b)
    × (point_in_box p.x p.y b ≡ true)

IsMatch-later :
    (i : ℕ) (p : Point) (b : Box) (bs : List Box) (ms : List Match)
    → All (IsMatch (suc i) p bs) ms
    → All (IsMatch i p (b ∷ bs)) ms
IsMatch-later i p b bs ms =
    All-weaken (IsMatch (suc i) p bs) (IsMatch i p (b ∷ bs)) ms
      (λ m (k, c, at, size, there, under). (suc k, c, omega (arith, at), size, there, under))

matches_from-IsMatch :
    (i : ℕ) (p : Point) (bs : List Box) → All (IsMatch i p bs) (matches_from i p bs)
unfolding matches_from
matches_from-IsMatch i p [] = tt
matches_from-IsMatch i p (b ∷ bs) = elim (Bool-cases (point_in_box p.x p.y b)) [
  | inl under ↦ simp under (
    (zero, b, omega arith, refl, refl, under),
    IsMatch-later i p b bs _ (matches_from-IsMatch (suc i) p bs),
  )
  | inr out ↦ simp out (IsMatch-later i p b bs _ (matches_from-IsMatch (suc i) p bs))
]

-- The size `n` is at most that of each box under the point.
abbrev IsLeast : ℕ → Point → List Box → Type 0
IsLeast n p = All (λ c. (point_in_box p.x p.y c ≡ false) ⊎ (n ≤ area c))

matches_from-IsLeast :
    (i n : ℕ) (p : Point) (bs : List Box)
    → All (λ m. n ≤ m.size) (matches_from i p bs)
    → IsLeast n p bs
unfolding matches_from
matches_from-IsLeast i n p [] a = tt
matches_from-IsLeast i n p (b ∷ bs) a = elim (Bool-cases (point_in_box p.x p.y b)) [
  | inl under ↦ let h = simp under at a in (inr h.0, matches_from-IsLeast (suc i) n p bs h.1)
  | inr out ↦ (inl out, matches_from-IsLeast (suc i) n p bs (simp out at a))
]

smallest-least : (m : Match) (ms : List Match) → All (λ n. (smallest m ms).size ≤ n.size) (m ∷ ms)
unfolding smallest
smallest-least m [] = (omega arith, tt)
smallest-least m (n ∷ ms) = elim (Bool-cases (ltb n.size m.size)) [
  | inl less ↦
      let h = smallest-least n ms in
      let same : smallest m (n ∷ ms) ≡ smallest n ms = simp less refl in
      subst (λ k. All (λ x. k.size ≤ x.size) (m ∷ n ∷ ms)) (sym same) (ground arith, h)
  | inr more ↦
      let h = smallest-least m ms in
      let same : smallest m (n ∷ ms) ≡ smallest m ms = simp more refl in
      subst (λ k. All (λ x. k.size ≤ x.size) (m ∷ n ∷ ms)) (sym same) (h.0, (ground arith, h.1))
]

smallest-All :
    (P : Match → Type 0) (m : Match) (ms : List Match) → All P (m ∷ ms) → P (smallest m ms)
unfolding smallest
smallest-All P m [] a = a.0
smallest-All P m (n ∷ ms) a =
    if_both P (ltb n.size m.size) (smallest-All P n ms a.1) (smallest-All P m ms (a.0, a.1.1))

-- The front of a list, the member at an index and what comes after it.
remove_at_split :
    {A : Type 0} (i : ℕ) (xs : List A) (x : A)
    → get_elem? xs i ≡ some x
    → (front : List A) × (back : List A) × (xs ≡ front ++ x ∷ back)
      × (remove_at i xs ≡ front ++ back)
remove_at_split i [] x e = absurd (cc)
remove_at_split zero (y ∷ xs) x e = ([], xs, cc, refl)
remove_at_split (suc i) (y ∷ xs) x e =
    let (front, back, split, rest) = remove_at_split i xs x e in
    (y ∷ front, back, ap (λ l. y ∷ l) split, ap (λ l. y ∷ l) rest)

none-out :
    (i : ℕ) (p : Point) (bs : List Box)
    → matches_from i p bs ≡ []
    → All (λ c. point_in_box p.x p.y c ≡ false) bs
unfolding matches_from
none-out i p [] e = tt
none-out i p (b ∷ bs) e = elim (Bool-cases (point_in_box p.x p.y b)) [
  | inl under ↦ absurd (ground (arith, e, under))
  | inr out ↦ (out, none-out (suc i) p bs (simp out at e))
]

module _ {F : Type 0} ⦃fl : Floats F⦄ where
  remove_match-Removes :
      (ms : List Match) (p : Point) (e : Editor F)
      → matches_from 0 p e.boxes ≡ ms
      → Removes p e (remove_match ms e)
  unfolding snapshot
  remove_match-Removes [] p e same = inl (refl, none-out 0 p e.boxes same)
  remove_match-Removes (m ∷ ms) p e same =
      let (k, b, at, size, there, under) =
        smallest-All (IsMatch 0 p e.boxes) m ms
          (subst (All (IsMatch 0 p e.boxes)) same (matches_from-IsMatch 0 p e.boxes)) in
      let (front, back, split, rest) =
        remove_at_split (smallest m ms).index e.boxes b
          (subst (λ i. get_elem? e.boxes i ≡ some b) (omega (arith, at)) there) in
      let least =
        matches_from-IsLeast 0 (smallest m ms).size p e.boxes
          (subst (All (λ n. (smallest m ms).size ≤ n.size)) (sym same) (smallest-least m ms)) in
      inr ((front, b, back, split, rest, under, subst (λ n. IsLeast n p e.boxes) size least), refl)

  -- A right click on a pixel takes out one box under it, and none of the boxes under it is smaller
  -- than that one; the boxes before are put on the undo stack and nothing else changes. Where no box
  -- is under it nothing of the editor changes.
  pub mouse_callback-Removes :
      (x y : ℤ) (p : Point) (e : Editor F)
      → display_to_image x y e ≡ on p
      → Removes p e (mouse_callback right_down x y e)
  unfolding mouse_callback on_mouse
  mouse_callback-Removes x y p e at = rw at (remove_match-Removes _ p e refl)
