-- ===== src/Tools/Split/Ordering.antt =====
-- The order of the rows of the manifest that tools/build_mouse_yolo_v1.py writes.
use mousinator.Tools.Split.{
  ManifestRow, Split, train, val, test, comes_before, insert_row, sort_rows,
}
use mousinator.Prelude.Text.{Text, codes, ltb_text}
use mathlib.Core.List.{Perm, perm_middle}
use mathlib.Core.List.Perm
use mousinator.Prelude.{
  All, List, [], ◌∷◌, true, false, ◌≡◌, refl, inl, inr, Bool-cases, if_both, arith, ◌++◌,
}

ltb_text-asym : (s t : Text) → ltb_text s t ≡ true → ltb_text t s ≡ false
unfolding ltb_text
ltb_text-asym [] [] h = refl
ltb_text-asym [] (b ∷ t) h = refl
ltb_text-asym (a ∷ s) [] h = absurd (cc)
ltb_text-asym (a ∷ s) (b ∷ t) h = ground (arith, ltb_text-asym s t)

before-asym :
    (s t : Split) (r : ManifestRow) (u : ManifestRow)
    → comes_before (record r { split = s }) (record u { split = t }) ≡ true
    → comes_before (record u { split = t }) (record r { split = s }) ≡ false
unfolding comes_before ltb_text
before-asym train train r u h = ltb_text-asym (codes r.filename) (codes u.filename) h
before-asym val val r u h = ltb_text-asym (codes r.filename) (codes u.filename) h
before-asym test test r u h = ltb_text-asym (codes r.filename) (codes u.filename) h
before-asym train val r u h = refl
before-asym train test r u h = absurd (cc)
before-asym val train r u h = absurd (cc)
before-asym val test r u h = absurd (cc)
before-asym test train r u h = refl
before-asym test val r u h = refl

-- No row comes before the row ahead of it.
abbrev pub IsOrdered : List ManifestRow → Type 0
IsOrdered [] = Unit
IsOrdered (r ∷ []) = Unit
IsOrdered (r ∷ t ∷ ts) = (comes_before t r ≡ false) × IsOrdered (t ∷ ts)

insert_row-IsOrdered :
    (r : ManifestRow) (ts : List ManifestRow) → IsOrdered ts → IsOrdered (insert_row r ts)
unfolding insert_row
insert_row-IsOrdered r [] v = tt
insert_row-IsOrdered r (t ∷ []) v = elim (Bool-cases (comes_before r t)) [
  | inl less ↦ simp less (before-asym r.split t.split r t less, tt)
  | inr more ↦ simp more (refl, tt)
]
insert_row-IsOrdered r (t ∷ u ∷ us) v = elim (Bool-cases (comes_before r t)) [
  | inl less ↦ simp less (before-asym r.split t.split r t less, v)
  | inr more ↦ elim (Bool-cases (comes_before r u)) [
    | inl less ↦ simp (more, less) (refl, (before-asym r.split u.split r u less, v.1))
    | inr later ↦
        let rest = simp later at (insert_row-IsOrdered r (u ∷ us) v.1) in
        simp (more, later) (v.0, rest)
  ]
]

pub sort_rows-IsOrdered :
    (rs sorted : List ManifestRow) → IsOrdered sorted → IsOrdered (sort_rows rs sorted)
unfolding sort_rows
sort_rows-IsOrdered [] sorted v = v
sort_rows-IsOrdered (r ∷ rs) sorted v =
    sort_rows-IsOrdered rs (insert_row r sorted) (insert_row-IsOrdered r sorted v)

insert_row-perm : (r : ManifestRow) (ts : List ManifestRow) → Perm (insert_row r ts) (r ∷ ts)
unfolding insert_row
insert_row-perm r [] = Perm.rfl
insert_row-perm r (t ∷ ts) =
    if_both (λ l. Perm l (r ∷ t ∷ ts)) (comes_before r t) Perm.rfl
      (Perm.trans (Perm.cons t (insert_row-perm r ts)) (Perm.swap r t ts))

pub sort_rows-perm : (rs sorted : List ManifestRow) → Perm (sort_rows rs sorted) (rs ++ sorted)
unfolding sort_rows
sort_rows-perm [] sorted = Perm.rfl
sort_rows-perm (r ∷ rs) sorted =
    Perm.trans (sort_rows-perm rs (insert_row r sorted))
      (Perm.trans (Perm.append (Perm.refl rs) (insert_row-perm r sorted)) (perm_middle rs sorted))

insert_row-All :
    (P : ManifestRow → Type 0) (r : ManifestRow) (ts : List ManifestRow)
    → P r
    → All P ts
    → All P (insert_row r ts)
unfolding insert_row
insert_row-All P r [] p a = (p, tt)
insert_row-All P r (t ∷ ts) p a =
    if_both (All P) (comes_before r t) {x = r ∷ t ∷ ts} (p, a) (a.0, insert_row-All P r ts p a.1)

pub sort_rows-All :
    (P : ManifestRow → Type 0) (rs sorted : List ManifestRow)
    → All P rs
    → All P sorted
    → All P (sort_rows rs sorted)
unfolding sort_rows
sort_rows-All P [] sorted a b = b
sort_rows-All P (r ∷ rs) sorted a b =
    sort_rows-All P rs (insert_row r sorted) a.1 (insert_row-All P r sorted a.0 b)
