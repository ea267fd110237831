-- ===== src/Tools/CleanUp/Labelling.antt =====
-- The union-find of tools/cleanup_mouse_positives.py against labels that a union rewrites at every
-- item: the same groups, and the loops end.
use mousinator.Tools.CleanUp.UnionFind.{find, compress, add_to, put, Parents, root_of}
use mousinator.Prelude.{
  ◌∙◌, sym, eq_iff, inr, ap, inl, Bool-cases, some, ◌⊎◌, [], if◌then◌else◌, if◌then◌else◌, ◌∷◌,
  ◌==◌, String, List, ℕ, zero, suc, true, false, ◌≤◌, ◌<◌, ◌≡◌, refl, arith,
}

-- The label of every item after a union: the items labelled like `b` get the label of `a`.
abbrev pub relabel : String → String → (String → String) → String → String
relabel a b l x = if l x == l b then l a else l x

abbrev pub relabel_all : List (String × String) → (String → String) → String → String
relabel_all [] l = l
relabel_all (ab ∷ pairs) l = relabel_all pairs (relabel ab.0 ab.1 l)

abbrev pub group_by_label :
    (String → String) → List String → List (String × List String) → List (String × List String)
group_by_label l [] groups = groups
group_by_label l (name ∷ names) groups = group_by_label l names (add_to (l name) name groups)

-- The parents lead every item to its label, in at most `k` steps: an item of the rank 0 is a root.
pub record IsForest (k : ℕ) (rank : String → ℕ) (l : String → String) (p : Parents) : Type 0 where
  pub fixed : (x : String) → p (l x) ≡ l x
  pub at_root : (x : String) → p x ≡ x → l x ≡ x
  pub up : (x : String) → l (p x) ≡ l x
  pub down : (x : String) → (p x == x) ≡ false → rank (p x) < rank x
  pub root_zero : (x : String) → rank (l x) ≡ 0
  pub bound : (x : String) → rank x ≤ k

pub same_or_other : (x y : String) → ((x == y) ≡ true) × (x ≡ y) ⊎ ((x == y) ≡ false)
same_or_other x y = elim (Bool-cases (x == y)) [
  | inl same ↦ inl (same, (eq_iff x y).0 same)
  | inr other ↦ inr other
]

pub other_ne : {x y : String} → (x == y) ≡ false → x ≡ y → ⊥
other_ne {x} {y} other same = let test = (eq_iff x y).1 same in cc

root_of-label :
    (k f : ℕ) (rank : String → ℕ) (l : String → String) (p : Parents) (x : String)
    (v : IsForest k rank l p)
    → rank x ≤ f
    → root_of f p x ≡ some (l x)
unfolding root_of
root_of-label k zero rank l p x v few = elim (same_or_other (p x) x) [
  | inl (test, same) ↦ rw test (ap some (sym (v.at_root x same)))
  | inr other ↦ absurd (omega (arith, few, v.down x other))
]
root_of-label k (suc f) rank l p x v few = elim (same_or_other (p x) x) [
  | inl (test, same) ↦ rw test (ap some (sym (v.at_root x same)))
  | inr other ↦
      rw other
        (root_of-label k f rank l p (p x) v (omega (arith, few, v.down x other)) ∙ ap some (v.up x))
]

put-IsForest :
    (k : ℕ) (rank : String → ℕ) (l : String → String) (p : Parents) (x : String)
    → (p x == x) ≡ false
    → IsForest k rank l p
    → IsForest k rank l (put x (l x) p)
put-IsForest k rank l p x inner v = record {
  fixed = λ y. elim (same_or_other (l y) x) [
    | inl (test, same) ↦ absurd (other_ne inner (ap p (sym same) ∙ (v.fixed y ∙ same)))
    | inr other ↦ simp other (v.fixed y)
  ];
  at_root = λ y e. elim (same_or_other y x) [
    | inl (test, same) ↦ ap l same ∙ (simp test at e)
    | inr other ↦ v.at_root y (simp other at e)
  ];
  up = λ y. elim (same_or_other y x) [
    | inl (test, same) ↦ simp test (v.at_root (l x) (v.fixed x) ∙ ap l (sym same))
    | inr other ↦ simp other (v.up y)
  ];
  down = λ y e. elim (same_or_other y x) [
    | inl (test, same) ↦ simp test (omega (arith, v.root_zero x, v.down x inner, ap rank same))
    | inr other ↦ simp other (v.down y (simp other at e))
  ];
  root_zero = v.root_zero;
  bound = v.bound;
}

-- What the second loop leaves: the same labels with the same ranks.
compress-IsForest :
    (k f : ℕ) (rank : String → ℕ) (l : String → String) (p : Parents) (x : String)
    (v : IsForest k rank l p)
    → rank x ≤ f
    → (q : Parents) × (compress f p x (l x) ≡ some q) × IsForest k rank l q
unfolding compress
compress-IsForest k zero rank l p x v few = elim (Bool-cases (p x == x)) [
  | inl test ↦ (p, simp test refl, v)
  | inr inner ↦ absurd (omega (arith, few, v.down x inner))
]
compress-IsForest k (suc f) rank l p x v few = elim (Bool-cases (p x == x)) [
  | inl test ↦ (p, simp test refl, v)
  | inr inner ↦
      let (q, e, w) =
        compress-IsForest k f rank l (put x (l x) p) (p x) (put-IsForest k rank l p x inner v)
          (omega (arith, few, v.down x inner)) in
      (q, rw inner (ap (compress f (put x (l x) p) (p x)) (sym (v.up x)) ∙ e), w)
]

-- `find` returns the label and keeps all labels, given as many rounds as the bound.
pub find-label :
    (rounds k : ℕ) (rank : String → ℕ) (l : String → String) (p : Parents) (x : String)
    → k ≤ rounds
    → IsForest k rank l p
    → (q : Parents) × (find rounds p x ≡ some (l x, q)) × IsForest k rank l q
unfolding find
find-label rounds k rank l p x enough v =
    let few : rank x ≤ rounds = omega (arith, v.bound x) in
    let (q, e, w) = compress-IsForest k rounds rank l p x v few in
    (q, rw (root_of-label k rounds rank l p x v few, e) refl, w)

-- The ranks after the items under the root `rb` came under another one.
abbrev pub raised_rank : (String → ℕ) → (String → String) → String → String → ℕ
raised_rank rank l rb x = if l x == rb then suc (rank x) else rank x

label_twice :
    {k : ℕ} {rank : String → ℕ} {l : String → String} {p : Parents}
    → IsForest k rank l p
    → (x : String) → l (l x) ≡ l x
label_twice {l} v x = v.at_root (l x) (v.fixed x)

pub link-IsForest :
    (k : ℕ) (rank : String → ℕ) (l : String → String) (p : Parents) (a b : String)
    → (l a == l b) ≡ false
    → IsForest k rank l p
    → IsForest (suc k) (raised_rank rank l (l b)) (relabel a b l) (put (l b) (l a) p)
link-IsForest k rank l p a b apart v = record {
  fixed = λ x. elim (same_or_other (l x) (l b)) [
    | inl (test, same) ↦ simp (test, apart) (v.fixed a)
    | inr other ↦ simp other (v.fixed x)
  ];
  at_root = λ x e. elim (same_or_other x (l b)) [
    | inl (test, same) ↦ absurd (other_ne apart ((simp test at e) ∙ same))
    | inr other ↦
        let root = v.at_root x (simp other at e) in
        let outside : (l x == l b) ≡ false = ap (λ y. y == l b) root ∙ other in simp outside root
  ];
  up = λ x. elim (same_or_other x (l b)) [
    | inl (test, same) ↦
        let own : l x ≡ l b = ap l same ∙ label_twice v b in
        simp (test, label_twice v a, own, apart, (eq_iff (l b) (l b)).1 refl) refl
    | inr other ↦ simp (other, v.up x) refl
  ];
  down = λ x e. elim (same_or_other x (l b)) [
    | inl (test, same) ↦
        let own : l x ≡ l b = ap l same ∙ label_twice v b in
        simp (test, label_twice v a, own, apart, (eq_iff (l b) (l b)).1 refl)
          (omega (arith, v.root_zero a))
    | inr other ↦
        simp (other, v.up x)
          (elim (Bool-cases (l x == l b)) [
            | inl test ↦ simp test (omega (arith, v.down x (simp other at e)))
            | inr test ↦ simp test (omega (arith, v.down x (simp other at e)))
          ])
  ];
  root_zero = λ x. elim (same_or_other (l x) (l b)) [
    | inl (test, same) ↦ simp (test, label_twice v a, apart) (v.root_zero a)
    | inr other ↦ simp (other, label_twice v x) (v.root_zero x)
  ];
  bound = λ x. elim (Bool-cases (l x == l b)) [
    | inl test ↦ simp test (omega (arith, v.bound x))
    | inr test ↦ simp test (omega (arith, v.bound x))
  ];
}
