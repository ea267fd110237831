-- ===== src/Tools/CleanUp/Grouping.antt =====
-- The groups of near duplicates of tools/cleanup_mouse_positives.py are those of the labels.
use mousinator.Tools.CleanUp.Labelling.{
  link-IsForest, raised_rank, other_ne, find-label, relabel_all, group_by_label, same_or_other,
  IsForest, relabel,
}
use mousinator.Tools.CleanUp.UnionFind.{
  put, add_to, union_find, Parents, group_near, group_from, union, union_all,
}
use mathlib.Core.Path.{subst}
use mousinator.Prelude.{
  sym, ◌∙◌, inr, sym, ◌∙◌, ◌∷◌, [], inl, some, length, List, String, ℕ, suc, ◌+◌, ◌≤◌, ◌≡◌, refl,
  arith,
}

IsForest-weaker :
    (k : ℕ) (rank : String → ℕ) (l : String → String) (p : Parents)
    → IsForest k rank l p
    → IsForest (suc k) rank l p
IsForest-weaker k rank l p v = record {
  fixed = v.fixed;
  at_root = v.at_root;
  up = v.up;
  down = v.down;
  root_zero = v.root_zero;
  bound = λ x. omega (arith, v.bound x);
}

-- A union of two items with one label changes no label.
relabel_same :
    (a b : String) (l : String → String) → l a ≡ l b → (x : String) → l x ≡ relabel a b l x
relabel_same a b l same x = elim (same_or_other (l x) (l b)) [
  | inl (test, e) ↦ simp test (e ∙ sym same)
  | inr other ↦ simp other refl
]

union-IsForest :
    (rounds k : ℕ) (rank : String → ℕ) (l : String → String) (p : Parents) (a b : String)
    → k ≤ rounds
    → IsForest k rank l p
    → (q : Parents) × (rank' : String → ℕ) × (union rounds a b p ≡ some q)
      × IsForest (suc k) rank' (relabel a b l) q
unfolding union
union-IsForest rounds k rank l p a b enough v =
    let (p1, e1, v1) = find-label rounds k rank l p a enough v in
    let (p2, e2, v2) = find-label rounds k rank l p1 b enough v1 in
    elim (same_or_other (l a) (l b)) [
      | inl (test, same) ↦ (
        p2,
        rank,
        rw (e1, e2, test) refl,
        subst (λ m. IsForest (suc k) rank m p2) (λ i x. relabel_same a b l same x i)
            (IsForest-weaker k rank l p2 v2),
      )
      | inr apart ↦ (
        put (l b) (l a) p2,
        raised_rank rank l (l b),
        rw (e1, e2, apart) refl,
        link-IsForest k rank l p2 a b apart v2,
      )
    ]

union_all-IsForest :
    (rounds k : ℕ) (pairs : List (String × String)) (rank : String → ℕ) (l : String → String)
    (p : Parents)
    → k + length pairs ≤ rounds
    → IsForest k rank l p
    → (q : Parents) × (rank' : String → ℕ) × (union_all rounds pairs p ≡ some q)
      × IsForest (k + length pairs) rank' (relabel_all pairs l) q
unfolding union_all
union_all-IsForest rounds k [] rank l p enough v =
    (p, rank, refl, subst (λ j. IsForest j rank l p) (omega arith) v)
union_all-IsForest rounds k (ab ∷ pairs) rank l p enough v =
    let (p1, rank1, e1, v1) =
      union-IsForest rounds k rank l p ab.0 ab.1 (omega (arith, enough)) v in
    let (q, rank2, e, w) =
      union_all-IsForest rounds (suc k) pairs rank1 (relabel ab.0 ab.1 l) p1 (omega (arith, enough))
        v1 in
    (
      q,
      rank2,
      rw e1 e,
      subst (λ j. IsForest j rank2 (relabel_all (ab ∷ pairs) l) q) (omega arith) w,
    )

group_from-label :
    (rounds k : ℕ) (names : List String) (rank : String → ℕ) (l : String → String) (p : Parents)
    (groups : List (String × List String))
    → k ≤ rounds
    → IsForest k rank l p
    → group_from rounds names p groups ≡ some (group_by_label l names groups)
unfolding group_from
group_from-label rounds k [] rank l p groups enough v = refl
group_from-label rounds k (name ∷ names) rank l p groups enough v =
    let (q, e, w) = find-label rounds k rank l p name enough v in
    rw e (group_from-label rounds k names rank l q (add_to (l name) name groups) enough w)

-- For any near pairs the union-find ends within its rounds, and the groups of near duplicates are
-- those of the labels that a union rewrites at every item, in the same order and with the same
-- representatives.
pub group_near-label :
    (names : List String) (pairs : List (String × String))
    → group_near names pairs ≡ some (group_by_label (relabel_all pairs (λ x. x)) names [])
unfolding group_near
group_near-label names pairs =
    let (q, rank, e, w) =
      union_all-IsForest (length pairs) 0 pairs (λ x. 0) (λ x. x) union_find (omega arith)
        (record {
          fixed = λ x. refl;
          at_root = λ x h. refl;
          up = λ x. refl;
          down = λ x h. absurd (other_ne h refl);
          root_zero = λ x. refl;
          bound = λ x. omega arith;
        }) in
    rw e (
      group_from-label (length pairs) (0 + length pairs) names rank (relabel_all pairs (λ x. x)) q
        [] (omega arith) w)
