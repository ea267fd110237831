-- ===== src/Tools/AutoLabel/Suppressed.antt =====
-- The suppression of overlapping proposals in tools/auto_label_mouse.py.
use mousinator.Tools.AutoLabel.{
  suppressed, clamp_box, filtered, nms_single_class, is_thin, insert_all, propose, is_apart,
  Proposal, insert, nms_loop,
}
use mousinator.Prelude.Floats.{Floats}
use mousinator.Prelude.{
  ◌+◌, ap, All-weaken, inr, ◌⊎◌, [], inl, Bool-cases, if_both, ◌≤◌, keep, some, length, get_elem?,
  All, ◌∷◌, List, ℕ, zero, suc, Bool, true, false, ◌≡◌, refl, arith,
}

module _ {F : Type 0} ⦃fl : Floats F⦄ where
  -- No box overlaps a later one by more than the threshold.
  abbrev pub AreApart : F → List (Proposal F) → Type 0
  AreApart threshold [] = Unit
  AreApart threshold (p ∷ ps) = All (λ q. is_apart threshold p q ≡ true) ps × AreApart threshold ps

  -- The proposal is one of the kept, or overlaps one of them by more than the threshold.
  abbrev pub IsCovered : F → List (Proposal F) → Proposal F → Type 0
  IsCovered threshold kept q =
      (i : ℕ) × (p : Proposal F) × (get_elem? kept i ≡ some p)
      × ((p ≡ q) ⊎ (is_apart threshold p q ≡ false))

  -- What is kept of some proposals.
  pub record Suppresses (threshold : F) (ps kept : List (Proposal F)) : Type 1 where
    pub apart : AreApart threshold kept
    pub covered : All (IsCovered threshold kept) ps
    pub taken : (Q : Proposal F → Type 0) → All Q ps → All Q kept

  keep-All :
      (Q : Proposal F → Type 0) (t : Proposal F → Bool) (ps : List (Proposal F))
      → All Q ps
      → All Q (keep t ps)
  keep-All Q t [] a = tt
  keep-All Q t (p ∷ ps) a =
      if_both (All Q) (t p) {x = p ∷ keep t ps} (a.0, keep-All Q t ps a.1) (keep-All Q t ps a.1)

  keep-pass : (t : Proposal F → Bool) (ps : List (Proposal F)) → All (λ p. t p ≡ true) (keep t ps)
  keep-pass t [] = tt
  keep-pass t (p ∷ ps) = elim (Bool-cases (t p)) [
    | inl passes ↦ simp passes (refl, keep-pass t ps)
    | inr fails ↦ simp fails (keep-pass t ps)
  ]

  -- What holds of the members that pass, and of those that do not, holds of all.
  keep-split :
      (Q : Proposal F → Type 0) (t : Proposal F → Bool) (ps : List (Proposal F))
      → All Q (keep t ps)
      → ((p : Proposal F) → t p ≡ false → Q p)
      → All Q ps
  keep-split Q t [] a f = tt
  keep-split Q t (p ∷ ps) a f = elim (Bool-cases (t p)) [
    | inl passes ↦ let b = simp passes at a in (b.0, keep-split Q t ps b.1 f)
    | inr fails ↦ (f p fails, keep-split Q t ps (simp fails at a) f)
  ]

  length-keep : (t : Proposal F → Bool) (ps : List (Proposal F)) → length (keep t ps) ≤ length ps
  length-keep t [] = omega arith
  length-keep t (p ∷ ps) = elim (Bool-cases (t p)) [
    | inl passes ↦ simp passes (omega (arith, length-keep t ps))
    | inr fails ↦ simp fails (omega (arith, length-keep t ps))
  ]

  IsCovered-later :
      (threshold : F) (p : Proposal F) (kept : List (Proposal F)) (q : Proposal F)
      → IsCovered threshold kept q
      → IsCovered threshold (p ∷ kept) q
  IsCovered-later threshold p kept q (i, r, at, how) = (suc i, r, at, how)

  nms_loop-Suppresses :
      (k : ℕ) (threshold : F) (ps : List (Proposal F))
      → length ps ≤ k
      → (kept : List (Proposal F)) × (nms_loop k threshold ps ≡ some kept)
        × Suppresses threshold ps kept
  unfolding nms_loop
  nms_loop-Suppresses k threshold [] enough =
      ([], refl, record { apart = tt; covered = tt; taken = λ Q a. tt })
  nms_loop-Suppresses zero threshold (p ∷ ps) enough = absurd (omega (arith, enough))
  nms_loop-Suppresses (suc k) threshold (p ∷ ps) enough =
      let t = is_apart threshold p in
      let (kept, e, v) =
        nms_loop-Suppresses k threshold (keep t ps) (omega (arith, enough, length-keep t ps)) in
      (
        p ∷ kept,
        rw e refl,
        record {
          apart = (v.taken (λ q. t q ≡ true) (keep-pass t ps), v.apart);
          covered = (
            (zero, p, refl, inl refl),
            keep-split (IsCovered threshold (p ∷ kept)) t ps
                (All-weaken (IsCovered threshold kept) (IsCovered threshold (p ∷ kept)) (keep t ps)
                  (λ q. IsCovered-later threshold p kept q) v.covered)
                (λ q out. (zero, p, refl, inr out)),
          );
          taken = λ Q a. (a.0, v.taken Q (keep-All Q t ps a.1));
        },
      )

  insert-All :
      (Q : Proposal F → Type 0) (p : Proposal F) (ps : List (Proposal F))
      → Q p × All Q ps
      → All Q (insert p ps)
  unfolding insert
  insert-All Q p [] a = a
  insert-All Q p (q ∷ qs) a =
      if_both (All Q) (fl.lt q.score p.score) {x = p ∷ q ∷ qs} (a.0, (a.1.0, a.1.1))
        (a.1.0, insert-All Q p qs (a.0, a.1.1))

  insert-All-back :
      (Q : Proposal F → Type 0) (p : Proposal F) (ps : List (Proposal F))
      → All Q (insert p ps)
      → Q p × All Q ps
  unfolding insert
  insert-All-back Q p [] a = a
  insert-All-back Q p (q ∷ qs) a = elim (Bool-cases (fl.lt q.score p.score)) [
    | inl less ↦ simp less at a
    | inr more ↦
        let b = simp more at a in
        let (first, rest) = insert-All-back Q p qs b.1 in (first, (b.0, rest))
  ]

  insert_all-All :
      (Q : Proposal F → Type 0) (ps sorted : List (Proposal F))
      → All Q ps
      → All Q sorted
      → All Q (insert_all ps sorted)
  unfolding insert_all
  insert_all-All Q [] sorted a b = b
  insert_all-All Q (p ∷ ps) sorted a b =
      insert_all-All Q ps (insert p sorted) a.1 (insert-All Q p sorted (a.0, b))

  insert_all-All-back :
      (Q : Proposal F → Type 0) (ps sorted : List (Proposal F))
      → All Q (insert_all ps sorted)
      → All Q ps × All Q sorted
  unfolding insert_all
  insert_all-All-back Q [] sorted a = (tt, a)
  insert_all-All-back Q (p ∷ ps) sorted a =
      let (later, both) = insert_all-All-back Q ps (insert p sorted) a in
      let (first, rest) = insert-All-back Q p sorted both in ((first, later), rest)

  length-insert : (p : Proposal F) (ps : List (Proposal F)) → length (insert p ps) ≡ suc (length ps)
  unfolding insert
  length-insert p [] = refl
  length-insert p (q ∷ qs) = elim (Bool-cases (fl.lt q.score p.score)) [
    | inl less ↦ simp less refl
    | inr more ↦ simp more (ap suc (length-insert p qs))
  ]

  length-insert_all :
      (ps sorted : List (Proposal F)) → length (insert_all ps sorted) ≡ length ps + length sorted
  unfolding insert_all
  length-insert_all [] sorted = omega arith
  length-insert_all (p ∷ ps) sorted =
      omega (arith, length-insert_all ps (insert p sorted), length-insert p sorted)

  filtered-thick :
      (w h : ℕ) (ps : List (Proposal F)) → All (λ p. is_thin p.box ≡ false) (filtered w h ps)
  unfolding filtered
  filtered-thick w h [] = tt
  filtered-thick w h (p ∷ ps) = elim (Bool-cases (is_thin (clamp_box w h p.box))) [
    | inl thin ↦ simp thin (filtered-thick w h ps)
    | inr thick ↦ simp thick (refl, filtered-thick w h ps)
  ]

  -- What is kept of the boxes that are not too thin: no box that stays overlaps a later one by more than the
  -- threshold, every box that was not too thin stays or overlaps one that stays by more than the
  -- threshold, and no box that stays is thin.
  abbrev IsProposed : F → List (Proposal F) → List (Proposal F) → Type 0
  IsProposed threshold before kept =
      AreApart threshold kept
      × All (IsCovered threshold kept) before
      × All (λ p. is_thin p.box ≡ false) kept

  nms_single_class-IsProposed :
      (Q : Proposal F → Type 0) (threshold : F) (ps : List (Proposal F))
      → All (λ p. is_thin p.box ≡ false) ps
      → All Q ps
      → (kept : List (Proposal F)) × (nms_single_class threshold ps ≡ some kept)
        × IsProposed threshold ps kept
        × All Q kept
  unfolding nms_single_class
  nms_single_class-IsProposed Q threshold ps thick holds =
      let (kept, e, v) =
        nms_loop-Suppresses (length ps) threshold (insert_all ps [])
          (omega (arith, length-insert_all ps [])) in
      (
        kept,
        e,
        (
          v.apart,
          (insert_all-All-back _ ps [] v.covered).0,
          v.taken _ (insert_all-All _ ps [] thick tt),
        ),
        v.taken Q (insert_all-All Q ps [] holds tt),
      )

  suppressed-IsProposed :
      (Q : Proposal F → Type 0) (threshold : F) (ps : List (Proposal F))
      → All (λ p. is_thin p.box ≡ false) ps
      → All Q ps
      → (kept : List (Proposal F)) × (suppressed threshold ps ≡ some kept)
        × IsProposed threshold ps kept
        × All Q kept
  suppressed-IsProposed Q threshold [] thick holds = ([], refl, (tt, tt, tt), tt)
  suppressed-IsProposed Q threshold (p ∷ ps) thick holds =
      nms_single_class-IsProposed Q threshold (p ∷ ps) thick holds

  -- A proposal with its box clamped to the image.
  abbrev pub clamped : ℕ → ℕ → Proposal F → Proposal F
  clamped w h p = record { box = clamp_box w h p.box; score = p.score }

  -- The proposal is a clamped one of these.
  abbrev IsFrom : ℕ → ℕ → List (Proposal F) → Proposal F → Type 0
  IsFrom w h ps q = (i : ℕ) × (p : Proposal F) × (get_elem? ps i ≡ some p) × (q ≡ clamped w h p)

  filtered-IsFrom : (w h : ℕ) (ps : List (Proposal F)) → All (IsFrom w h ps) (filtered w h ps)
  unfolding filtered
  filtered-IsFrom w h [] = tt
  filtered-IsFrom w h (p ∷ ps) =
      let later =
        All-weaken (IsFrom w h ps) (IsFrom w h (p ∷ ps)) (filtered w h ps)
          (λ q (i, r, at, same). (suc i, r, at, same)) (filtered-IsFrom w h ps) in
      if_both (All (IsFrom w h (p ∷ ps))) (is_thin (clamp_box w h p.box)) later
        ((zero, p, refl, refl), later)

  -- What holds of the members that stay after the thin ones are left out, and of the thin ones, holds
  -- of all.
  filtered-split :
      (Q : Proposal F → Type 0) (w h : ℕ) (ps : List (Proposal F))
      → All Q (filtered w h ps)
      → All (λ p. (is_thin (clamp_box w h p.box) ≡ true) ⊎ Q (clamped w h p)) ps
  unfolding filtered
  filtered-split Q w h [] a = tt
  filtered-split Q w h (p ∷ ps) a = elim (Bool-cases (is_thin (clamp_box w h p.box))) [
    | inl thin ↦ (inl thin, filtered-split Q w h ps (simp thin at a))
    | inr thick ↦ let b = simp thick at a in (inr b.0, filtered-split Q w h ps b.1)
  ]

  -- What the proposals of an image are, by the boxes of the detector.
  pub record IsProposal (w h : ℕ) (threshold : F) (ps kept : List (Proposal F)) : Type 0 where
    pub apart : AreApart threshold kept
    pub covered :
        All
          (λ p. (is_thin (clamp_box w h p.box) ≡ true) ⊎ IsCovered threshold kept (clamped w h p))
          ps
    pub thick : All (λ q. is_thin q.box ≡ false) kept
    pub from : All (IsFrom w h ps) kept

  -- The suppression ends within its rounds for any boxes, scores and threshold. No box that it keeps
  -- overlaps a later one by more than the threshold. Every box of the detector, clamped to the image,
  -- is less than two pixels wide or high, or is kept, or overlaps a kept one by more than the
  -- threshold. Every kept box is a clamped box of the detector with its score, at least two pixels
  -- wide and high.
  pub propose-IsProposed :
      (w h : ℕ) (threshold : F) (ps : List (Proposal F))
      → (kept : List (Proposal F)) × (propose w h threshold ps ≡ some kept)
        × IsProposal w h threshold ps kept
  unfolding propose
  propose-IsProposed w h threshold ps =
      let (kept, e, v, from) =
        suppressed-IsProposed (IsFrom w h ps) threshold (filtered w h ps) (filtered-thick w h ps)
          (filtered-IsFrom w h ps) in
      (
        kept,
        e,
        record {
          apart = v.0;
          covered = filtered-split (IsCovered threshold kept) w h ps v.1;
          thick = v.2;
          from = from;
        },
      )
