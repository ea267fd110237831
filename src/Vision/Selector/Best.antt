-- ===== src/Vision/Selector/Best.antt =====
-- `TargetSelector.select` returns the first of the most confident eligible detections.
use mousinator.Prelude.{
  ◌≡◌, refl, ◌⊎◌, inl, inr, true, false, Option, none, some, List, [], ◌∷◌, ◌++◌, arith, ap, All,
  keep, Bool-cases,
}
use mousinator.Prelude.Floats.{Floats, IsOrdered, le-lt_trans, not-lt-le}
use mousinator.Vision.Detection.{Detection}
use mousinator.Vision.Selector.{TargetSelector, is_eligible, max_confidence, select}

module _ {F : Type 0} ⦃fl : Floats F⦄ (s : TargetSelector F) where
  abbrev Below : Detection F → Detection F → Type 0
  Below d e = is_eligible s e ≡ true → fl.lt e.confidence d.confidence ≡ true

  abbrev NotAbove : Detection F → Detection F → Type 0
  NotAbove d e = is_eligible s e ≡ true → fl.le e.confidence d.confidence ≡ true

  -- `d` stands in `ds`; what is eligible before it has a smaller confidence, what is eligible
  -- behind it has no greater one.
  pub record IsFirstBest (ds : List (Detection F)) (d : Detection F) : Type 0 where
    pub before : List (Detection F)
    pub after : List (Detection F)
    pub split : ds ≡ before ++ d ∷ after
    pub eligible : is_eligible s d ≡ true
    pub beats : All (Below d) before
    pub holds : All (NotAbove d) after

  abbrev pub SelectsBest : List (Detection F) → Option (Detection F) → Type 0
  SelectsBest ds none = All (λ e. is_eligible s e ≡ false) ds
  SelectsBest ds (some d) = IsFirstBest ds d

  -- What the rest of the loop ends with, from the best item `b` so far.
  abbrev Continues : Detection F → List (Detection F) → Option (Detection F) → Type 0
  Continues b ds none = ⊥
  Continues b ds (some d) =
      ((d ≡ b) × All (NotAbove b) ds)
      ⊎ (IsFirstBest ds d × (fl.lt b.confidence d.confidence ≡ true))

module _ {F : Type 0} ⦃fl : Floats F⦄ (laws : IsOrdered fl) (s : TargetSelector F) where
  eligible-number : (d : Detection F) → is_eligible s d ≡ true → fl.is_nan d.confidence ≡ false
  eligible-number d h = ground (arith, laws.le-number s.confidence_threshold d.confidence)

  IsFirstBest-cons :
      (x d : Detection F) (ds : List (Detection F))
      → Below s d x
      → IsFirstBest s ds d
      → IsFirstBest s (x ∷ ds) d
  IsFirstBest-cons x d ds below h = record {
    before = x ∷ h.before;
    after = h.after;
    split = ap (λ l. x ∷ l) h.split;
    eligible = h.eligible;
    beats = (below, h.beats);
    holds = h.holds;
  }

  -- An item that is not eligible changes nothing.
  Continues-skip :
      (b x : Detection F) (ds : List (Detection F)) (r : Option (Detection F))
      → is_eligible s x ≡ false
      → Continues s b ds r
      → Continues s b (x ∷ ds) r
  Continues-skip b x ds none out h = h
  Continues-skip b x ds (some d) out (inl (e, low)) = inl (e, (λ p. ground arith, low))
  Continues-skip b x ds (some d) out (inr (best, up)) =
      inr (IsFirstBest-cons x d ds (λ p. ground arith) best, up)

  -- An item that does not beat the best one.
  Continues-lower :
      (b x : Detection F) (ds : List (Detection F)) (r : Option (Detection F))
      → fl.le x.confidence b.confidence ≡ true
      → Continues s b ds r
      → Continues s b (x ∷ ds) r
  Continues-lower b x ds none le h = h
  Continues-lower b x ds (some d) le (inl (e, low)) = inl (e, (λ p. le, low))
  Continues-lower b x ds (some d) le (inr (best, up)) =
      inr (IsFirstBest-cons x d ds (λ p. le-lt_trans laws _ _ _ le up) best, up)

  -- An item that beats the best one takes its place.
  Continues-higher :
      (b x : Detection F) (ds : List (Detection F)) (r : Option (Detection F))
      → is_eligible s x ≡ true
      → fl.lt b.confidence x.confidence ≡ true
      → Continues s x ds r
      → Continues s b (x ∷ ds) r
  Continues-higher b x ds none el lt h = h
  Continues-higher b x ds (some d) el lt (inl (e, low)) = inr (
    record {
      before = [];
      after = ds;
      split = rw e refl;
      eligible = rw e el;
      beats = tt;
      holds = rw e low;
    },
    rw e lt,
  )
  Continues-higher b x ds (some d) el lt (inr (best, up)) =
      inr (IsFirstBest-cons x d ds (λ p. up) best, le-lt_trans laws _ _ _ (laws.lt-le _ _ lt) up)

  not_beaten :
      (b x : Detection F)
      → is_eligible s b ≡ true
      → is_eligible s x ≡ true
      → fl.lt b.confidence x.confidence ≡ false
      → fl.le x.confidence b.confidence ≡ true
  not_beaten b x eb ex low = not-lt-le laws _ _ (eligible-number b eb) (eligible-number x ex) low

  loop-Continues :
      (b : Detection F) (ds : List (Detection F))
      → is_eligible s b ≡ true
      → Continues s b ds (max_confidence (some b) (keep (is_eligible s) ds))
  unfolding max_confidence
  loop-Continues b [] el = inl (refl, tt)
  loop-Continues b (x ∷ ds) el = elim (Bool-cases (is_eligible s x)) [
    | inl here ↦ elim (Bool-cases (fl.lt b.confidence x.confidence)) [
      | inl up ↦
          rw (here, max_confidence, up)
            (Continues-higher b x ds _ here up (loop-Continues x ds here))
      | inr low ↦
          rw (here, max_confidence, low)
            (Continues-lower b x ds _ (not_beaten b x el here low) (loop-Continues b ds el))
    ]
    | inr out ↦ rw out (Continues-skip b x ds _ out (loop-Continues b ds el))
  ]

  Continues-start :
      (x : Detection F) (ds : List (Detection F)) (r : Option (Detection F))
      → is_eligible s x ≡ true
      → Continues s x ds r
      → SelectsBest s (x ∷ ds) r
  Continues-start x ds none el h = absurd h
  Continues-start x ds (some d) el (inl (e, low)) = record {
    before = [];
    after = ds;
    split = rw e refl;
    eligible = rw e el;
    beats = tt;
    holds = rw e low;
  }
  Continues-start x ds (some d) el (inr (best, up)) = IsFirstBest-cons x d ds (λ p. up) best

  SelectsBest-skip :
      (x : Detection F) (ds : List (Detection F)) (r : Option (Detection F))
      → is_eligible s x ≡ false
      → SelectsBest s ds r
      → SelectsBest s (x ∷ ds) r
  SelectsBest-skip x ds none out h = (out, h)
  SelectsBest-skip x ds (some d) out h = IsFirstBest-cons x d ds (λ p. ground arith) h

  -- Of the eligible detections, `select` returns the first with the greatest confidence, and
  -- nothing only if none is eligible.
  pub select-SelectsBest : (ds : List (Detection F)) → SelectsBest s ds (select s ds)
  unfolding select max_confidence
  select-SelectsBest [] = tt
  select-SelectsBest (x ∷ ds) = elim (Bool-cases (is_eligible s x)) [
    | inl here ↦ rw here (Continues-start x ds _ here (loop-Continues x ds here))
    | inr out ↦ rw out (SelectsBest-skip x ds _ out (select-SelectsBest ds))
  ]
