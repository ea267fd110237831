-- ===== src/Tools/Review/Decided.antt =====
-- What is on the disk when the queue of tools/review_mouse_annotations.py is at its end.
use mousinator.Tools.Review.{
  other, quit, back, left, decides, on_key, while_showing, showing, review, Outcome, Key, run_keys,
  decide, find_decision, show_from, finished, shown, after, Decision, Session, skip_failing,
}
use mathlib.Core.Path.{subst}
use mousinator.Prelude.{
  get_elem?-none-later, sym, eq_iff, ◌-◌, [], inr, ◌∙◌, inl, is_some, none, ltb, ap, Bool-cases,
  ◌∷◌, ◌||◌, some, not, Option, get_elem?, String, List, ℕ, zero, suc, ◌+◌, ◌<◌, Bool, true, false,
  ◌≡◌, refl, arith,
}

-- The name has a decision, or its image or label does not load.
abbrev pub IsDecided : (String → Bool) → List (String × Decision) → String → Type 0
IsDecided loads reviews name = (not (loads name) || is_some (find_decision name reviews)) ≡ true

pub record IsUpToDate (loads : String → Bool) (queue : List String) (s : Session) : Type 0 where
  pub decided :
      (i : ℕ) (name : String)
      → i < s.index
      → get_elem? queue i ≡ some name
      → IsDecided loads s.all_reviews name
  pub on_disk : s.written ≡ s.all_reviews
  pub at_end : s.outcome ≡ finished → get_elem? queue s.index ≡ none

get_elem?-after :
    {A : Type 0} (i k : ℕ) (xs : List A) → get_elem? (after i xs) k ≡ get_elem? xs (k + i)
get_elem?-after zero k xs = let e : k ≡ k + 0 = omega arith in ap (λ j. get_elem? xs j) e
get_elem?-after (suc i) k [] = refl
get_elem?-after (suc i) k (x ∷ xs) =
    let e : suc (k + i) ≡ k + suc i = omega arith in
    get_elem?-after i k xs ∙ ap (λ j. get_elem? (x ∷ xs) j) e

module _ (loads : String → Bool) (queue : List String) where
  skip_failing-fails :
      (names : List String) (i k : ℕ) (name : String)
      → get_elem? names k ≡ some name
      → k + i < skip_failing loads queue names i
      → loads name ≡ false
  unfolding skip_failing
  skip_failing-fails [] i k name e less = absurd (cc)
  skip_failing-fails (m ∷ ms) i zero name e less = ground arith
  skip_failing-fails (m ∷ ms) i (suc k) name e less = elim (Bool-cases (loads m)) [
    | inl fine ↦ absurd (ground arith)
    | inr fails ↦ skip_failing-fails ms (suc i) k name e (ground arith)
  ]

  skipped-IsDecided :
      (start i : ℕ) (name : String) (reviews : List (String × Decision))
      → ((j : ℕ) (m : String) → j < start → get_elem? queue j ≡ some m → IsDecided loads reviews m)
      → i < skip_failing loads queue (after start queue) start
      → get_elem? queue i ≡ some name
      → IsDecided loads reviews name
  skipped-IsDecided start i name reviews before less e = elim (Bool-cases (ltb i start)) [
    | inl early ↦ before i name (ground arith) e
    | inr late ↦
        let k = i - start in
        let at : k + start ≡ i = ground arith in
        let fails =
          skip_failing-fails (after start queue) start k name
            (get_elem?-after start k queue ∙ (ap (get_elem? queue) at ∙ e))
            (omega (arith, at, less)) in
        rw fails refl
  ]

  shown-IsUpToDate :
      (o : Option String) (i : ℕ) (s : Session)
      → get_elem? queue i ≡ o
      → ((j : ℕ) (m : String)
          → j < i
          → get_elem? queue j ≡ some m
          → IsDecided loads s.all_reviews m)
      → s.written ≡ s.all_reviews
      → IsUpToDate loads queue (shown loads queue o i s)
  shown-IsUpToDate none i s e d w = record { decided = d; on_disk = refl; at_end = λ _. e }
  shown-IsUpToDate (some name) i s e d w = record {
    decided = d;
    on_disk = w;
    at_end = λ k. absurd (cc);
  }

  show_from-IsUpToDate :
      (i : ℕ) (s : Session)
      → ((j : ℕ) (m : String)
          → j < i
          → get_elem? queue j ≡ some m
          → IsDecided loads s.all_reviews m)
      → s.written ≡ s.all_reviews
      → IsUpToDate loads queue (show_from loads queue i s)
  show_from-IsUpToDate i s d w =
      shown-IsUpToDate _ (skip_failing loads queue (after i queue) i) s refl
        (λ j m less e. skipped-IsDecided i j m s.all_reviews d less e) w

  -- A decision is not lost by a later one.
  later-IsDecided :
      (own name : String) (d : Decision) (reviews : List (String × Decision))
      → IsDecided loads reviews name
      → IsDecided loads ((own, d) ∷ reviews) name
  later-IsDecided own name d reviews h = ground arith

  decide-IsUpToDate :
      (d : Decision) (o : Option String) (s : Session)
      → get_elem? queue s.index ≡ o
      → IsUpToDate loads queue s
      → IsUpToDate loads queue (decide loads queue d o s)
  decide-IsUpToDate d none s e v = v
  decide-IsUpToDate d (some name) s e v =
      let reviews = (name, d) ∷ s.all_reviews in
      show_from-IsUpToDate (suc s.index) (record s { all_reviews = reviews; written = reviews })
        (λ j m less there. elim (Bool-cases (ltb j s.index)) [
          | inl before ↦ later-IsDecided name m d s.all_reviews (v.decided j m (ground arith) there)
          | inr at ↦
              let same : name ≡ m = ground (arith, e, there) in
              ground (arith, (eq_iff name m).1 same)
        ])
        refl

  on_key-IsUpToDate :
      (k : Key) (s : Session)
      → s.outcome ≡ showing
      → IsUpToDate loads queue s
      → IsUpToDate loads queue (on_key loads queue k s)
  on_key-IsUpToDate (decides d) s e v = decide-IsUpToDate d _ s refl v
  on_key-IsUpToDate back s e v =
      show_from-IsUpToDate (s.index - 1) s
        (λ j m less there. v.decided j m (omega (arith, less)) there) v.on_disk
  on_key-IsUpToDate quit s e v = record {
    decided = v.decided;
    on_disk = refl;
    at_end = λ k. absurd (cc);
  }
  on_key-IsUpToDate other s e v = v

  while_showing-IsUpToDate :
      (o : Outcome) (k : Key) (s : Session)
      → s.outcome ≡ o
      → IsUpToDate loads queue s
      → IsUpToDate loads queue (while_showing loads queue o k s)
  while_showing-IsUpToDate showing k s e v = on_key-IsUpToDate k s e v
  while_showing-IsUpToDate finished k s e v = v
  while_showing-IsUpToDate left k s e v = v

  run_keys-IsUpToDate :
      (ks : List Key) (s : Session)
      → IsUpToDate loads queue s
      → IsUpToDate loads queue (run_keys loads queue ks s)
  unfolding run_keys
  run_keys-IsUpToDate [] s v = v
  run_keys-IsUpToDate (k ∷ ks) s v =
      run_keys-IsUpToDate ks _ (while_showing-IsUpToDate s.outcome k s refl v)

  -- Once the review is at the end of its queue, whatever keys were pressed, every image of the queue
  -- whose image and label file load has a decision in the status file on the disk.
  pub review-IsDecided :
      (existing : List (String × Decision)) (ks : List Key) (i : ℕ) (name : String)
      → (review loads queue existing ks).outcome ≡ finished
      → get_elem? queue i ≡ some name
      → IsDecided loads (review loads queue existing ks).written name
  unfolding review
  review-IsDecided existing ks i name over there =
      let v = run_keys-IsUpToDate ks _ (
        show_from-IsUpToDate 0
          (record { all_reviews = existing; written = existing; index = 0; outcome = showing })
          (λ j m less e. absurd (omega (arith, less))) refl) in
      subst (λ r. IsDecided loads r name) (sym v.on_disk)
        (v.decided i name (get_elem?-none-later queue i _ name (v.at_end over) there) there)
