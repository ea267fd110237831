-- ===== src/Vision/Service/Enabling.antt =====
-- What `enable` does on every path, and that the constructor establishes the invariant.
use mousinator.Prelude.{
  ◌+◌, ◌≡◌, ◌⊎◌, inl, inr, String, Bool, true, false, Option, none, some, List, [], ℤ, arith,
  is_some, Option-cases, Bool-cases, pos, leb_ℤ, not, ◌==◌,
}
use mousinator.Prelude.Floats.{Floats, in_unit_range}
use mousinator.Prelude.Exec.{
  vision_configuration, vision_initialization, Exn, Result, ok, err, Result-cases, if_err-eq-ok,
}
use mousinator.Vision.Tracking.{searching_snapshot, TrackingStateMachine, tracking_state_machine}
use mousinator.Vision.Selector.{TargetSelector, target_selector}
use mousinator.Vision.Service.{Config, VisionState, zero_float, vision_service, configured}
use mousinator.Vision.Service.Loading.{Factory, translate, validated, load_detector, enable}
use mousinator.Vision.Service.Invariant.{IsCoherent, IsValid}
use mousinator.Vision.Service.System.{System, looping, Event, run}
use mousinator.Vision.Service.Steps.{run-IsValid}

-- The exceptions that `enable` documents.
abbrev pub IsVisionError : Exn → Type 0
IsVisionError e = (e.kind ≡ vision_configuration) ⊎ (e.kind ≡ vision_initialization)

translate-IsVisionError : (e : Exn) → IsVisionError (translate e)
unfolding translate
translate-IsVisionError e = ground arith

module _ {F D : Type 0} ⦃fl : Floats F⦄ (factory : Factory F D) (c : Config F) where
  validated-IsVisionError :
      (r : Result D) (e : Exn) → validated factory c r ≡ err e → IsVisionError e
  validated-IsVisionError (err x) e h = ground (arith, translate-IsVisionError x)
  validated-IsVisionError (ok d) e h =
      elim (Result-cases (factory.validate_target_class d c.target_class)) [
        | inl (u, fits) ↦ ground arith
        | inr (x, refused) ↦ ground (arith, translate-IsVisionError x)
      ]

  load-IsVisionError : (e : Exn) → load_detector factory c ≡ err e → IsVisionError e
  unfolding load_detector
  load-IsVisionError e h = elim (Option-cases c.model_path) [
    | inl missing ↦ ground arith
    | inr (path, given) ↦
        ground (arith, validated-IsVisionError (factory.make path c.confidence c.inference_size) e)
  ]

  -- What a call of `enable` that began at `s` has done, by how it ended.
  abbrev pub Enables : VisionState F D → Result Bool × VisionState F D → Type 0
  Enables s (ok true, t) =
      (s.enabled ≡ false)
      × (t.enabled ≡ true)
      × (is_some t.detector ≡ true)
      × (t.generation ≡ s.generation + 1)
      × (t.snapshot ≡ searching_snapshot)
      × (t.vision_error ≡ none)
  Enables s (ok false, t) = (s.enabled ≡ true) × (t ≡ s)
  Enables s (err e, t) =
      (s.enabled ≡ false)
      × IsVisionError e
      × ((t ≡ s) ⊎ (t ≡ record s { vision_error = some e.message }))

  -- `enable` with no other thread in between: it returns True with a detector, a new generation and
  -- a clean snapshot and error; or False if it was enabled, and changes nothing; or it raises one of
  -- the two vision errors, and at most the error message changes.
  pub enable_lem : (s : VisionState F D) → IsCoherent s → Enables s (enable factory c s)
  unfolding enable
  enable_lem s v = elim (Bool-cases s.is_shutdown) [
    | inl closed ↦ ground arith
    | inr open_now ↦ elim (Bool-cases s.enabled) [
      | inl on ↦ ground arith
      | inr off ↦ elim (Option-cases s.detector) [
        | inr (d, full) ↦ ground arith
        | inl empty ↦ elim (Result-cases (load_detector factory c)) [
          | inl (d, made) ↦ ground arith
          | inr (e, failed) ↦ ground (arith, load-IsVisionError e failed)
        ]
      ]
    ]
  ]

module _ {F D : Type 0} ⦃fl : Floats F⦄ where
  -- The service behind its constructor, with no thread yet.
  abbrev pub new_system : VisionState F D → System F D
  new_system s = record { service = s; worker = looping; callers = [] }

  configured-IsCoherent :
      (config : TargetSelector F → Config F) (m : Result (TrackingStateMachine F))
      (t : Result (TargetSelector F)) (c : Config F) (s : VisionState F D)
      → configured config m t ≡ ok (c, s)
      → IsCoherent s
  configured-IsCoherent config (err e) t c s h = absurd (cc)
  configured-IsCoherent config (ok m) (err e) c s h = absurd (cc)
  configured-IsCoherent config (ok m) (ok t) c s h = ground arith

  vision_service-IsCoherent :
      (path : Option String) (class : String) (confidence fps : F) (size : ℤ) (zx zy : F)
      (c : Config F) (s : VisionState F D)
      → vision_service path class confidence fps size zx zy ≡ ok (c, s)
      → IsCoherent s
  unfolding vision_service
  vision_service-IsCoherent path class confidence fps size zx zy c s h =
      configured-IsCoherent _ (tracking_state_machine zx zy) (target_selector class confidence) c s
        (if_err-eq-ok (leb_ℤ size (pos 0)) _ _ (
          if_err-eq-ok (fl.le fps zero_float) _ _
            (if_err-eq-ok (not (in_unit_range confidence)) _ _ (if_err-eq-ok (class == "") _ _ h))))

  -- Whatever the constructor accepts and in whichever order the threads run: a service that is not
  -- enabled shows no target, an enabled one has a detector, a closed one is not enabled, the worker
  -- never runs a cycle without a detector, and nobody holds a generation of the future.
  pub always-IsValid :
      (path : Option String) (class : String) (confidence fps : F) (size : ℤ) (zx zy : F)
      (c : Config F) (s : VisionState F D) (es : List (Event F D))
      → vision_service path class confidence fps size zx zy ≡ ok (c, s)
      → IsValid (run c (new_system s) es)
  always-IsValid path class confidence fps size zx zy c s es h =
      run-IsValid c (new_system s) es (record {
        coherent = vision_service-IsCoherent path class confidence fps size zx zy c s h;
        callers_fit = tt;
        worker_fits = tt;
      })
