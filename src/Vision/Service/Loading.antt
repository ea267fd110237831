-- ===== src/Vision/Service/Loading.antt =====
-- The loading of the detector: `_ensure_detector` and the whole of `enable`.
use Prim.Native.String.{◌++◌}
use mousinator.Prelude.{ℕ, Done, String, Bool, false, Option, none, some, ℤ}
use mousinator.Prelude.Floats.{Floats}
use mousinator.Prelude.Exec.{
  detector_configuration, detector_initialization, vision_configuration, vision_initialization, Exn,
  Result, ok, err, Exec, pure, ◌>>=◌, ◌>>◌,
}
use mousinator.Vision.Service.{Config, VisionState, request_enable, commit_enable}

-- What the worker uses of the code that makes detectors: the factory, and `validate_target_class`.
pub record Factory (F D : Type 0) : Type 0 where
  pub make : String → F → ℤ → Result D
  pub validate_target_class : D → String → Result Done

-- The exception that leaves `_ensure_detector` for one that the factory or the validation raised.
unfoldable pub translate : Exn → Exn
translate e = elim e.kind [
  | detector_configuration ↦ record { kind = vision_configuration; message = e.message }
  | detector_initialization ↦ record { kind = vision_initialization; message = e.message }
  | _ ↦ record {
    kind = vision_initialization;
    message = "vision model initialization failed: " ++ e.message;
  }
]

module _ {F D : Type 0} ⦃fl : Floats F⦄ (factory : Factory F D) (c : Config F) where
  abbrev pub validated : Result D → Result D
  validated (err e) = err (translate e)
  validated (ok d) = elim (factory.validate_target_class d c.target_class) [
    | ok _ ↦ ok d
    | err e ↦ err (translate e)
  ]

  -- The part of `_ensure_detector` between its two sections: it holds only the model lock.
  unfoldable pub load_detector : Result D
  load_detector = elim c.model_path [
    | none ↦ err (record {
      kind = vision_configuration;
      message = "no YOLO model configured; pass --model PATH";
    })
    | some path ↦ validated (factory.make path c.confidence c.inference_size)
  ]

-- The last section of `_ensure_detector`, or `_set_error` and the raise.
unfoldable pub finish_load : {F D : Type 0} → Result D → Exec (VisionState F D) Done
finish_load (ok d) s = (ok tt, record s { detector = some d; vision_error = none })
finish_load (err e) s = (err e, record s { vision_error = some e.message })

module _ {F D : Type 0} ⦃fl : Floats F⦄ (factory : Factory F D) (c : Config F) where
  unfoldable pub ensure_detector : Exec (VisionState F D) Done
  unfolding finish_load
  ensure_detector s = elim s.detector [
    | some _ ↦ (ok tt, s)
    | none ↦ finish_load (load_detector factory c) s
  ]

  abbrev pub enable_requested : Option ℕ → Exec (VisionState F D) Bool
  enable_requested none = pure false
  enable_requested (some g) = do ensure_detector; commit_enable g

  -- `enable` with no other thread in between.
  unfoldable pub enable : Exec (VisionState F D) Bool
  unfolding ensure_detector request_enable commit_enable
  enable = do request ← request_enable; enable_requested request
