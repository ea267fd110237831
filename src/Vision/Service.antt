-- ===== src/Vision/Service.antt =====
-- The vision worker of host/vision/vision_service.py: its state, and each section that runs under
-- the state lock as one function. A detector is an object of the type `D`, made by the factory.
pub mod Loading
pub mod Worker
pub mod System
pub mod Invariant
pub mod Steps
pub mod Staleness
pub mod Enabling
pub mod Status
use mousinator.Prelude.{
  ℕ, ◌+◌, Done, String, Bool, true, false, ◌&&◌, ◌||◌, not, Option, none, some, List, ℤ, pos, leb_ℤ,
  eqb, is_some, if◌then◌else◌, ◌==◌,
}
use mousinator.Prelude.Floats.{Floats, in_unit_range}
use mousinator.Prelude.Exec.{
  Kind, value_error, runtime_error, detector_configuration, detector_initialization,
  vision_configuration, vision_initialization, Exn, Result, ok, err, Exec, pure, raise, gets,
  modify, raise_if, ◌>>=◌, ◌>>◌,
}
use mousinator.Vision.Detection.{Detection}
use mousinator.Vision.Selector.{TargetSelector, target_selector, select}
use mousinator.Vision.Tracking.{
  TrackingSnapshot, searching_snapshot, TrackingStateMachine, tracking_state_machine, reset, update,
}

-- What the constructor is given and never changes; the model path is that of `--model`.
pub record Config (F : Type 0) : Type 0 where
  pub model_path : Option String
  pub target_class : String
  pub confidence : F
  pub detection_fps_limit : F
  pub inference_size : ℤ
  pub selector : TargetSelector F

pub record VisionState (F D : Type 0) : Type 0 where
  pub tracking : TrackingStateMachine F
  pub has_thread : Bool
  pub detector : Option D
  pub enabled : Bool
  pub is_shutdown : Bool
  pub generation : ℕ
  pub snapshot : TrackingSnapshot F
  pub vision_error : Option String
  pub inference_ms : Option F
  pub actual_detection_fps : F
  pub last_completion_time : Option F

abbrev pub closed_error : Exn
closed_error = record { kind = vision_initialization; message = "vision service has been closed" }

-- `0.0`
abbrev pub zero_float : {F : Type 0} ⦃fl : Floats F⦄ → F
zero_float ⦃fl⦄ = fl.literal 0 1

module _ {F D : Type 0} ⦃fl : Floats F⦄ where
  -- The attributes that the constructor sets besides its arguments.
  abbrev pub initial_state : TrackingStateMachine F → VisionState F D
  initial_state m = record {
    tracking = m;
    has_thread = false;
    detector = none;
    enabled = false;
    is_shutdown = false;
    generation = 0;
    snapshot = searching_snapshot;
    vision_error = none;
    inference_ms = none;
    actual_detection_fps = zero_float;
    last_completion_time = none;
  }

  abbrev pub configured :
      (TargetSelector F → Config F)
      → Result (TrackingStateMachine F)
      → Result (TargetSelector F)
      → Result (Config F × VisionState F D)
  configured config (err e) s = err e
  configured config (ok m) (err e) = err e
  configured config (ok m) (ok s) = ok (config s, initial_state m)

  abbrev invalid : String → Result (Config F × VisionState F D)
  invalid m = err (record { kind = value_error; message = m })

  -- The constructor: its checks, in order, and the state that it leaves.
  unfoldable pub vision_service :
      Option String → String → F → F → ℤ → F → F → Result (Config F × VisionState F D)
  unfolding target_selector tracking_state_machine
  vision_service path class confidence fps size zone_x zone_y =
      if class == ""
      then invalid "target class must not be empty"
      else if not (in_unit_range confidence)
      then invalid "confidence must be in the range 0..1"
      else if fl.le fps zero_float
      then invalid "detection FPS must be positive"
      else if leb_ℤ size (pos 0)
      then invalid "inference size must be positive"
      else configured
          (λ s. record {
            model_path = path;
            target_class = class;
            confidence = confidence;
            detection_fps_limit = fps;
            inference_size = size;
            selector = s;
          })
          (tracking_state_machine zone_x zone_y) (target_selector class confidence)

  -- `self._generation += 1` and `self._snapshot = self._tracking.reset()`.
  unfoldable pub new_generation : VisionState F D → VisionState F D
  unfolding reset
  new_generation s =
      let (snap, m) = reset s.tracking in
      record s { generation = s.generation + 1; tracking = m; snapshot = snap }

  -- `start`; a second call does nothing.
  unfoldable pub start : Exec (VisionState F D) Done
  start s =
      if s.has_thread
      then (ok tt, s)
      else if s.is_shutdown
      then (err (record { kind = runtime_error; message = "vision service has been closed" }), s)
      else (ok tt, record s { has_thread = true })

  -- The first section of `enable`: the generation of the request, or nothing if already enabled.
  unfoldable pub request_enable : Exec (VisionState F D) (Option ℕ)
  request_enable s =
      if s.is_shutdown
      then (err closed_error, s)
      else if s.enabled
      then (ok none, s)
      else (ok (some s.generation), s)

  -- The second section of `enable`.
  unfoldable pub commit_enable : ℕ → Exec (VisionState F D) Bool
  unfolding new_generation
  commit_enable request_generation s =
      if s.is_shutdown
      then (err closed_error, s)
      else if s.enabled
      then (ok false, s)
      else if not (eqb s.generation request_generation)
      then (ok false, s)
      else (
        ok true,
        record (new_generation s) {
          enabled = true;
          vision_error = none;
          inference_ms = none;
          actual_detection_fps = zero_float;
          last_completion_time = none;
        },
      )

  unfoldable pub disable : Exec (VisionState F D) Bool
  unfolding new_generation
  disable s = (ok s.enabled, new_generation (record s { enabled = false }))

  -- `close`, up to the join of the worker.
  unfoldable pub close : VisionState F D → VisionState F D
  unfolding new_generation
  close s =
      if s.is_shutdown then s else new_generation (record s { is_shutdown = true; enabled = false })

  unfoldable pub get_tracking_state : VisionState F D → TrackingSnapshot F
  get_tracking_state s = s.snapshot
