-- ===== src/Vision/Service/Worker.antt =====
-- The worker thread of host/vision/vision_service.py: the sections of its loop under the state
-- lock, in the order of `_worker`.
use mousinator.Prelude.{
  ℕ, String, false, ◌||◌, not, Option, none, some, List, [], ◌∷◌, ◌++◌, ℤ, eqb, if◌then◌else◌,
}
use mousinator.Prelude.Floats.{Floats}
use mousinator.Prelude.Exec.{Result, ok, err, Exec}
use mousinator.Vision.Detection.{Detection}
use mousinator.Vision.Selector.{select}
use mousinator.Vision.Tracking.{
  TrackingState, same_state, TrackingSnapshot, TrackingStateMachine, update,
}
use mousinator.Vision.Service.{Config, VisionState, new_generation, zero_float}

-- What the top of the loop finds once its wait is over: the end of the thread, or a cycle with the
-- generation and the detector that it goes on with. It waits while neither flag is set.
pub data Wake (D : Type 0) : Type 0 where
  waits : Wake D
  ends : Wake D
  cycle : ℕ → Option D → Wake D

-- The messages that `_log_tracking_transition` writes.
pub data LogLine (F : Type 0) : Type 0 where
  target_acquired : String → F → LogLine F
  target_lost : LogLine F
  state_changed : TrackingState → TrackingState → LogLine F

module _ {F : Type 0} where
  abbrev target_lines : Option (Detection F) → Option (Detection F) → List (LogLine F)
  target_lines none (some d) = target_acquired d.class_name d.confidence ∷ []
  target_lines (some d) none = target_lost ∷ []
  target_lines _ _ = []

  unfoldable pub log_tracking_transition :
      TrackingSnapshot F → TrackingSnapshot F → List (LogLine F)
  log_tracking_transition previous current =
      target_lines previous.target current.target
      ++ (if same_state previous.state current.state
          then []
          else state_changed previous.state current.state ∷ [])

module _ {F : Type 0} ⦃fl : Floats F⦄ where
  -- The rate after a completion at the time `completed`, the one before it at `last`.
  unfoldable pub detection_fps : F → Option F → F → F
  detection_fps fps none completed = fps
  detection_fps fps (some last) completed =
      let interval = fl.sub completed last in
      let instantaneous = fl.div (fl.literal 1 1) interval in
      if not (fl.lt zero_float interval)
      then fps
      else if fl.eq fps zero_float
      then instantaneous
      else fl.add (fl.mul (fl.literal 8 10) fps) (fl.mul (fl.literal 2 10) instantaneous)

module _ {F D : Type 0} ⦃fl : Floats F⦄ where
  unfoldable pub wake : VisionState F D → Wake D
  wake s =
      if s.is_shutdown then ends else if s.enabled then cycle s.generation s.detector else waits

  unfoldable pub fail_active_generation : ℕ → String → VisionState F D → VisionState F D
  unfolding new_generation
  fail_active_generation generation error s =
      if not (eqb generation s.generation) || not s.enabled
      then s
      else record (new_generation (record s { enabled = false })) { vision_error = some error }

  unfoldable pub update_detection_fps : F → VisionState F D → VisionState F D
  unfolding detection_fps
  update_detection_fps completed s = record s {
    actual_detection_fps = detection_fps s.actual_detection_fps s.last_completion_time completed;
    last_completion_time = some completed;
  }

  abbrev published :
      F
      → F
      → VisionState F D
      → Result (TrackingSnapshot F) × TrackingStateMachine F
      → Result (List (LogLine F)) × VisionState F D
  published inference_ms completed s (err e, m) = (err e, record s { tracking = m })
  published inference_ms completed s (ok snap, m) = (
    ok (log_tracking_transition s.snapshot snap),
    update_detection_fps completed
        (record s { tracking = m; snapshot = snap; inference_ms = some inference_ms }),
  )

  -- The section behind an inference: a cycle of an older generation is dropped. It returns what is
  -- logged; an exception of `update` ends the thread.
  unfoldable pub publish :
      Config F → ℕ → List (Detection F) → ℤ → ℤ → F → F → Exec (VisionState F D) (List (LogLine F))
  unfolding log_tracking_transition update_detection_fps update
  publish c generation detections width height inference_ms completed s =
      if s.is_shutdown || not s.enabled || not (eqb generation s.generation)
      then (ok [], s)
      else published inference_ms completed s
          (update detections (select c.selector detections) width height s.tracking)
