-- ===== src/Vision/Tracking/History.antt =====
-- The state that `TrackingStateMachine` reports, as a function of the frames seen so far.
use mousinator.Prelude.{
  ◌≡◌, refl, Bool, true, false, ◌&&◌, Option, none, some, List, [], ◌∷◌, ◌++◌, ℤ, pos, ◌≤ℤ◌, arith,
  is_some,
}
use mousinator.Prelude.Floats.{Floats}
use mousinator.Prelude.Exec.{ok}
use mousinator.Vision.Detection.{Detection, center_x, center_y}
use mousinator.Vision.Tracking.{
  detected, tracking, locked, TrackingSnapshot, TrackingStateMachine, centre_error, target_snapshot,
  update, reset,
}

-- What the service does with the machine: it resets it, or gives it a frame.
pub data Event (F : Type 0) : Type 0 where
  restart : Event F
  frame : List (Detection F) → Option (Detection F) → ℤ → ℤ → Event F

module _ {F : Type 0} ⦃fl : Floats F⦄ where
  -- The machine after an event; an exception leaves what was written.
  unfoldable pub step : TrackingStateMachine F → Event F → TrackingStateMachine F
  unfolding reset update
  step m restart = (reset m).1
  step m (frame ds t w h) = (update ds t w h m).1

  unfoldable pub run : TrackingStateMachine F → List (Event F) → TrackingStateMachine F
  unfolding step
  run m [] = m
  run m (e ∷ es) = run (step m e) es

  -- The frames that `update` accepts.
  abbrev pub IsFrame : Event F → Type 0
  IsFrame restart = Unit
  IsFrame (frame ds t w h) = (pos 1 ≤ℤ w) × (pos 1 ≤ℤ h)

  -- Whether the last event was a frame with a target.
  abbrev pub seen : Event F → Bool
  seen restart = false
  seen (frame ds t w h) = is_some t

  run-append :
      (m : TrackingStateMachine F) (es fs : List (Event F)) → run m (es ++ fs) ≡ run (run m es) fs
  unfolding run
  run-append m [] fs = refl
  run-append m (e ∷ es) fs = run-append (step m e) es fs

  step-seen :
      (m : TrackingStateMachine F) (e : Event F)
      → IsFrame e
      → (step m e).target_was_present ≡ seen e
  unfolding step
  step-seen m restart h = refl
  step-seen m (frame ds none w h) v = ground arith
  step-seen m (frame ds (some t) w h) v = ground arith

  step_keeps_zones :
      (m : TrackingStateMachine F) (e : Event F)
      → ((step m e).dead_zone_x ≡ m.dead_zone_x) × ((step m e).dead_zone_y ≡ m.dead_zone_y)
  unfolding step
  step_keeps_zones m restart = (refl, refl)
  step_keeps_zones m (frame ds none w h) = ground arith
  step_keeps_zones m (frame ds (some t) w h) = ground arith

  run_keeps_zones :
      (m : TrackingStateMachine F) (es : List (Event F))
      → ((run m es).dead_zone_x ≡ m.dead_zone_x) × ((run m es).dead_zone_y ≡ m.dead_zone_y)
  unfolding run
  run_keeps_zones m [] = (refl, refl)
  run_keeps_zones m (e ∷ es) = ground (arith, step_keeps_zones m e, run_keeps_zones (step m e) es)

  -- Both errors of `t` lie in the dead zones of `m`.
  abbrev pub is_centred : TrackingStateMachine F → Detection F → ℤ → ℤ → Bool
  is_centred m t w h =
      fl.le (fl.abs (centre_error (center_x t) w)) m.dead_zone_x
      && fl.le (fl.abs (centre_error (center_y t) h)) m.dead_zone_y

  -- What is reported of a frame with the target `t`, where `was_seen` tells whether there was one
  -- just before.
  pub record Reports (m : TrackingStateMachine F) (was_seen : Bool) (ds : List (Detection F))
      (t : Detection F) (w h : ℤ) (s : TrackingSnapshot F) : Type 0 where
    pub shows : s.target ≡ some t
    pub lists : s.detections ≡ ds
    pub first : was_seen ≡ false → s.state ≡ detected
    pub centred : was_seen ≡ true → is_centred m t w h ≡ true → s.state ≡ locked
    pub off : was_seen ≡ true → is_centred m t w h ≡ false → s.state ≡ tracking

  update-Reports :
      (m n : TrackingStateMachine F) (ds : List (Detection F)) (t : Detection F) (w h : ℤ)
      → IsFrame (frame ds (some t) w h)
      → n.dead_zone_x ≡ m.dead_zone_x
      → n.dead_zone_y ≡ m.dead_zone_y
      → (s : TrackingSnapshot F) × ((update ds (some t) w h n).0 ≡ ok s)
        × Reports m n.target_was_present ds t w h s
  unfolding update
  update-Reports m n ds t w h v p q = (
    target_snapshot n ds t w h,
    ground arith,
    record {
      shows = refl;
      lists = refl;
      first = λ e. ground arith;
      centred = λ e c. ground arith;
      off = λ e c. ground arith;
    },
  )

  -- After any events that end with `e`, a frame with a target is reported with that target: as
  -- DETECTED if `e` was a reset or a frame with no target, else as LOCKED if both errors lie in the
  -- dead zones of the machine that the events began with, else as TRACKING.
  pub update_history :
      (m : TrackingStateMachine F) (es : List (Event F)) (e : Event F) (ds : List (Detection F))
      (t : Detection F) (w h : ℤ)
      → IsFrame e
      → IsFrame (frame ds (some t) w h)
      → (s : TrackingSnapshot F) × ((update ds (some t) w h (run m (es ++ e ∷ []))).0 ≡ ok s)
        × Reports m (seen e) ds t w h s
  unfolding run
  update_history m es e ds t w h last valid =
      rw (run-append m es (e ∷ []), ← step-seen (run m es) e last)
        (update-Reports m (step (run m es) e) ds t w h valid
          (ground (arith, step_keeps_zones (run m es) e, run_keeps_zones m es))
          (ground (arith, step_keeps_zones (run m es) e, run_keeps_zones m es)))
