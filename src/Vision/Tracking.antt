-- ===== src/Vision/Tracking.antt =====
-- The tracking state machine of host/vision/tracking_state.py.
pub mod History
use mousinator.Prelude.{
  Bool, true, false, ◌&&◌, ◌||◌, not, Option, none, some, List, [], ℤ, pos, leb_ℤ, if◌then◌else◌,
}
use mousinator.Prelude.Floats.{Floats, in_unit_range}
use mousinator.Prelude.Exec.{Exn, value_error, Result, ok, err, Exec, pure, raise, raise_if, ◌>>◌}
use mousinator.Vision.Detection.{Detection, center_x, center_y}

pub data TrackingState : Type 0 where
  searching detected tracking locked : TrackingState

abbrev pub same_state : TrackingState → TrackingState → Bool
same_state searching searching = true
same_state detected detected = true
same_state tracking tracking = true
same_state locked locked = true
same_state _ _ = false

pub record TrackingSnapshot (F : Type 0) : Type 0 where
  pub state : TrackingState
  pub detections : List (Detection F)
  pub target : Option (Detection F)
  pub frame_width : Option ℤ
  pub frame_height : Option ℤ
  pub pan_error : Option F
  pub tilt_error : Option F
  pub pan_centered : Bool
  pub tilt_centered : Bool
  pub is_locked : Bool

-- `TrackingSnapshot.searching()`
abbrev pub searching_snapshot : {F : Type 0} → TrackingSnapshot F
searching_snapshot = record {
  state = searching;
  detections = [];
  target = none;
  frame_width = none;
  frame_height = none;
  pan_error = none;
  tilt_error = none;
  pan_centered = false;
  tilt_centered = false;
  is_locked = false;
}

pub record TrackingStateMachine (F : Type 0) : Type 0 where
  pub dead_zone_x : F
  pub dead_zone_y : F
  pub target_was_present : Bool

-- The state of a frame with a target.
abbrev pub present_state : Bool → Bool → TrackingState
present_state was_present is_locked =
    if not was_present then detected else if is_locked then locked else tracking

module _ {F : Type 0} ⦃fl : Floats F⦄ where
  -- The constructor.
  unfoldable pub tracking_state_machine : F → F → Result (TrackingStateMachine F)
  tracking_state_machine x y =
      if not (in_unit_range x)
      then err (record { kind = value_error; message = "dead-zone x must be in the range 0..1" })
      else if not (in_unit_range y)
      then err (record { kind = value_error; message = "dead-zone y must be in the range 0..1" })
      else ok (record { dead_zone_x = x; dead_zone_y = y; target_was_present = false })

  -- The error of a coordinate from the centre of a side, as a fraction of half the side.
  abbrev pub centre_error : F → ℤ → F
  centre_error c side =
      let half : F = fl.div (fl.of_int side) (fl.literal 2 1) in fl.div (fl.sub c half) half

  -- The snapshot of a frame with no target.
  abbrev pub lost_snapshot : ℤ → ℤ → TrackingSnapshot F
  lost_snapshot width height = record searching_snapshot {
    frame_width = some width;
    frame_height = some height;
  }

  abbrev pub target_snapshot :
      TrackingStateMachine F → List (Detection F) → Detection F → ℤ → ℤ → TrackingSnapshot F
  target_snapshot m detections target width height =
      let pan = centre_error (center_x target) width in
      let tilt = centre_error (center_y target) height in
      let pan_in = fl.le (fl.abs pan) m.dead_zone_x in
      let tilt_in = fl.le (fl.abs tilt) m.dead_zone_y in
      record {
        state = present_state m.target_was_present (pan_in && tilt_in);
        detections = detections;
        target = some target;
        frame_width = some width;
        frame_height = some height;
        pan_error = some pan;
        tilt_error = some tilt;
        pan_centered = pan_in;
        tilt_centered = tilt_in;
        is_locked = pan_in && tilt_in;
      }

  abbrev track :
      List (Detection F)
      → Option (Detection F)
      → ℤ
      → ℤ
      → Exec (TrackingStateMachine F) (TrackingSnapshot F)
  track detections none width height m =
      (ok (lost_snapshot width height), record m { target_was_present = false })
  track detections (some target) width height m = (
    ok (target_snapshot m detections target width height),
    record m { target_was_present = true },
  )

  -- The method `reset`.
  unfoldable pub reset : TrackingStateMachine F → TrackingSnapshot F × TrackingStateMachine F
  reset m = (searching_snapshot, record m { target_was_present = false })

  -- The method `update`.
  unfoldable pub update :
      List (Detection F)
      → Option (Detection F)
      → ℤ
      → ℤ
      → Exec (TrackingStateMachine F) (TrackingSnapshot F)
  update detections target width height =
      raise_if (leb_ℤ width (pos 0) || leb_ℤ height (pos 0))
        (record { kind = value_error; message = "tracking frame dimensions must be positive" })
      >> track detections target width height
