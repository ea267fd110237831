-- ===== src/Vision/Service/Status.antt =====
-- The method `status` of host/vision/vision_service.py, with `Detection.status` of
-- host/vision/detector.py: a record for each dictionary.
use mousinator.Prelude.{
  ◌≡◌, String, Bool, true, false, Option, none, some, List, [], map, ℤ, is_some, ap,
}
use mousinator.Prelude.Floats.{Floats}
use mousinator.Prelude.Exec.{ok}
use mousinator.Vision.Detection.{Detection, center_x, center_y}
use mousinator.Vision.Tracking.{TrackingState, searching}
use mousinator.Vision.Service.{Config, VisionState, vision_service, get_tracking_state}
use mousinator.Vision.Service.Invariant.{IsCoherent}
use mousinator.Vision.Service.System.{Event, run}
use mousinator.Vision.Service.Enabling.{new_system, always-IsValid}

pub record BoundingBox (F : Type 0) : Type 0 where
  pub x1 : F
  pub y1 : F
  pub x2 : F
  pub y2 : F

pub record Centre (F : Type 0) : Type 0 where
  pub x : F
  pub y : F

pub record DetectionStatus (F : Type 0) : Type 0 where
  pub class_id : ℤ
  pub class_name : String
  pub confidence : F
  pub bbox : BoundingBox F
  pub center : Centre F
  pub tracking_id : Option ℤ

pub record VisionStatus (F : Type 0) : Type 0 where
  pub vision_enabled : Bool
  pub vision_ready : Bool
  pub vision_model : Option String
  pub target_class : String
  pub confidence_threshold : F
  pub inference_size : ℤ
  pub detection_fps_limit : F
  pub dead_zone_x : F
  pub dead_zone_y : F
  pub vision_error : Option String
  pub tracking_state : TrackingState
  pub target_detected : Bool
  pub target_confidence : Option F
  pub target_bbox : Option (BoundingBox F)
  pub target_center : Option (Centre F)
  pub pan_error : Option F
  pub tilt_error : Option F
  pub pan_centered : Bool
  pub tilt_centered : Bool
  pub is_locked : Bool
  pub detections : List (DetectionStatus F)
  pub vision_frame_width : Option ℤ
  pub vision_frame_height : Option ℤ
  pub inference_ms : Option F
  pub detection_fps : F

-- `None if target is None else f(target)`
abbrev pub of_target : {A B : Type 0} → (A → B) → Option A → Option B
of_target f none = none
of_target f (some d) = some (f d)

module _ {F : Type 0} ⦃fl : Floats F⦄ where
  abbrev pub box_of : Detection F → BoundingBox F
  box_of d = record { x1 = d.x1; y1 = d.y1; x2 = d.x2; y2 = d.y2 }

  abbrev pub centre_of : Detection F → Centre F
  unfolding center_x center_y
  centre_of d = record { x = center_x d; y = center_y d }

  unfoldable pub detection_status : Detection F → DetectionStatus F
  detection_status d = record {
    class_id = d.class_id;
    class_name = d.class_name;
    confidence = d.confidence;
    bbox = box_of d;
    center = centre_of d;
    tracking_id = d.tracking_id;
  }

module _ {F D : Type 0} ⦃fl : Floats F⦄ (c : Config F) where
  unfoldable pub vision_status : VisionState F D → VisionStatus F
  unfolding detection_status get_tracking_state
  vision_status s =
      let snapshot = get_tracking_state s in
      record {
        vision_enabled = s.enabled;
        vision_ready = is_some s.detector;
        vision_model = c.model_path;
        target_class = c.target_class;
        confidence_threshold = c.confidence;
        inference_size = c.inference_size;
        detection_fps_limit = c.detection_fps_limit;
        dead_zone_x = s.tracking.dead_zone_x;
        dead_zone_y = s.tracking.dead_zone_y;
        vision_error = s.vision_error;
        tracking_state = snapshot.state;
        target_detected = is_some snapshot.target;
        target_confidence = of_target (λ d. d.confidence) snapshot.target;
        target_bbox = of_target box_of snapshot.target;
        target_center = of_target centre_of snapshot.target;
        pan_error = snapshot.pan_error;
        tilt_error = snapshot.tilt_error;
        pan_centered = snapshot.pan_centered;
        tilt_centered = snapshot.tilt_centered;
        is_locked = snapshot.is_locked;
        detections = map detection_status snapshot.detections;
        vision_frame_width = snapshot.frame_width;
        vision_frame_height = snapshot.frame_height;
        inference_ms = s.inference_ms;
        detection_fps = s.actual_detection_fps;
      }

-- A status that a consumer may act on: one that is not enabled reports no target at all, and one
-- that is enabled is ready.
pub record IsSafe {F : Type 0} (st : VisionStatus F) : Type 0 where
  pub searches : st.vision_enabled ≡ false → st.tracking_state ≡ searching
  pub sees_nothing : st.vision_enabled ≡ false → st.target_detected ≡ false
  pub points_nowhere :
      st.vision_enabled ≡ false
      → (st.target_bbox ≡ none)
        × (st.target_center ≡ none)
        × (st.pan_error ≡ none)
        × (st.tilt_error ≡ none)
  pub lists_nothing : st.vision_enabled ≡ false → st.detections ≡ []
  pub is_not_locked : st.vision_enabled ≡ false → st.is_locked ≡ false
  pub ready : st.vision_enabled ≡ true → st.vision_ready ≡ true

module _ {F D : Type 0} ⦃fl : Floats F⦄ where
  coherent-IsSafe : (c : Config F) (s : VisionState F D) → IsCoherent s → IsSafe (vision_status c s)
  unfolding vision_status get_tracking_state
  coherent-IsSafe c s v = record {
    searches = λ h. ap (λ t. t.state) (v.quiet h);
    sees_nothing = λ h. ap (λ t. is_some t.target) (v.quiet h);
    points_nowhere = λ h. (
      ap (λ t. of_target box_of t.target) (v.quiet h),
      ap (λ t. of_target centre_of t.target) (v.quiet h),
      ap (λ t. t.pan_error) (v.quiet h),
      ap (λ t. t.tilt_error) (v.quiet h),
    );
    lists_nothing = λ h. ap (λ t. map detection_status t.detections) (v.quiet h);
    is_not_locked = λ h. ap (λ t. t.is_locked) (v.quiet h);
    ready = v.armed;
  }

  -- Whatever the constructor accepts and in whichever order the threads run, a status that says the
  -- vision is not enabled reports no target, no detections, no errors to centre and no lock, and one
  -- that says it is enabled says that it is ready.
  pub vision_status-IsSafe :
      (path : Option String) (class : String) (confidence fps : F) (size : ℤ) (zx zy : F)
      (c : Config F) (s : VisionState F D) (es : List (Event F D))
      → vision_service path class confidence fps size zx zy ≡ ok (c, s)
      → IsSafe (vision_status c (run c (new_system s) es).service)
  vision_status-IsSafe path class confidence fps size zx zy c s es h =
      coherent-IsSafe c (run c (new_system s) es).service
        (always-IsValid path class confidence fps size zx zy c s es h).coherent
