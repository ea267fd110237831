-- ===== src/Camera/Service/Capturing.antt =====
-- What `capture` of host/camera/camera_service.py does to the service.
use mousinator.Prelude.{◌≡◌, true, false, ◌&&◌, not, none, arith}
use mousinator.Prelude.Exec.{camera_unavailable, Result, ok, err}
use mousinator.Camera.Service.{CameraBackend, Media, CameraService, raised, CaptureMode, capture}

-- What a capture that ended with `r` has done to the service.
pub record OnlyCaptures {P R W : Type 0} (s : CameraService P W) (r : Result R)
    (t : CameraService P W) : Type 0 where
  pub camera_running : t.camera_running ≡ s.camera_running
  pub recording : t.recording ≡ s.recording
  pub recording_path : t.recording_path ≡ s.recording_path
  pub dataset_enabled : t.dataset_enabled ≡ s.dataset_enabled
  pub shutdown : t.shutdown ≡ s.shutdown
  pub needs_camera : (r' : R) → r ≡ ok r' → (s.camera_running && not s.shutdown) ≡ true
  pub refuses :
      (s.camera_running && not s.shutdown) ≡ false
      → (t ≡ s) × (r ≡ err (raised camera_unavailable "camera is not running"))
  pub clears : (r' : R) → r ≡ ok r' → t.last_error ≡ none

module _ {A M P R W : Type 0} (backend : CameraBackend A M P W) (media : Media A M P R W) where
  -- A capture changes nothing of the service but its last error, which one that was saved clears. It
  -- is refused, and then changes nothing, unless the camera runs and the service is open.
  pub capture_lem :
      (c : CaptureMode) (s : CameraService P W)
      → OnlyCaptures s (capture backend media c s).0 (capture backend media c s).1
  unfolding capture
  capture_lem c s = ground arith
