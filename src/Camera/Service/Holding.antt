-- ===== src/Camera/Service/Holding.antt =====
-- The calls of host/camera/camera_service.py that hold the operation lock, in two parts: the first
-- look at the state, and the rest, which ends with the release of the lock. Other threads run their
-- sections under the state lock between the two.
use mousinator.Camera.Service.{
  CameraBackend, Media, CameraService, CaptureMode, interval, start, start_rest, get_frame,
  get_frame_rest, start_recording, start_recording_rest, stop_recording, stop_recording_rest,
  capture, capture_rest, after_capture, dataset_round,
}
use mousinator.Camera.Service.Validity.{IsValid, start_rest-Keeps, after_capture-IsValid}
use mousinator.Camera.Service.Closing.{start_rest-flag}
use mousinator.Prelude.Exec.{Result, ok, err}
use mousinator.Prelude.{Bool, true, false, not, ◌&&◌, ◌≡◌, arith, if◌then◌else◌, refl}

-- The calls that hold the lock; `working` is a round of the dataset worker.
pub data Held : Type 0 where
  starting getting_frame starting_recording stopping_recording working : Held
  capturing : CaptureMode → Held

-- Whether a call goes on after its first look at the state. Where it does not, it changes nothing.
abbrev pub goes_on : {P W : Type 0} → Held → CameraService P W → Bool
goes_on starting s = not s.camera_running && not s.shutdown
goes_on working s = (not s.shutdown && s.dataset_enabled) && s.camera_running
goes_on _ s = s.camera_running && not s.shutdown

-- The calls that go on only while the camera runs.
abbrev pub needs_camera : Held → Bool
needs_camera starting = false
needs_camera _ = true

module _ {A M P R W : Type 0} (backend : CameraBackend A M P W) (media : Media A M P R W) where
  -- The service after the rest of a call.
  unfoldable pub finished : Held → CameraService P W → CameraService P W
  finished starting s = (start_rest backend media s).1
  finished getting_frame s = (get_frame_rest backend media s).1
  finished starting_recording s = (start_recording_rest backend media s).1
  finished stopping_recording s = (stop_recording_rest backend media s).1
  finished (capturing c) s = (capture_rest backend media c s).1
  finished working s = (after_capture backend media (capture_rest backend media interval s)).1

  -- The service after a whole call that no other thread gets into.
  abbrev pub called : Held → CameraService P W → CameraService P W
  called starting s = (start backend media s).1
  called getting_frame s = (get_frame backend media s).1
  called starting_recording s = (start_recording backend media s).1
  called stopping_recording s = (stop_recording backend media s).1
  called (capturing c) s = (capture backend media c s).1
  called working s = (dataset_round backend media s).1

  capture_rest-IsValid :
      (c : CaptureMode) (s : CameraService P W)
      → s.camera_running ≡ true
      → IsValid s
      → IsValid (capture_rest backend media c s).1
  capture_rest-IsValid c s runs v = ground arith

  pub finished-IsValid :
      (h : Held) (s : CameraService P W)
      → (needs_camera h ≡ true → s.camera_running ≡ true)
      → IsValid s
      → IsValid (finished h s)
  unfolding finished
  finished-IsValid starting s runs v = start_rest-Keeps backend media s v
  finished-IsValid getting_frame s runs v = ground arith
  finished-IsValid starting_recording s runs v = ground arith
  finished-IsValid stopping_recording s runs v = ground arith
  finished-IsValid (capturing c) s runs v = capture_rest-IsValid c s (runs refl) v
  finished-IsValid working s runs v =
      after_capture-IsValid backend media (capture_rest backend media interval s).0
        (capture_rest backend media interval s).1 (capture_rest-IsValid interval s (runs refl) v)

  capture_rest-flag :
      (c : CaptureMode) (s : CameraService P W)
      → s.shutdown ≡ true
      → (capture_rest backend media c s).1.shutdown ≡ true
  capture_rest-flag c s h = ground arith

  after_capture-flag :
      (r : Result R) (s : CameraService P W)
      → s.shutdown ≡ true
      → (after_capture backend media (r, s)).1.shutdown ≡ true
  after_capture-flag (ok r) s h = h
  after_capture-flag (err e) s h = ground arith

  -- No call takes the closing back.
  pub finished-flag :
      (h : Held) (s : CameraService P W) → s.shutdown ≡ true → (finished h s).shutdown ≡ true
  unfolding finished
  finished-flag starting s h = start_rest-flag backend media s h
  finished-flag getting_frame s h = ground arith
  finished-flag starting_recording s h = ground arith
  finished-flag stopping_recording s h = ground arith
  finished-flag (capturing c) s h = capture_rest-flag c s h
  finished-flag working s h =
      after_capture-flag (capture_rest backend media interval s).0
        (capture_rest backend media interval s).1 (capture_rest-flag interval s h)

  -- A call that no other thread gets into is its first look and then, if it goes on, its rest.
  pub called_lem :
      (h : Held) (s : CameraService P W) → called h s ≡ (if goes_on h s then finished h s else s)
  unfolding finished start get_frame start_recording stop_recording capture dataset_round
  called_lem starting s = ground arith
  called_lem getting_frame s = ground arith
  called_lem starting_recording s = ground arith
  called_lem stopping_recording s = ground arith
  called_lem (capturing c) s = ground arith
  called_lem working s = ground arith
