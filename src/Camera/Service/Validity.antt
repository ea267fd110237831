-- ===== src/Camera/Service/Validity.antt =====
-- The invariant of the service of host/camera/camera_service.py, which every operation keeps.
use mousinator.Prelude.{◌≡◌, true, false, is_some, arith, inl, inr}
use mousinator.Prelude.Exec.{Result, ok, err, Exec, Result-cases}
use mousinator.Camera.Service.{
  CameraBackend, Media, CameraService, camera_service, start_rest, close_begin, close_finish,
  start_dataset_capture, stop_dataset_capture, after_capture, status,
}

-- A recording has a path, and only a running camera records; datasets are captured only while the
-- camera runs and the service is not closed; a running camera has its worker.
pub record IsValid {P W : Type 0} (s : CameraService P W) : Type 0 where
  pub path : s.recording ≡ is_some s.recording_path
  pub runs : s.recording ≡ true → s.camera_running ≡ true
  pub dataset_runs : s.dataset_enabled ≡ true → s.camera_running ≡ true
  pub dataset_open : s.dataset_enabled ≡ true → s.shutdown ≡ false
  pub worker : s.camera_running ≡ true → s.dataset_thread ≡ true

-- What an operation keeps, whatever it ends with.
abbrev pub Keeps : {P W B : Type 0} → Exec (CameraService P W) B → Type 0
Keeps {P} {W} m = (s : CameraService P W) → IsValid s → IsValid (m s).1

module _ {A M P R W : Type 0} (backend : CameraBackend A M P W) (media : Media A M P R W) where
  pub camera_service-IsValid : (w : W) → IsValid (camera_service {P = P} w)
  camera_service-IsValid w = ground arith

  pub start_rest-Keeps : Keeps (start_rest backend media)
  start_rest-Keeps s v = elim (Result-cases (backend.start s.world).0) [
    | inl (u, e) ↦ ground arith
    | inr (x, e) ↦ ground arith
  ]

  pub close_begin-Keeps :
      (s : CameraService P W) → IsValid s → IsValid (close_begin backend media s).1
  unfolding close_begin
  close_begin-Keeps s v = ground arith

  -- After `close_begin` only.
  pub close_finish-Keeps :
      (s : CameraService P W)
      → s.shutdown ≡ true
      → IsValid s
      → IsValid (close_finish backend media s).1
  unfolding close_finish
  close_finish-Keeps s closed v = ground arith

  pub after_capture-IsValid :
      (r : Result R) (s : CameraService P W)
      → IsValid s
      → IsValid (after_capture backend media (r, s)).1
  after_capture-IsValid (ok r) s v = v
  after_capture-IsValid (err e) s v = ground arith

  pub status-Keeps : Keeps (status backend media)
  unfolding status
  status-Keeps s v = ground arith

  pub start_dataset_capture-Keeps : Keeps (start_dataset_capture backend media)
  unfolding start_dataset_capture
  start_dataset_capture-Keeps s v = ground arith

  pub stop_dataset_capture-Keeps : Keeps (stop_dataset_capture backend media)
  unfolding stop_dataset_capture
  stop_dataset_capture-Keeps s v = ground arith
