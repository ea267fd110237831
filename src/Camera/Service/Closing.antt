-- ===== src/Camera/Service/Closing.antt =====
-- No operation of host/camera/camera_service.py opens the service again.
use mousinator.Prelude.{◌≡◌, true, false, arith, inl, inr}
use mousinator.Prelude.Exec.{Result-cases}
use mousinator.Camera.Service.{
  CameraBackend, Media, CameraService, start_rest, close_begin, close_finish, start_dataset_capture,
  stop_dataset_capture, status,
}

-- The flag stays set, and a camera that is off while the flag is set stays off.
pub record StaysClosed {P W : Type 0} (s t : CameraService P W) : Type 0 where
  pub flag : s.shutdown ≡ true → t.shutdown ≡ true
  pub off : s.shutdown ≡ true → s.camera_running ≡ false → t.camera_running ≡ false

module _ {A M P R W : Type 0} (backend : CameraBackend A M P W) (media : Media A M P R W) where
  pub start_rest-flag :
      (s : CameraService P W) → s.shutdown ≡ true → (start_rest backend media s).1.shutdown ≡ true
  start_rest-flag s h = elim (Result-cases (backend.start s.world).0) [
    | inl (u, e) ↦ ground arith
    | inr (x, e) ↦ ground arith
  ]

  pub close_begin-StaysClosed :
      (s : CameraService P W) → StaysClosed s (close_begin backend media s).1
  unfolding close_begin
  close_begin-StaysClosed s = ground arith

  -- After the second part of `close` the camera is off.
  pub close_finish-off :
      (s : CameraService P W)
      → StaysClosed s (close_finish backend media s).1
        × ((close_finish backend media s).1.camera_running ≡ false)
  unfolding close_finish
  close_finish-off s = (ground arith, ground arith)

  pub start_dataset_capture-StaysClosed :
      (s : CameraService P W) → StaysClosed s (start_dataset_capture backend media s).1
  unfolding start_dataset_capture
  start_dataset_capture-StaysClosed s = ground arith

  pub stop_dataset_capture-StaysClosed :
      (s : CameraService P W) → StaysClosed s (stop_dataset_capture backend media s).1
  unfolding stop_dataset_capture
  stop_dataset_capture-StaysClosed s = ground arith

  pub status-StaysClosed : (s : CameraService P W) → StaysClosed s (status backend media s).1
  unfolding status
  status-StaysClosed s = ground arith
