-- ===== src/Camera/Service/Runs.antt =====
-- The threads that use the service of host/camera/camera_service.py, as a sequence of their sections:
-- a call that holds the operation lock begins and ends, and the sections under the state lock alone
-- come at any time, also between the two. The worker is joined between the two parts of `close`.
pub mod Calls
pub mod Validity
pub mod Closing
use mousinator.Prelude.{
  ◌≡◌, refl, none, some, Option, Bool, true, false, List, [], ◌∷◌, arith, if◌then◌else◌, if_both,
  ◌||◌, inl, inr, Bool-cases,
}
use mousinator.Camera.Service.{
  CameraBackend, Media, CameraService, camera_service, close_begin, close_finish,
  start_dataset_capture, stop_dataset_capture, status,
}
use mousinator.Camera.Service.Holding.{
  Held, goes_on, needs_camera, finished, finished-IsValid, finished-flag,
}
use mousinator.Camera.Service.Validity.{
  IsValid, camera_service-IsValid, close_begin-Keeps, close_finish-Keeps, status-Keeps,
  start_dataset_capture-Keeps, stop_dataset_capture-Keeps,
}
use mousinator.Camera.Service.Closing.{
  StaysClosed, close_begin-StaysClosed, close_finish-off, start_dataset_capture-StaysClosed,
  stop_dataset_capture-StaysClosed, status-StaysClosed,
}

pub data Event : Type 0 where
  begins : Held → Event
  ends begins_close finishes_close starts_dataset stops_dataset asks_status : Event

-- `held` is the call that holds the operation lock, and `closing` says whether a `close` has still to
-- take it.
pub record System (P W : Type 0) : Type 0 where
  pub service : CameraService P W
  pub held : Option Held
  pub closing : Bool

abbrev pub new_system : {P W : Type 0} → W → System P W
new_system w = record { service = camera_service w; held = none; closing = false }

module _ {A M P R W : Type 0} (backend : CameraBackend A M P W) (media : Media A M P R W) where
  -- A call waits for the lock as long as another one holds it.
  abbrev pub take : Held → Option Held → System P W → System P W
  take h none x = if goes_on h x.service then record x { held = some h } else x
  take h (some other) x = x

  abbrev pub release : Option Held → System P W → System P W
  release none x = x
  release (some h) x = record x { service = finished backend media h x.service; held = none }

  abbrev pub finish_close : Option Held → Bool → System P W → System P W
  finish_close none true x = record x {
    service = (close_finish backend media x.service).1;
    closing = false;
  }
  finish_close none false x = x
  finish_close (some h) closing x = x

  unfoldable pub step : Event → System P W → System P W
  unfolding finished close_finish close_begin start_dataset_capture stop_dataset_capture status
  step (begins h) x = take h x.held x
  step ends x = release x.held x
  step begins_close x =
      let (goes, s) = close_begin backend media x.service in
      record x { service = s; closing = goes || x.closing }
  step finishes_close x = finish_close x.held x.closing x
  step starts_dataset x = record x { service = (start_dataset_capture backend media x.service).1 }
  step stops_dataset x = record x { service = (stop_dataset_capture backend media x.service).1 }
  step asks_status x = record x { service = (status backend media x.service).1 }

  unfoldable pub run : List Event → System P W → System P W
  unfolding step
  run [] x = x
  run (e ∷ es) x = run es (step e x)
