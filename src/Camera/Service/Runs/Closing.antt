-- ===== src/Camera/Service/Runs/Closing.antt =====
-- Nothing of host/camera/camera_service.py starts again once a `close` has finished.
use mousinator.Prelude.{◌≡◌, refl, none, some, Option, Bool, true, false, List, [], ◌∷◌, arith}
use mousinator.Camera.Service.{CameraBackend, Media, CameraService}
use mousinator.Camera.Service.Holding.{Held}
use mousinator.Camera.Service.Validity.{IsValid}
use mousinator.Camera.Service.Closing.{
  StaysClosed, close_begin-StaysClosed, close_finish-off, start_dataset_capture-StaysClosed,
  stop_dataset_capture-StaysClosed, status-StaysClosed,
}
use mousinator.Camera.Service.Runs.{
  System, Event, begins, ends, begins_close, finishes_close, starts_dataset, stops_dataset,
  asks_status, new_system, take, release, finish_close, step, run,
}
use mousinator.Camera.Service.Runs.Validity.{IsSound, step-IsSound, run-IsSound, new_system-IsSound}

-- Nothing runs: neither the camera nor a recording nor the dataset capture.
pub record IsClosed {P W : Type 0} (s : CameraService P W) : Type 0 where
  pub flag : s.shutdown ≡ true
  pub camera : s.camera_running ≡ false
  pub recording : s.recording ≡ false
  pub path : s.recording_path ≡ none
  pub dataset : s.dataset_enabled ≡ false

IsClosed-from :
    {P W : Type 0} (s : CameraService P W)
    → IsValid s
    → s.shutdown ≡ true
    → s.camera_running ≡ false
    → IsClosed s
IsClosed-from s v flag off = ground arith

-- The service is closed and off, and no call holds the lock.
record IsOver {P W : Type 0} (x : System P W) : Type 0 where
  pub flag : x.service.shutdown ≡ true
  pub off : x.service.camera_running ≡ false
  pub free : x.held ≡ none

module _ {A M P R W : Type 0} (backend : CameraBackend A M P W) (media : Media A M P R W) where
  take-IsOver :
      (h : Held) (o : Option Held) (x : System P W) → IsOver x → IsOver (take backend media h o x)
  take-IsOver h (some other) x v = v
  take-IsOver h none x v = ground (arith, v.flag, v.off, v.free)

  release-IsOver :
      (o : Option Held) (x : System P W)
      → x.held ≡ o
      → IsOver x
      → IsOver (release backend media o x)
  release-IsOver none x e v = v
  release-IsOver (some h) x e v = absurd (let k = v.free in cc)

  finish_close-IsOver :
      (o : Option Held) (closing : Bool) (x : System P W)
      → IsOver x
      → IsOver (finish_close backend media o closing x)
  finish_close-IsOver (some h) closing x v = v
  finish_close-IsOver none false x v = v
  finish_close-IsOver none true x v = record {
    flag = (close_finish-off backend media x.service).0.flag v.flag;
    off = (close_finish-off backend media x.service).1;
    free = v.free;
  }

  section-IsOver :
      (x : System P W) (s : CameraService P W) (closing : Bool)
      → StaysClosed x.service s
      → IsOver x
      → IsOver (record x { service = s; closing = closing })
  section-IsOver x s closing stays v = record {
    flag = stays.flag v.flag;
    off = stays.off v.flag v.off;
    free = v.free;
  }

  step-IsOver : (e : Event) (x : System P W) → IsOver x → IsOver (step backend media e x)
  unfolding step
  step-IsOver (begins h) x v = take-IsOver h x.held x v
  step-IsOver ends x v = release-IsOver x.held x refl v
  step-IsOver begins_close x v =
      section-IsOver x _ _ (close_begin-StaysClosed backend media x.service) v
  step-IsOver finishes_close x v = finish_close-IsOver x.held x.closing x v
  step-IsOver starts_dataset x v =
      section-IsOver x _ x.closing (start_dataset_capture-StaysClosed backend media x.service) v
  step-IsOver stops_dataset x v =
      section-IsOver x _ x.closing (stop_dataset_capture-StaysClosed backend media x.service) v
  step-IsOver asks_status x v =
      section-IsOver x _ x.closing (status-StaysClosed backend media x.service) v

  run-IsOver : (es : List Event) (x : System P W) → IsOver x → IsOver (run backend media es x)
  unfolding run
  run-IsOver [] x v = v
  run-IsOver (e ∷ es) x v = run-IsOver es (step backend media e x) (step-IsOver e x v)

  finished-IsOver :
      (o : Option Held) (x : System P W)
      → IsSound x
      → x.held ≡ o
      → o ≡ none
      → x.closing ≡ true
      → IsOver (finish_close backend media o x.closing x)
  finished-IsOver (some h) x v e free c = absurd (cc)
  finished-IsOver none x v e free c = rw c (record {
    flag = (close_finish-off backend media x.service).0.flag (v.closed c);
    off = (close_finish-off backend media x.service).1;
    free = e;
  })

  step-finish-IsOver :
      (x : System P W)
      → IsSound x
      → x.closing ≡ true
      → x.held ≡ none
      → IsOver (step backend media finishes_close x)
  unfolding step
  step-finish-IsOver x v c free = finished-IsOver x.held x v refl free c

  -- Once a `close` that some calls began has got the operation lock and finished, even with an
  -- exception, no further calls start the camera, a recording or the dataset capture again.
  pub camera_close_final :
      (before later : List Event) (w : W)
      → (run backend media before (new_system w)).closing ≡ true
      → (run backend media before (new_system w)).held ≡ none
      → IsClosed
          (run backend media later
            (step backend media finishes_close (run backend media before (new_system w)))).service
  camera_close_final before later w closing free =
      let x = run backend media before (new_system w) in
      let y = step backend media finishes_close x in
      let sound =
        run-IsSound backend media before (new_system w) (new_system-IsSound backend media w) in
      let over = run-IsOver later y (step-finish-IsOver x sound closing free) in
      IsClosed-from (run backend media later y).service
        (run-IsSound backend media later y
          (step-IsSound backend media finishes_close x sound)).valid
        over.flag over.off
