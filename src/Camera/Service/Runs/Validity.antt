-- ===== src/Camera/Service/Runs/Validity.antt =====
-- The invariant of the service of host/camera/camera_service.py in every sequence of sections.
use mousinator.Prelude.{
  ◌≡◌, refl, none, some, Option, Bool, true, false, List, [], ◌∷◌, arith, ◌||◌, inl, inr,
  Bool-cases,
}
use mousinator.Camera.Service.{
  CameraBackend, Media, CameraService, close_begin, start_dataset_capture,
}
use mousinator.Camera.Service.Holding.{Held, goes_on, needs_camera, finished-IsValid, finished-flag}
use mousinator.Camera.Service.Validity.{
  IsValid, camera_service-IsValid, close_begin-Keeps, close_finish-Keeps, status-Keeps,
  start_dataset_capture-Keeps, stop_dataset_capture-Keeps,
}
use mousinator.Camera.Service.Closing.{
  start_dataset_capture-StaysClosed, stop_dataset_capture-StaysClosed, status-StaysClosed,
}
use mousinator.Camera.Service.Runs.{
  System, Event, begins, ends, begins_close, finishes_close, starts_dataset, stops_dataset,
  asks_status, new_system, take, release, finish_close, step, run,
}

-- The camera runs where the call that holds the lock needs it.
abbrev FitsCamera : Option Held → Bool → Type 0
FitsCamera none running = Unit
FitsCamera (some h) running = needs_camera h ≡ true → running ≡ true

-- The service is valid, a close that is under way has set the flag, and no call takes the camera from
-- the one that holds the lock.
pub record IsSound {P W : Type 0} (x : System P W) : Type 0 where
  pub valid : IsValid x.service
  pub closed : x.closing ≡ true → x.service.shutdown ≡ true
  pub fits : FitsCamera x.held x.service.camera_running

goes_on-FitsCamera :
    {P W : Type 0} (h : Held) (s : CameraService P W)
    → goes_on h s ≡ true
    → FitsCamera (some h) s.camera_running
goes_on-FitsCamera h s goes = ground arith

module _ {A M P R W : Type 0} (backend : CameraBackend A M P W) (media : Media A M P R W) where
  take-IsSound :
      (h : Held) (o : Option Held) (x : System P W) → IsSound x → IsSound (take backend media h o x)
  take-IsSound h (some other) x v = v
  take-IsSound h none x v = elim (Bool-cases (goes_on h x.service)) [
    | inl goes ↦
        simp goes (record {
          valid = v.valid;
          closed = v.closed;
          fits = goes_on-FitsCamera h x.service goes;
        })
    | inr stays ↦ simp stays v
  ]

  release-IsSound :
      (o : Option Held) (x : System P W)
      → FitsCamera o x.service.camera_running
      → IsSound x
      → IsSound (release backend media o x)
  release-IsSound none x fits v = v
  release-IsSound (some h) x fits v = record {
    valid = finished-IsValid backend media h x.service fits v.valid;
    closed = λ k. finished-flag backend media h x.service (v.closed k);
    fits = tt;
  }

  finish_close-IsSound :
      (o : Option Held) (closing : Bool) (x : System P W)
      → x.held ≡ o
      → x.closing ≡ closing
      → IsSound x
      → IsSound (finish_close backend media o closing x)
  finish_close-IsSound (some h) closing x e c v = v
  finish_close-IsSound none false x e c v = v
  finish_close-IsSound none true x e c v = record {
    valid = close_finish-Keeps backend media x.service (v.closed c) v.valid;
    closed = λ k. absurd (cc);
    fits = rw e tt;
  }

  -- A section under the state lock that leaves the camera as it is.
  section-IsSound :
      (x : System P W) (s : CameraService P W) (closing : Bool)
      → IsSound x
      → IsValid s
      → (closing ≡ true → s.shutdown ≡ true)
      → s.camera_running ≡ x.service.camera_running
      → IsSound (record x { service = s; closing = closing })
  section-IsSound x s closing v valid closed same = record {
    valid = valid;
    closed = closed;
    fits = rw same v.fits;
  }

  begun-closed :
      (s : CameraService P W) (closing : Bool)
      → (closing ≡ true → s.shutdown ≡ true)
      → ((close_begin backend media s).0 || closing) ≡ true
      → (close_begin backend media s).1.shutdown ≡ true
  unfolding close_begin
  begun-closed s closing before h = ground arith

  close_begin-camera :
      (s : CameraService P W) → (close_begin backend media s).1.camera_running ≡ s.camera_running
  unfolding close_begin
  close_begin-camera s = ground arith

  start_dataset_capture-camera :
      (s : CameraService P W)
      → (start_dataset_capture backend media s).1.camera_running ≡ s.camera_running
  unfolding start_dataset_capture
  start_dataset_capture-camera s = ground arith

  pub step-IsSound : (e : Event) (x : System P W) → IsSound x → IsSound (step backend media e x)
  unfolding step
  step-IsSound (begins h) x v = take-IsSound h x.held x v
  step-IsSound ends x v = release-IsSound x.held x v.fits v
  step-IsSound begins_close x v =
      section-IsSound x (close_begin backend media x.service).1
        ((close_begin backend media x.service).0 || x.closing) v
        (close_begin-Keeps backend media x.service v.valid)
        (begun-closed x.service x.closing v.closed) (close_begin-camera x.service)
  step-IsSound finishes_close x v = finish_close-IsSound x.held x.closing x refl refl v
  step-IsSound starts_dataset x v =
      section-IsSound x _ x.closing v (start_dataset_capture-Keeps backend media x.service v.valid)
        (λ k. (start_dataset_capture-StaysClosed backend media x.service).flag (v.closed k))
        (start_dataset_capture-camera x.service)
  step-IsSound stops_dataset x v =
      section-IsSound x _ x.closing v (stop_dataset_capture-Keeps backend media x.service v.valid)
        (λ k. (stop_dataset_capture-StaysClosed backend media x.service).flag (v.closed k)) (cc)
  step-IsSound asks_status x v =
      section-IsSound x _ x.closing v (status-Keeps backend media x.service v.valid)
        (λ k. (status-StaysClosed backend media x.service).flag (v.closed k)) (cc)

  pub run-IsSound :
      (es : List Event) (x : System P W) → IsSound x → IsSound (run backend media es x)
  unfolding run
  run-IsSound [] x v = v
  run-IsSound (e ∷ es) x v = run-IsSound es (step backend media e x) (step-IsSound e x v)

  pub new_system-IsSound : (w : W) → IsSound (new_system {P = P} w)
  new_system-IsSound w = record {
    valid = camera_service-IsValid backend media w;
    closed = λ h. absurd (cc);
    fits = tt;
  }

  -- Whatever calls reach the service, in whatever order they get its lock, whatever sections under
  -- the state lock come between the first look of a call and its rest, and whatever the camera and
  -- the storage answer: a recording always has a path and a running camera, and datasets are
  -- captured only while the camera runs and the service is not closed.
  pub camera_always-IsValid :
      (es : List Event) (w : W) → IsValid (run backend media es (new_system w)).service
  camera_always-IsValid es w = (run-IsSound es (new_system w) (new_system-IsSound w)).valid
