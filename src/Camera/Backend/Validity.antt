-- ===== src/Camera/Backend/Validity.antt =====
-- The state of the backend of host/camera/picamera2_backend.py after every operation, whatever raises.
use mousinator.Camera.Service.{CapturedFrame}
use mousinator.Prelude.Exec.{
  Exec, ok, pure, Exn, catch, err, Result, ◌>>◌, continue-lem, caught-lem,
}
use mousinator.Camera.Buffer.{activate, deactivate, shutdown}
use mousinator.Camera.Backend.{
  captures, captured, capture_still, ignored, device, stops, start_body, closes, creates, roll_back,
  Call, get_frame, capture_sensor_native, start_recording, start, require_running,
  start_stream_encoder, stop_recording, stop, stop_stream_encoder, Backend, Picamera2,
}
use mathlib.Core.Path.{subst}
use mousinator.Prelude.{
  not, [], Done, List, ◌||◌, if_false, inr, inl, ◌⊎◌, ◌∷◌, true, false, ◌≡◌, refl, arith,
}

-- The camera is set exactly while it runs, the buffer takes frames exactly while the stream encoder
-- is set, and an encoder is set only while the camera runs.
pub record IsValid {B W : Type 0} (s : Backend B W) : Type 0 where
  pub same : s.running ≡ s.has_camera
  pub active : s.frame_buffer.active ≡ s.stream_encoder
  pub streams : (not s.stream_encoder || s.running) ≡ true
  pub records : (not s.record_encoder || s.running) ≡ true

-- Nothing runs, is set or takes frames.
pub record IsIdle {B W : Type 0} (s : Backend B W) : Type 0 where
  pub not_running : s.running ≡ false
  pub no_camera : s.has_camera ≡ false
  pub no_stream : s.stream_encoder ≡ false
  pub no_recording : s.record_encoder ≡ false
  pub no_frames : s.frame_buffer.active ≡ false

module _ {A M P B W : Type 0} (cam : Picamera2 A M P W) where
  require_running-IsValid : (s : Backend B W) → IsValid s → IsValid (require_running cam s).1
  unfolding require_running
  require_running-IsValid s v = ground arith

  start_stream_encoder-IsValid :
      (s : Backend B W) → IsValid s → IsValid (start_stream_encoder cam s).1
  unfolding start_stream_encoder require_running activate deactivate
  start_stream_encoder-IsValid s v = ground arith

  stop_stream_encoder-IsValid :
      (s : Backend B W) → IsValid s → IsValid (stop_stream_encoder cam s).1
  unfolding stop_stream_encoder deactivate
  stop_stream_encoder-IsValid s v = ground arith

  pub stop_recording-IsValid : (s : Backend B W) → IsValid s → IsValid (stop_recording cam s).1
  unfolding stop_recording
  stop_recording-IsValid s v = ground arith

  pub stop-IsIdle : (s : Backend B W) → IsValid s → IsIdle (stop cam s).1
  unfolding stop stop_recording stop_stream_encoder deactivate shutdown
  stop-IsIdle s v = ground arith

  pub start-IsValid : (s : Backend B W) → IsValid s → IsValid (start cam s).1
  unfolding start start_stream_encoder require_running activate deactivate
  start-IsValid s v = ground arith

  pub get_frame-IsValid : (s : Backend B W) → IsValid s → IsValid (get_frame cam s).1
  unfolding get_frame require_running
  get_frame-IsValid s v = ground arith

  stopped-IsValid :
      (s : Backend B W) → IsValid s → IsValid ((require_running cam >> stop_stream_encoder cam) s).1
  stopped-IsValid s v =
      let t = (require_running cam s).1 in
      let v' = require_running-IsValid s v in
      continue-lem (λ r x. IsValid x) (require_running cam s).0 (λ d. stop_stream_encoder cam) t
        (λ e h. v') (λ d h. stop_stream_encoder-IsValid t v')

  captured-IsValid :
      (r : Result (CapturedFrame A M)) (r' : Result Done) (s : Backend B W)
      → IsValid s
      → IsValid (captured cam r r' s).1
  captured-IsValid (err e) r s v = v
  captured-IsValid (ok f) (err e) s v = v
  captured-IsValid (ok f) (ok d) s v = v

  capture_still-IsValid : (s : Backend B W) → IsValid s → IsValid (capture_still cam s).1
  capture_still-IsValid s v =
      let t = (device cam captures cam.switch_mode_and_capture_arrays s).1 in
      captured-IsValid _ (start_stream_encoder cam t).0 (start_stream_encoder cam t).1 (
        start_stream_encoder-IsValid t
          (record { same = v.same; active = v.active; streams = v.streams; records = v.records }))

  pub capture_sensor_native-IsValid :
      (s : Backend B W) → IsValid s → IsValid (capture_sensor_native cam s).1
  unfolding capture_sensor_native
  capture_sensor_native-IsValid s v =
      let u = ((require_running cam >> stop_stream_encoder cam) s) in
      continue-lem (λ r x. IsValid x) u.0 (λ d. capture_still cam) u.1 (λ e h. stopped-IsValid s v)
        (λ d h. capture_still-IsValid u.1 (stopped-IsValid s v))

  pub start_recording-IsValid :
      (path : P) (s : Backend B W) → IsValid s → IsValid (start_recording cam path s).1
  unfolding start_recording require_running
  start_recording-IsValid path s v = ground arith

  pub IsIdle-IsValid : (s : Backend B W) → IsIdle s → IsValid s
  IsIdle-IsValid s v = ground arith

-- The last two calls on the camera, the last one first.
abbrev pub last_two : List Call → List Call
last_two (c ∷ d ∷ cs) = c ∷ d ∷ []
last_two _ = []

-- What `start` of an idle backend ended with: it runs with its stream; or it raised, is idle, and the
-- camera was not made or the last calls on it were its stop and its close.
abbrev pub StartsOrRollsBack : {B W : Type 0} → List Call → Result Done → Backend B W → Type 0
StartsOrRollsBack before (ok d) t = (t.running ≡ true) × (t.stream_encoder ≡ true) × IsValid t
StartsOrRollsBack before (err e) t =
    IsIdle t × ((t.calls ≡ creates ∷ before) ⊎ (last_two t.calls ≡ closes ∷ stops ∷ []))

-- What the body of `start` ended with.
abbrev IsStartedOrOff : {B W : Type 0} → Result Done → Backend B W → Type 0
IsStartedOrOff (ok d) t = (t.running ≡ true) × (t.stream_encoder ≡ true) × IsValid t
IsStartedOrOff (err e) t =
    (t.stream_encoder ≡ false) × (t.record_encoder ≡ false) × (t.frame_buffer.active ≡ false)

module _ {A M P B W : Type 0} (cam : Picamera2 A M P W) where
  ignored_lem : (m : Exec (Backend B W) Done) (s : Backend B W) → ignored cam m s ≡ (ok tt, (m s).1)
  ignored_lem m s =
      caught-lem (λ r t. ◌≡◌ {A = Result Done × Backend B W} (r, t) (ok tt, (m s).1)) (m s).0
        (λ e. pure tt) (m s).1 (λ a e. refl) (λ e h. refl)

  roll_back-IsIdle :
      (before : List Call) (e : Exn) (s : Backend B W)
      → IsStartedOrOff (err e) s
      → StartsOrRollsBack before (roll_back cam e s).0 (roll_back cam e s).1
  roll_back-IsIdle before e s off = rw (ignored_lem (device cam stops cam.stop) s) (
      rw (ignored_lem (device cam closes cam.close) (device cam stops cam.stop s).1) (
        record {
          not_running = refl;
          no_camera = refl;
          no_stream = off.0;
          no_recording = off.1;
          no_frames = off.2;
        },
        inr refl,
      ))

  start_body-IsStartedOrOff :
      (s : Backend B W) → IsIdle s → IsStartedOrOff (start_body cam s).0 (start_body cam s).1
  unfolding start_stream_encoder require_running activate deactivate
  start_body-IsStartedOrOff s v = ground arith

  caught_start :
      (before : List Call) (s : Backend B W)
      → IsIdle s
      → StartsOrRollsBack before
          (catch (start_body cam) (roll_back cam) s).0
          (catch (start_body cam) (roll_back cam) s).1
  caught_start before s v =
      let post = start_body-IsStartedOrOff s v in
      caught-lem (StartsOrRollsBack before) (start_body cam s).0 (roll_back cam)
        (start_body cam s).1 (λ d e. subst (λ r. IsStartedOrOff r (start_body cam s).1) e post)
        (λ x e.
          roll_back-IsIdle before x (start_body cam s).1
            (subst (λ r. IsStartedOrOff r (start_body cam s).1) e post))

  created-IsIdle : (s : Backend B W) → IsIdle s → IsIdle (device cam creates cam.create s).1
  created-IsIdle s v = record {
    not_running = v.not_running;
    no_camera = v.no_camera;
    no_stream = v.no_stream;
    no_recording = v.no_recording;
    no_frames = v.no_frames;
  }

  -- `start` of an idle backend, whichever call of the camera library raises: either it returns and
  -- the camera runs with its stream encoder set; or it raises, the running flag is off, no camera,
  -- stream encoder or recording encoder is set and no frames pass, and either the camera was never
  -- made or the last two calls on it were its stop and its close. The resolution of the sensor that was
  -- read stays.
  pub start-StartsOrRollsBack :
      (s : Backend B W) → IsIdle s → StartsOrRollsBack s.calls (start cam s).0 (start cam s).1
  unfolding start
  start-StartsOrRollsBack s v =
      if_false {A = Result Done × Backend B W} (λ x. StartsOrRollsBack s.calls x.0 x.1) s.running
        (ok tt, s) v.not_running
        (continue-lem (StartsOrRollsBack s.calls) (cam.create s.world).0
          (λ d. catch (start_body cam) (roll_back cam)) (device cam creates cam.create s).1
          (λ e h. (created-IsIdle s v, inl refl))
          (λ d h. caught_start s.calls (device cam creates cam.create s).1 (created-IsIdle s v)))
