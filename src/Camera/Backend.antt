-- ===== src/Camera/Backend.antt =====
-- The class `Picamera2Backend` of host/camera/picamera2_backend.py over the library Picamera2, which
-- is a parameter. `calls` is the record of the calls on the camera, the newest first.
pub mod Validity
pub mod Stopping
use mousinator.Camera.Service.{raised, CapturedFrame, CameraBackend}
use mousinator.Camera.Buffer.{jpeg_frame_buffer, deactivate, activate, JpegFrameBuffer, shutdown}
use mousinator.Prelude.Exec.{
  ◌>>=◌, runtime_error, raise, finally_run, modify, ok, ◌>>◌, pure, err, catch, raise_if, Exn, Exec,
  Result,
}
use mousinator.Prelude.{
  ◌||◌, not, if◌then◌else◌, some, none, ◌&&◌, ◌∷◌, keep, Done, ltb, List, [], Option, ℕ, ◌*◌, Bool,
  true, false,
}

-- Picamera2 over the state `W` of the world, with its imports. An encoder and its output are one
-- thing here, but for the stop of an output.
pub record Picamera2 (A M P W : Type 0) : Type 0 where
  -- the import and `Picamera2()`
  pub create : W → Result Done × W
  -- the sizes of `sensor_modes` that are pairs, and `sensor_resolution`
  pub sensor_modes : W → List (ℕ × ℕ)
  pub sensor_resolution : W → Option (ℕ × ℕ)
  pub create_video_configuration : W → Result Done × W
  pub create_still_configuration : Option (ℕ × ℕ) → W → Result Done × W
  pub configure : W → Result Done × W
  pub start : W → Result Done × W
  pub stop : W → Result Done × W
  pub close : W → Result Done × W
  pub capture_arrays : W → Result (CapturedFrame A M) × W
  pub switch_mode_and_capture_arrays : W → Result (CapturedFrame A M) × W
  -- the imports and constructors of an encoder, and `start_encoder`
  pub make_stream_encoder : W → Result Done × W
  pub start_stream_encoder : W → Result Done × W
  pub stop_stream_encoder : W → Result Done × W
  pub make_record_encoder : P → W → Result Done × W
  pub start_record_encoder : P → W → Result Done × W
  pub stop_record_output : P → W → Result Done × W
  pub stop_record_encoder : W → Result Done × W

pub data Call : Type 0 where
  creates configures captures starts stops closes : Call
  starts_stream stops_stream starts_record stops_record : Call

-- Of the attributes that are None or an object, whether they are set.
pub record Backend (B W : Type 0) : Type 0 where
  pub world : W
  pub calls : List Call
  pub frame_buffer : JpegFrameBuffer B
  pub native_resolution : Option (ℕ × ℕ)
  pub has_camera : Bool
  pub stream_encoder : Bool
  pub record_encoder : Bool
  pub running : Bool

abbrev pub picamera2_backend : {B W : Type 0} → W → Backend B W
picamera2_backend w = record {
  world = w;
  calls = [];
  frame_buffer = jpeg_frame_buffer;
  native_resolution = none;
  has_camera = false;
  stream_encoder = false;
  record_encoder = false;
  running = false;
}

abbrev pub is_positive : ℕ × ℕ → Bool
is_positive size = ltb 0 size.0 && ltb 0 size.1

-- `max(resolutions, key=...)`: the first of the largest.
unfoldable pub largest : ℕ × ℕ → List (ℕ × ℕ) → ℕ × ℕ
largest m [] = m
largest m (s ∷ ss) = if ltb (m.0 * m.1) (s.0 * s.1) then largest s ss else largest m ss

abbrev pub largest_of : List (ℕ × ℕ) → Option (ℕ × ℕ) → Option (ℕ × ℕ)
unfolding largest
largest_of [] resolution = resolution
largest_of (s ∷ ss) resolution = some (largest s ss)

unfoldable pub largest_sensor_resolution : List (ℕ × ℕ) → Option (ℕ × ℕ) → Option (ℕ × ℕ)
largest_sensor_resolution modes resolution = largest_of (keep is_positive modes) resolution

-- An error of a step of `stop` is kept unless there was one before.
abbrev pub first_error : Option Exn → Result Done → Option Exn
first_error none (err e) = some e
first_error none (ok d) = none
first_error (some e) r = some e

module _ {A M P B W : Type 0} (cam : Picamera2 A M P W) where
  -- A call on the camera, which is recorded.
  abbrev pub device : {R : Type 0} → Call → (W → Result R × W) → Exec (Backend B W) R
  device c f s = let (r, w) = f s.world in (r, record s { world = w; calls = c ∷ s.calls })

  abbrev pub on_buffer : (JpegFrameBuffer B → JpegFrameBuffer B) → Backend B W → Backend B W
  on_buffer f s = record s { frame_buffer = f s.frame_buffer }

  -- `try: m except Exception: pass`
  abbrev pub ignored : Exec (Backend B W) Done → Exec (Backend B W) Done
  ignored m = catch m (λ e. pure tt)

  -- `_require_running`
  unfoldable pub require_running : Exec (Backend B W) Done
  require_running s =
      raise_if (not s.running || not s.has_camera)
        (raised runtime_error "Picamera2 camera is not running") s

  -- `_start_stream_encoder`
  abbrev pub start_stream : Exec (Backend B W) Done
  start_stream = do
    device configures cam.make_stream_encoder
    modify (on_buffer activate)
    catch (device starts_stream cam.start_stream_encoder)
        (λ e. modify (on_buffer deactivate) >> raise e)
    modify (λ s. record s { stream_encoder = true })

  unfoldable pub start_stream_encoder : Exec (Backend B W) Done
  unfolding require_running activate deactivate
  start_stream_encoder s =
      (require_running >> (λ t. if t.stream_encoder then pure tt t else start_stream t)) s

  -- `_stop_stream_encoder`
  unfoldable pub stop_stream_encoder : Exec (Backend B W) Done
  unfolding deactivate
  stop_stream_encoder s =
      if s.stream_encoder
      then (modify (on_buffer deactivate)
            >> finally_run (device stops_stream cam.stop_stream_encoder)
                (modify (λ t. record t { stream_encoder = false })))
          s
      else pure tt s

  -- The body of the `try` of `start`.
  abbrev pub start_body : Exec (Backend B W) Done
  start_body = do
    modify (λ s. record s {
      native_resolution =
          largest_sensor_resolution (cam.sensor_modes s.world) (cam.sensor_resolution s.world);
    })
    device configures cam.create_video_configuration
    (λ s. device configures (cam.create_still_configuration s.native_resolution) s)
    device configures cam.configure
    device starts cam.start
    modify (λ s. record s { has_camera = true; running = true })
    start_stream_encoder

  -- Its `except` clause.
  abbrev pub roll_back : Exn → Exec (Backend B W) Done
  roll_back e = do
    ignored (device stops cam.stop)
    ignored (device closes cam.close)
    modify (λ s. record s { has_camera = false; running = false })
    raise e

  abbrev pub start_new : Exec (Backend B W) Done
  start_new = device creates cam.create >> catch start_body roll_back

  unfoldable pub start : Exec (Backend B W) Done
  unfolding start_stream_encoder largest_sensor_resolution
  start s = if s.running then pure tt s else start_new s

  unfoldable pub stop_recording : Exec (Backend B W) Done
  stop_recording s =
      if s.record_encoder
      then finally_run (device stops_record cam.stop_record_encoder)
          (modify (λ t. record t { record_encoder = false })) s
      else pure tt s

  abbrev pub attempt : Exec (Backend B W) Done → Option Exn → Exec (Backend B W) (Option Exn)
  attempt m error s = let (r, t) = m s in (ok (first_error error r), t)

  -- The `finally` of `stop`.
  abbrev pub cleared : Backend B W → Backend B W
  cleared s = record s {
    running = false;
    has_camera = false;
    frame_buffer = shutdown s.frame_buffer;
  }

  abbrev pub raised_error : Option Exn → Exec (Backend B W) Done
  raised_error none = pure tt
  raised_error (some e) = raise e

  abbrev pub stop_all : Exec (Backend B W) Done
  stop_all = do
    one ← attempt stop_recording none
    two ← attempt stop_stream_encoder one
    three ← attempt (λ s. if s.running then device stops cam.stop s else pure tt s) two
    four ← attempt (device closes cam.close) three
    modify cleared
    raised_error four

  unfoldable pub stop : Exec (Backend B W) Done
  unfolding stop_recording stop_stream_encoder shutdown
  stop s = if s.has_camera then stop_all s else pure tt s

  unfoldable pub get_frame : Exec (Backend B W) (CapturedFrame A M)
  unfolding require_running
  get_frame = require_running >> device captures cam.capture_arrays

  -- What `capture_sensor_native` ends with, given the capture and the restart of the stream.
  abbrev pub captured :
      Result (CapturedFrame A M) → Result Done → Exec (Backend B W) (CapturedFrame A M)
  captured (err e) r = raise e
  captured (ok f) (err e) = raise e
  captured (ok f) (ok d) = pure f

  abbrev pub capture_still : Exec (Backend B W) (CapturedFrame A M)
  capture_still s =
      let (r, t) = device captures cam.switch_mode_and_capture_arrays s in
      let (r', u) = start_stream_encoder t in captured r r' u

  unfoldable pub capture_sensor_native : Exec (Backend B W) (CapturedFrame A M)
  unfolding require_running stop_stream_encoder start_stream_encoder
  capture_sensor_native = require_running >> stop_stream_encoder >> capture_still

  abbrev pub start_record : P → Exec (Backend B W) Done
  start_record path = do
    device configures (cam.make_record_encoder path)
    catch (device starts_record (cam.start_record_encoder path))
        (λ e. ignored (device stops_record (cam.stop_record_output path)) >> raise e)
    modify (λ s. record s { record_encoder = true })

  unfoldable pub start_recording : P → Exec (Backend B W) Done
  unfolding require_running
  start_recording path =
      require_running >> (λ s. if s.record_encoder then pure tt s else start_record path s)

  -- The backend as the interface that the camera service takes.
  abbrev pub as_backend : CameraBackend A M P (Backend B W)
  as_backend = record {
    start = start;
    stop = stop;
    get_frame = get_frame;
    capture_sensor_native = capture_sensor_native;
    start_recording = start_recording;
    stop_recording = stop_recording;
    native_resolution = λ s. s.native_resolution;
  }
