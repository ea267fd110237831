-- ===== src/Tests/Backend.antt =====
-- The theorems on the Picamera2 backend with a concrete camera.
use mousinator.Camera.Backend.Validity.{start-StartsOrRollsBack, StartsOrRollsBack}
use mousinator.Camera.Buffer.{activate, deactivate}
use mousinator.Prelude.Exec.{Result, ok, err, runtime_error}
use mousinator.Camera.Service.{CapturedFrame, raised}
use mousinator.Camera.Backend.Stopping.{
  take_native, begin_record, stop-IsShut, start_camera, IsShut, Operation, run, step,
}
use mousinator.Camera.Backend.{
  picamera2_backend, stop_stream_encoder, require_running, start_stream_encoder, Backend, Picamera2,
  start, stop, start_recording, capture_sensor_native,
}
use mousinator.Prelude.{
  ◌≡◌, eqb, if◌then◌else◌, if◌then◌else◌, Done, ℕ, refl, true, none, List, [], ◌∷◌,
}

abbrev frame : CapturedFrame ℕ ℕ
frame = record { array = 1; metadata = 2 }

-- A camera whose start of the stream encoder and whose stop raise where the world is 1.
abbrev fails : ℕ → Result Done × ℕ
fails w = if eqb w 1 then (err (raised runtime_error "camera"), w) else (ok tt, w)

abbrev works : ℕ → Result Done × ℕ
works w = (ok tt, w)

abbrev camera : Picamera2 ℕ ℕ ℕ ℕ
camera = record {
  create = works;
  sensor_modes = λ w. (0, 10) ∷ (640, 480) ∷ (1280, 720) ∷ [];
  sensor_resolution = λ w. none;
  create_video_configuration = works;
  create_still_configuration = λ size w. (ok tt, w);
  configure = works;
  start = works;
  stop = fails;
  close = works;
  capture_arrays = λ w. (ok frame, w);
  switch_mode_and_capture_arrays = λ w. (ok frame, w);
  make_stream_encoder = works;
  start_stream_encoder = fails;
  stop_stream_encoder = works;
  make_record_encoder = λ path w. (ok tt, w);
  start_record_encoder = λ path w. (ok tt, w);
  stop_record_output = λ path w. (ok tt, w);
  stop_record_encoder = works;
}

abbrev new_backend : Backend ℕ ℕ
new_backend = picamera2_backend 1

start-StartsOrRollsBack_example :
    StartsOrRollsBack new_backend.calls (start camera new_backend).0 (start camera new_backend).1
start-StartsOrRollsBack_example = start-StartsOrRollsBack camera new_backend (record {
  not_running = refl;
  no_camera = refl;
  no_stream = refl;
  no_recording = refl;
  no_frames = refl;
})

-- It is the second case.
rolled_back_test : (start camera new_backend).0 ≡ err (raised runtime_error "camera")
unfolding start start_stream_encoder require_running activate deactivate
rolled_back_test = refl

abbrev session : List (Operation ℕ)
session = start_camera ∷ begin_record 7 ∷ take_native ∷ []

stop-IsShut_example :
    IsShut
      (run camera session (picamera2_backend {B = ℕ} 0))
      (stop camera (run camera session (picamera2_backend {B = ℕ} 0))).1
stop-IsShut_example = stop-IsShut camera session 0

-- A camera was set and records at that stop.
session_test : (run camera session (picamera2_backend {B = ℕ} 0)).record_encoder ≡ true
unfolding run step start start_recording capture_sensor_native start_stream_encoder
    stop_stream_encoder require_running activate deactivate
session_test = refl
