-- ===== src/Tests/Server.antt =====
-- The theorems on the stream server with concrete frames and services.
use mousinator.Server.Streaming.{GoUp, mjpeg_frames-GoUp}
use mousinator.Server.Shutdown.{EndsClosed, main-EndsClosed}
use mousinator.Server.{Round, Program, mjpeg_frames, main}
use mousinator.Camera.Buffer.{jpeg_frame_buffer, writes, activates}
use mousinator.Camera.Service.{raised}
use mousinator.Prelude.Exec.{Result, ok, err, runtime_error}
use mousinator.Prelude.{◌≡◌, Done, ℕ, suc, refl, true, false, List, [], ◌∷◌}

-- Three rounds: a frame comes, nothing comes while the camera runs, two frames come.
abbrev rounds : List (Round ℕ)
rounds =
    record { calls = activates ∷ writes 10 ∷ []; unavailable = false; camera_running = true }
    ∷ record { calls = []; unavailable = false; camera_running = true }
    ∷ record { calls = writes 11 ∷ writes 12 ∷ []; unavailable = false; camera_running = true }
    ∷ []

mjpeg_frames_test : mjpeg_frames rounds jpeg_frame_buffer 0 ≡ ((1, 10) ∷ (2, 11) ∷ [])
unfolding mjpeg_frames
mjpeg_frames_test = refl

mjpeg_frames-GoUp_example : GoUp 0 (mjpeg_frames rounds jpeg_frame_buffer 0)
mjpeg_frames-GoUp_example = mjpeg_frames-GoUp rounds jpeg_frame_buffer 0

abbrev works : ℕ → Result Done × ℕ
works w = (ok tt, suc w)

abbrev fails : ℕ → Result Done × ℕ
fails w = (err (raised runtime_error "server"), w)

-- A program whose vision service fails as it is closed.
abbrev program : Program ℕ
program = record {
  start_service = works;
  start_vision = works;
  make_server = works;
  start_thread = works;
  wait = works;
  shutdown = works;
  server_close = works;
  join = works;
  close_vision = fails;
  close_service = works;
}

main_test : (main program 0).0 ≡ ok 1
unfolding main
main_test = refl

main-EndsClosed_example : EndsClosed (main program 0).0 (main program 0).1
main-EndsClosed_example = main-EndsClosed program 0

-- A server whose shutdown fails: neither service is closed.
failed_shutdown_test :
    (main (record program { shutdown = fails }) 0).0 ≡ err (raised runtime_error "server")
unfolding main
failed_shutdown_test = refl
