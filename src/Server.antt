-- ===== src/Server.antt =====
-- The MJPEG stream and `main` of host/camera/stream_server.py, over the web server and the services,
-- which are parameters. `calls` is the record of the calls that `main` makes, the newest first.
pub mod Streaming
pub mod Shutdown
use mousinator.Prelude.Exec.{err, ok, Exec, Result, ◌>>◌, modify}
use mousinator.Prelude.{
  ◌||◌, some, none, ◌∷◌, List, if◌then◌else◌, [], Option, ℕ, Done, Bool, true, false,
}
use mousinator.Camera.Buffer.{JpegFrameBuffer, Call, perform_all, wait_for_frame}

-- A round of the loop of `_mjpeg_frames`: the calls on the frame buffer up to the next round, whether
-- `wait_for_jpeg` raises since the camera is not available, and whether the camera runs after the
-- wait.
pub record Round (B : Type 0) : Type 0 where
  pub calls : List (Call B)
  pub unavailable : Bool
  pub camera_running : Bool

module _ {B : Type 0} where
  -- What a round goes on with: the frames of the later rounds, by the number of the last frame.
  abbrev pub yielded : Option (ℕ × B) → Bool → ℕ → (ℕ → List (ℕ × B)) → List (ℕ × B)
  yielded none true sequence later = later sequence
  yielded none false sequence later = []
  yielded (some f) running sequence later = f ∷ later f.0

  -- The frames that `_mjpeg_frames` yields in these rounds, with their numbers.
  unfoldable pub mjpeg_frames : List (Round B) → JpegFrameBuffer B → ℕ → List (ℕ × B)
  unfolding wait_for_frame perform_all
  mjpeg_frames [] b sequence = []
  mjpeg_frames (r ∷ rs) b sequence =
      let later = mjpeg_frames rs (perform_all r.calls b) in
      if r.unavailable
      then []
      else yielded (wait_for_frame sequence r.calls b) r.camera_running sequence later

-- What `main` calls, over the state `W` of the world.
pub record Program (W : Type 0) : Type 0 where
  pub start_service : W → Result Done × W
  pub start_vision : W → Result Done × W
  -- `create_app` and `make_server`
  pub make_server : W → Result Done × W
  pub start_thread : W → Result Done × W
  -- `shutdown_event.wait()`
  pub wait : W → Result Done × W
  pub shutdown : W → Result Done × W
  pub server_close : W → Result Done × W
  pub join : W → Result Done × W
  pub close_vision : W → Result Done × W
  pub close_service : W → Result Done × W

pub data Step : Type 0 where
  starts_service starts_vision makes_server starts_thread waits : Step
  shuts_server closes_server joins_thread : Step
  closes_vision closes_service : Step

-- A call, and whether it raised.
pub record Made : Type 0 where
  pub step : Step
  pub raised : Bool

pub record Main (W : Type 0) : Type 0 where
  pub world : W
  pub calls : List Made
  pub has_server : Bool
  pub has_thread : Bool

abbrev pub is_err {ℓ} : {A : Type ℓ} → Result A → Bool
is_err (ok a) = false
is_err (err e) = true

module _ {W : Type 0} (program : Program W) where
  abbrev pub calling : Step → (W → Result Done × W) → Exec (Main W) Done
  calling c f s =
      let (r, w) = f s.world in
      (r, record s { world = w; calls = record { step = c; raised = is_err r } ∷ s.calls })

  -- The body of the `try`.
  abbrev pub main_body : Exec (Main W) Done
  main_body = do
    calling starts_service program.start_service
    calling starts_vision program.start_vision
    calling makes_server program.make_server
    modify (λ s. record s { has_server = true; has_thread = true })
    calling starts_thread program.start_thread
    calling waits program.wait

  -- The end of the server and of its thread, in the `finally` and outside any `try` there.
  abbrev pub shut_server : Exec (Main W) Done
  shut_server s =
      if s.has_server
      then (do calling shuts_server program.shutdown; calling closes_server program.server_close) s
      else (ok tt, s)

  abbrev pub join_thread : Exec (Main W) Done
  join_thread s = if s.has_thread then calling joins_thread program.join s else (ok tt, s)

  -- The two closes after the body ended with `r`, and the exit code; their exceptions are only kept.
  abbrev pub close_all : Result Done → Exec (Main W) ℕ
  close_all r s =
      let (v, t) = calling closes_vision program.close_vision s in
      let (c, u) = calling closes_service program.close_service t in
      (ok (if is_err r || is_err v || is_err c then 1 else 0), u)

  unfoldable pub main : W → Result ℕ × Main W
  main w =
      let (r, s) =
        main_body (record { world = w; calls = []; has_server = false; has_thread = false }) in
      (shut_server >> join_thread >> close_all r) s
