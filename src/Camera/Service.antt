-- ===== src/Camera/Service.antt =====
-- The class `CameraService` of host/camera/camera_service.py over a backend and a storage that are
-- parameters. An operation is one step here, since the source holds its operation lock throughout;
-- `close` is two, as it takes that lock only once it has set the flag. What is logged is left out.
pub mod Holding
pub mod Runs
pub mod Validity
pub mod Capturing
pub mod Closing
use mousinator.Prelude.{
  ℕ, ℤ, pos, leb_ℤ, Done, String, Bool, true, false, ◌&&◌, ◌||◌, not, Option, none, some, List, [],
  ◌∷◌, is_some, if◌then◌else◌, ◌==◌,
}
use mousinator.Camera.Storage.{is_os_error}
use mousinator.Prelude.Floats.{Floats}
use mousinator.Prelude.Exec.{
  Kind, value_error, camera_unavailable, storage_low, os_error, runtime_error, Exn, Result, ok, err,
  Exec, pure, raise, raise_if, gets, modify, catch, ◌>>=◌, ◌>>◌,
}

abbrev pub raised : Kind → String → Exn
raised k m = record { kind = k; message = m }

pub record CapturedFrame (A M : Type 0) : Type 0 where
  pub array : A
  pub metadata : M

-- `CameraBackend`; `native_resolution` is its attribute.
pub record CameraBackend (A M P W : Type 0) : Type 0 where
  pub start : W → Result Done × W
  pub stop : W → Result Done × W
  pub get_frame : W → Result (CapturedFrame A M) × W
  pub capture_sensor_native : W → Result (CapturedFrame A M) × W
  pub start_recording : P → W → Result Done × W
  pub stop_recording : W → Result Done × W
  pub native_resolution : W → Option (ℕ × ℕ)

pub data CaptureMode : Type 0 where
  manual interval : CaptureMode

pub data SourceMode : Type 0 where
  sensor_native video_frame : SourceMode

-- What the service takes from the storage; `R` is its record of a capture.
pub record Media (A M P R W : Type 0) : Type 0 where
  pub min_free_bytes : ℕ
  pub free_bytes : W → Result ℕ × W
  pub ensure_free_space : W → Result ℕ × W
  pub allocate_recording_path : W → Result P × W
  pub save_capture : A → CaptureMode → SourceMode → M → W → Result R × W

-- `dataset_thread` says whether the thread has been made.
pub record CameraService (P W : Type 0) : Type 0 where
  pub world : W
  pub camera_running : Bool
  pub recording : Bool
  pub recording_path : Option P
  pub dataset_enabled : Bool
  pub last_error : Option String
  pub shutdown : Bool
  pub dataset_thread : Bool

-- `__init__`
abbrev pub camera_service : {P W : Type 0} → W → CameraService P W
camera_service w = record {
  world = w;
  camera_running = false;
  recording = false;
  recording_path = none;
  dataset_enabled = false;
  last_error = none;
  shutdown = false;
  dataset_thread = false;
}

-- `state["last_error"] or str(exc)`; an empty message counts as none.
abbrev pub or_else : Option String → String → Option String
or_else none m = some m
or_else (some m') m = if m' == "" then some m else some m'

-- The checks of the constructor's settings, in their order.
unfoldable pub check_settings : {F : Type 0} ⦃fl : Floats F⦄ → ℤ → ℤ → F → F → Result Done
check_settings ⦃fl⦄ width height fps capture_interval =
    if leb_ℤ width (pos 0) || leb_ℤ height (pos 0)
    then err (raised value_error "camera dimensions must be positive")
    else if fl.le fps (fl.literal 0 1)
    then err (raised value_error "fps must be positive")
    else if fl.le capture_interval (fl.literal 0 1)
    then err (raised value_error "capture interval must be positive")
    else ok tt

-- What the dataset worker does next: waits until it is woken, waits for the interval, or returns.
pub data Going : Type 0 where
  waits pauses returns : Going

pub record Status (P : Type 0) : Type 0 where
  pub camera_running : Bool
  pub recording : Bool
  pub recording_path : Option P
  pub dataset_capture_enabled : Bool
  pub native_resolution : Option (ℕ × ℕ)
  pub minimum_free_bytes : ℕ
  pub last_error : Option String
  pub free_bytes : Option ℕ

module _ {A M P R W : Type 0} (backend : CameraBackend A M P W) (media : Media A M P R W) where
  abbrev pub on_world : {B : Type 0} → (W → Result B × W) → Exec (CameraService P W) B
  on_world m s = let (r, w) = m s.world in (r, record s { world = w })

  abbrev pub set_last_error : Option String → Exec (CameraService P W) Done
  set_last_error e = modify (λ s. record s { last_error = e })

  -- `except Exception as exc: self._set_last_error(str(exc)); raise`
  abbrev pub recorded : {B : Type 0} → Exec (CameraService P W) B → Exec (CameraService P W) B
  recorded m = catch m (λ e. do set_last_error (some e.message); raise e)

  -- `_require_running`
  abbrev pub require_running : Exec (CameraService P W) Done
  require_running s =
      if not s.camera_running || s.shutdown
      then (err (raised camera_unavailable "camera is not running"), s)
      else (ok tt, s)

  abbrev pub started : CameraService P W → CameraService P W
  started s = record s { camera_running = true; last_error = none; dataset_thread = true }

  -- The rest of `start`, after its first look at the state.
  abbrev pub start_rest : Exec (CameraService P W) Done
  start_rest = do
    catch (on_world backend.start) (λ e. do
      set_last_error (some e.message)
      raise (raised camera_unavailable "camera failed to start"))
    modify started

  abbrev pub start_idle : Exec (CameraService P W) Done
  start_idle = do
    closed ← gets (λ s. s.shutdown)
    raise_if closed (raised camera_unavailable "camera service has been closed")
    start_rest

  unfoldable pub start : Exec (CameraService P W) Done
  start s = if s.camera_running then (ok tt, s) else start_idle s

  -- The part of `close` under the condition; it says whether the call goes on.
  unfoldable pub close_begin : CameraService P W → Bool × CameraService P W
  close_begin s =
      if s.shutdown
      then (false, s)
      else (true, record s { shutdown = true; dataset_enabled = false })

  -- What was raised, beside the state in which it is the last error.
  abbrev pub failing : Result Done × W → CameraService P W → Option Exn × CameraService P W
  failing (ok u, w) s = (none, record s { world = w })
  failing (err e, w) s = (some e, record s { world = w; last_error = some e.message })

  abbrev pub recording_over : Option Exn × CameraService P W → Option Exn × CameraService P W
  recording_over (e, s) = (e, record s { recording = false; recording_path = none })

  abbrev pub stop_recording_at_close : CameraService P W → Option Exn × CameraService P W
  stop_recording_at_close s =
      if s.recording then recording_over (failing (backend.stop_recording s.world) s) else (none, s)

  abbrev pub camera_over : Option Exn × CameraService P W → Option Exn × CameraService P W
  camera_over (e, s) = (e, record s { camera_running = false })

  abbrev pub stop_camera : CameraService P W → Option Exn × CameraService P W
  stop_camera s =
      if s.camera_running then camera_over (failing (backend.stop s.world) s) else (none, s)

  abbrev pub stop_error :
      Option Exn → Option Exn → CameraService P W → Result Done × CameraService P W
  stop_error none none s = (ok tt, s)
  stop_error none (some e) s = (err (raised runtime_error "camera shutdown failed"), s)
  stop_error (some e) later s = (err (raised runtime_error "camera shutdown failed"), s)

  -- The rest of `close`, once the dataset thread has ended.
  unfoldable pub close_finish : Exec (CameraService P W) Done
  close_finish s =
      let (one, s') = stop_recording_at_close s in
      let (two, s'') = stop_camera s' in stop_error one two s''

  -- The rest of `get_frame` and of the calls below is what comes after `_require_running`.
  abbrev pub get_frame_rest : Exec (CameraService P W) A
  get_frame_rest = do captured ← on_world backend.get_frame; pure captured.array

  unfoldable pub get_frame : Exec (CameraService P W) A
  get_frame = require_running >> get_frame_rest

  abbrev pub recording_begun : P → CameraService P W → CameraService P W
  recording_begun p s = record s { recording = true; recording_path = some p; last_error = none }

  abbrev pub begin_recording : Exec (CameraService P W) P
  begin_recording = do
    on_world media.ensure_free_space
    p ← on_world media.allocate_recording_path
    recorded (on_world (backend.start_recording p))
    modify (recording_begun p)
    pure p

  abbrev pub resume_recording : Bool → Option P → Exec (CameraService P W) P
  resume_recording true (some p) = pure p
  resume_recording true none = begin_recording
  resume_recording false o = begin_recording

  abbrev pub start_recording_rest : Exec (CameraService P W) P
  start_recording_rest = do
    is_recording ← gets (λ s. s.recording)
    p ← gets (λ s. s.recording_path)
    resume_recording is_recording p

  unfoldable pub start_recording : Exec (CameraService P W) P
  start_recording = require_running >> start_recording_rest

  abbrev pub recording_ended : CameraService P W → CameraService P W
  recording_ended s = record s { recording = false; recording_path = none; last_error = none }

  abbrev pub end_recording : Option P → Exec (CameraService P W) (Option P)
  end_recording p = do recorded (on_world backend.stop_recording); modify recording_ended; pure p

  abbrev pub stop_recording_rest : Exec (CameraService P W) (Option P)
  stop_recording_rest = do
    is_recording ← gets (λ s. s.recording)
    p ← gets (λ s. s.recording_path)
    if is_recording then end_recording p else pure none

  unfoldable pub stop_recording : Exec (CameraService P W) (Option P)
  stop_recording = require_running >> stop_recording_rest

  abbrev pub captured_frame : Bool → Exec (CameraService P W) (CapturedFrame A M × SourceMode)
  captured_frame true = do f ← on_world backend.get_frame; pure (f, video_frame)
  captured_frame false = do f ← on_world backend.capture_sensor_native; pure (f, sensor_native)

  abbrev pub saved_frame : CaptureMode → Bool → Exec (CameraService P W) R
  saved_frame capture_mode is_recording = do
    f ← captured_frame is_recording
    on_world (media.save_capture f.0.array capture_mode f.1 f.0.metadata)

  abbrev pub capture_rest : CaptureMode → Exec (CameraService P W) R
  capture_rest capture_mode = do
    on_world media.ensure_free_space
    is_recording ← gets (λ s. s.recording)
    r ← recorded (saved_frame capture_mode is_recording)
    set_last_error none
    pure r

  -- `_capture_locked`, which `capture` runs under the operation lock
  unfoldable pub capture : CaptureMode → Exec (CameraService P W) R
  capture capture_mode = require_running >> capture_rest capture_mode

  unfoldable pub start_dataset_capture : Exec (CameraService P W) Bool
  start_dataset_capture = do
    require_running
    changed ← gets (λ s. not s.dataset_enabled)
    modify (λ s. record s { dataset_enabled = true; last_error = none })
    pure changed

  unfoldable pub stop_dataset_capture : Exec (CameraService P W) Bool
  stop_dataset_capture s = (ok s.dataset_enabled, record s { dataset_enabled = false })

  abbrev pub after_error : Kind → String → CameraService P W → Going × CameraService P W
  after_error storage_low m s = (waits, record s { dataset_enabled = false; last_error = some m })
  after_error camera_unavailable m s = (returns, s)
  after_error _ m s = (if s.shutdown then returns else pauses, s)

  -- What the worker makes of how its capture ended.
  abbrev pub after_capture : Result R × CameraService P W → Going × CameraService P W
  after_capture (ok r, s) = (if s.shutdown then returns else pauses, s)
  after_capture (err e, s) = after_error e.kind e.message s

  -- A round of `_dataset_worker`, from where it is woken.
  unfoldable pub dataset_round : CameraService P W → Going × CameraService P W
  unfolding capture
  dataset_round s =
      if s.shutdown
      then (returns, s)
      else if not s.dataset_enabled
      then (waits, s)
      else after_capture (capture interval s)

  abbrev pub with_free_bytes : Result ℕ → Status P → Result (Status P)
  with_free_bytes (ok n) st = ok (record st { free_bytes = some n })
  with_free_bytes (err e) st =
      if is_os_error e.kind
      then ok (record st { last_error = or_else st.last_error e.message })
      else err e

  unfoldable pub status : Exec (CameraService P W) (Status P)
  status s =
      let (r, w) = media.free_bytes s.world in
      (
        with_free_bytes r (record {
          camera_running = s.camera_running;
          recording = s.recording;
          recording_path = s.recording_path;
          dataset_capture_enabled = s.dataset_enabled;
          native_resolution = backend.native_resolution s.world;
          minimum_free_bytes = media.min_free_bytes;
          last_error = s.last_error;
          free_bytes = none;
        }),
        record s { world = w },
      )
