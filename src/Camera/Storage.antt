-- ===== src/Camera/Storage.antt =====
-- host/camera/storage.py over a disk and a clock that are parameters. `changes` is the record of what
-- was written. The metadata of the camera are read as the text that the CSV writer gives them.
pub mod Naming
pub mod Saving
use mousinator.Prelude.{
  ℕ, ℤ, pos, negsuc, zero, suc, ◌+◌, ◌*◌, ◌/◌, Done, String, Bool, true, false, ◌&&◌, ◌||◌, not,
  Option, none, some, List, [], ◌∷◌, ◌++◌, ltb, if◌then◌else◌,
}
use mousinator.Prelude.Exec.{
  Kind, value_error, runtime_error, storage_low, os_error, timeout_error, serial_exception,
  no_rounds, Exn, Result, ok, err, Exec, pure, raise, raise_if, finally_run, ◌>>=◌, ◌>>◌,
}
use mousinator.Prelude.Text.{Text, codes, eq_text, show_ℕ}

abbrev pub raised : Kind → String → Exn
raised k m = record { kind = k; message = m }

-- The classes below `OSError`.
abbrev pub is_os_error : Kind → Bool
is_os_error os_error = true
is_os_error timeout_error = true
is_os_error serial_exception = true
is_os_error _ = false

-- The two directories below the data directory.
pub data Folder : Type 0 where
  recordings raw_captures : Folder

abbrev pub folder_text : Folder → Text
folder_text recordings = codes "recordings/"
folder_text raw_captures = codes "captures/raw/"

pub record MediaPath : Type 0 where
  pub folder : Folder
  pub name : Text

-- `path.with_name(path.name + ".part")`
abbrev pub part_of : MediaPath → MediaPath
part_of p = record p { name = p.name ++ codes ".part" }

-- `path.relative_to(data_dir).as_posix()`
abbrev pub relative_to_data : MediaPath → Text
relative_to_data p = folder_text p.folder ++ p.name

-- A frame as the storage sees it: an array with its shape.
pub record Frame (A : Type 0) : Type 0 where
  pub array : A
  pub ndim : ℕ
  pub height : ℕ
  pub width : ℕ

pub record CaptureRecord : Type 0 where
  pub path : MediaPath
  pub relative_path : Text
  pub filename : Text
  pub timestamp : Text
  pub width : ℕ
  pub height : ℕ
  pub capture_mode : Text
  pub source_mode : Text

-- `CAPTURE_METADATA_FIELDS`
abbrev pub capture_metadata_fields : List Text
capture_metadata_fields =
    codes "filename"
    ∷ codes "timestamp"
    ∷ codes "width"
    ∷ codes "height"
    ∷ codes "capture_mode"
    ∷ codes "source_mode"
    ∷ codes "exposure_time_us"
    ∷ codes "analogue_gain"
    ∷ []

pub data Change : Type 0 where
  wrote_jpeg : MediaPath → Change
  replaced : MediaPath → MediaPath → Change
  -- The header and a row of the metadata file, noted when the file has taken them; what is still
  -- buffered may be lost by a flush that raises.
  wrote_header : Change
  wrote_row : List Text → Change

-- The disk and the clock over the state `W` of the world. `T` is a time with its zone or without.
-- `header` is the first row of the metadata file, where the file has one.
pub record Disk (A T W : Type 0) : Type 0 where
  pub exists : MediaPath → W → Bool
  pub disk_usage : W → Result ℕ × W
  pub has_pillow : W → Bool
  -- `Image.fromarray(frame).save(path, ...)` and `path.unlink(missing_ok=True)`
  pub save_jpeg : A → MediaPath → W → Result Done × W
  pub unlink : MediaPath → W → Result Done × W
  pub replace : MediaPath → MediaPath → W → Result Done × W
  pub metadata_exists : W → Bool
  pub header : W → Result (Option (List Text)) × W
  -- `open("a")`, `writer.writeheader()`, `writer.writerow(row)`, `flush()`, `os.fsync` and the close
  pub open_metadata : W → Result Done × W
  pub write_header : W → Result Done × W
  pub write_row : List Text → W → Result Done × W
  pub flush : W → Result Done × W
  pub fsync : W → Result Done × W
  pub close_metadata : W → Result Done × W
  pub now : W → T × W
  pub has_zone : T → Bool
  pub astimezone : T → T
  -- `strftime` of the two formats of the source, `microsecond` and `isoformat`
  pub recording_stamp : T → Text
  pub capture_stamp : T → Text
  pub microsecond : T → ℕ
  pub isoformat : T → Text

pub record Store (W : Type 0) : Type 0 where
  pub world : W
  pub changes : List Change

-- `format(n, "03d")`
abbrev pub padded : ℕ → Text
padded n = if ltb n 10 then 48 ∷ 48 ∷ show_ℕ n else if ltb n 100 then 48 ∷ show_ℕ n else show_ℕ n

-- The name that `_unique_path` tries at a count; the first has no number.
abbrev pub candidate : Folder → Text → Text → ℕ → MediaPath
candidate d stem suffix counter = record {
  folder = d;
  name = if ltb 0 counter then stem ++ 95 ∷ padded counter ++ suffix else stem ++ suffix;
}

abbrev pub one_of : Text → Text → Text → Bool
one_of t a b = eq_text t a || eq_text t b

-- `metadata.get(key, "")`
unfoldable pub metadata_value : Text → List (Text × Text) → Text
metadata_value key [] = []
metadata_value key ((k, v) ∷ rest) =
    let later = metadata_value key rest in if eq_text k key then v else later

unfoldable pub eq_header : List Text → List Text → Bool
eq_header [] [] = true
eq_header [] (y ∷ ys) = false
eq_header (x ∷ xs) [] = false
eq_header (x ∷ xs) (y ∷ ys) = eq_text x y && eq_header xs ys

abbrev pub row_of : CaptureRecord → List (Text × Text) → List Text
unfolding metadata_value
row_of r metadata =
    r.filename
    ∷ r.timestamp
    ∷ show_ℕ r.width
    ∷ show_ℕ r.height
    ∷ r.capture_mode
    ∷ r.source_mode
    ∷ metadata_value (codes "ExposureTime") metadata
    ∷ metadata_value (codes "AnalogueGain") metadata
    ∷ []

-- `min_free_bytes` and the rounds that a search for a free name may take.
pub record MediaStorage : Type 0 where
  pub min_free_bytes : ℕ
  pub rounds : ℕ

-- The constructor's check of the threshold.
unfoldable pub media_storage : ℤ → ℕ → Result MediaStorage
media_storage (pos n) rounds = ok (record { min_free_bytes = n; rounds = rounds })
media_storage (negsuc n) rounds = err (raised value_error "min_free_bytes must not be negative")

module _ {A T W : Type 0} (disk : Disk A T W) where
  -- A name is taken by a file or by one that is being written.
  abbrev pub taken : MediaPath → W → Bool
  taken p w = disk.exists p w || disk.exists (part_of p) w

  abbrev pub on_disk : {B : Type 0} → (W → Result B × W) → Exec (Store W) B
  on_disk m s = let (r, w) = m s.world in (r, record s { world = w })

  -- A change that succeeded is recorded.
  abbrev pub noted : Change → Store W → Result Done × W → Result Done × Store W
  noted c s (ok u, w) = (ok u, record { world = w; changes = s.changes ++ c ∷ [] })
  noted c s (err e, w) = (err e, record s { world = w })

  abbrev pub changing : Change → (W → Result Done × W) → Exec (Store W) Done
  changing c m s = noted c s (m s.world)

  -- A partial file is removed; what goes wrong at that counts unless it is an `OSError`.
  abbrev pub removed : Exn → Result Done × W → Result Done × W
  removed e (ok u, w) = (err e, w)
  removed e (err e', w) = (if is_os_error e'.kind then err e else err e', w)

  abbrev pub written : MediaPath → Result Done × W → Result Done × W
  written p (ok u, w) = (ok u, w)
  written p (err e, w) = removed e (disk.unlink p w)

  -- `_write_jpeg`
  abbrev pub write_jpeg : A → MediaPath → W → Result Done × W
  write_jpeg frame p w =
      if disk.has_pillow w
      then written p (disk.save_jpeg frame p w)
      else (err (raised runtime_error "Pillow is required to save camera captures"), w)

  unfoldable pub ensure_free_space : MediaStorage → Exec (Store W) ℕ
  ensure_free_space m = do
    free_bytes ← on_disk disk.disk_usage
    raise_if (ltb free_bytes m.min_free_bytes) (raised storage_low "insufficient free space")
    pure free_bytes

  -- `_unique_path` from a count on.
  unfoldable pub unique_path : ℕ → Folder → Text → Text → ℕ → W → Result MediaPath
  unique_path zero d stem suffix counter w = err (raised no_rounds "unique_path")
  unique_path (suc rounds) d stem suffix counter w =
      let later = unique_path rounds d stem suffix (suc counter) w in
      if taken (candidate d stem suffix counter) w
      then later
      else ok (candidate d stem suffix counter)

  abbrev pub zoned : T → T
  zoned t = if disk.has_zone t then t else disk.astimezone t

  -- `_normalize_timestamp`
  abbrev pub normalize_timestamp : Option T → Exec (Store W) T
  normalize_timestamp (some t) s = (ok (zoned t), s)
  normalize_timestamp none s =
      let (t, w) = disk.now s.world in (ok (zoned (disk.astimezone t)), record s { world = w })

  abbrev pub free_path : ℕ → Folder → Text → Text → Exec (Store W) MediaPath
  unfolding unique_path
  free_path rounds d stem suffix s = (unique_path rounds d stem suffix 0 s.world, s)

  unfoldable pub allocate_recording_path : MediaStorage → Option T → Exec (Store W) MediaPath
  allocate_recording_path m now = do
    timestamp ← normalize_timestamp now
    free_path m.rounds recordings (codes "sentry_" ++ disk.recording_stamp timestamp) (codes ".mp4")

  abbrev pub header_fits : Option (List Text) → Bool
  unfolding eq_header
  header_fits none = false
  header_fits (some h) = eq_header h capture_metadata_fields

  -- `_validate_metadata_header`
  abbrev pub validate_metadata_header : Exec (Store W) Bool
  validate_metadata_header s =
      if disk.metadata_exists s.world
      then (do
        h ← on_disk disk.header
        raise_if (not (header_fits h)) (raised runtime_error "unexpected capture metadata header")
        pure true)
          s
      else (ok false, s)

  abbrev pub capture_record : Frame A → Text → Text → T → MediaPath → CaptureRecord
  capture_record frame capture_mode source_mode timestamp p = record {
    path = p;
    relative_path = relative_to_data p;
    filename = p.name;
    timestamp = disk.isoformat timestamp;
    width = frame.width;
    height = frame.height;
    capture_mode = capture_mode;
    source_mode = source_mode;
  }

  -- The header of a metadata file that is new.
  abbrev pub write_header_if : Bool → Exec (Store W) Done
  write_header_if true = changing wrote_header disk.write_header
  write_header_if false = pure tt

  -- `_append_metadata`; the file is closed whatever raises.
  unfoldable pub append_metadata : Bool → List Text → Exec (Store W) Done
  append_metadata is_new row = do
    on_disk disk.open_metadata
    finally_run
        (do
          write_header_if is_new
          changing (wrote_row row) (disk.write_row row)
          on_disk disk.flush
          on_disk disk.fsync)
        (on_disk disk.close_metadata)

  -- The writes of a capture at a path that is free.
  unfoldable pub write_files : MediaPath → A → Bool → List Text → Exec (Store W) Done
  unfolding append_metadata
  write_files p frame is_new row = do
    changing (wrote_jpeg (part_of p)) (write_jpeg frame (part_of p))
    changing (replaced (part_of p) p) (disk.replace (part_of p) p)
    append_metadata is_new row

  unfoldable pub write_capture :
      MediaPath → A → Bool → CaptureRecord → List (Text × Text) → Exec (Store W) CaptureRecord
  unfolding write_files
  write_capture p frame metadata_exists r metadata = do
    write_files p frame (not metadata_exists) (row_of r metadata)
    pure r

  -- What `save_capture` does once it holds the lock.
  unfoldable pub save_locked :
      MediaStorage → Frame A → Text → Text → List (Text × Text) → T → Exec (Store W) CaptureRecord
  unfolding ensure_free_space write_capture
  save_locked m frame capture_mode source_mode metadata timestamp = do
    ensure_free_space m
    metadata_exists ← validate_metadata_header
    p ←
        free_path m.rounds raw_captures
          (disk.capture_stamp timestamp ++ padded (disk.microsecond timestamp / 1000))
          (codes ".jpg")
    write_capture p frame.array metadata_exists
        (capture_record frame capture_mode source_mode timestamp p) metadata

  -- The arguments that `save_capture` refuses.
  abbrev pub check_capture : Frame A → Text → Text → Exec (Store W) Done
  check_capture frame capture_mode source_mode = do
    raise_if (not (one_of capture_mode (codes "manual") (codes "interval")))
        (raised value_error "capture_mode must be manual or interval")
    raise_if (not (one_of source_mode (codes "sensor_native") (codes "video_frame")))
        (raised value_error "source_mode must be sensor_native or video_frame")
    raise_if (ltb frame.ndim 2)
        (raised value_error "camera frame must have at least two dimensions")

  unfoldable pub save_capture :
      MediaStorage
      → Frame A
      → Text
      → Text
      → List (Text × Text)
      → Option T
      → Exec (Store W) CaptureRecord
  unfolding save_locked
  save_capture m frame capture_mode source_mode metadata now = do
    check_capture frame capture_mode source_mode
    timestamp ← normalize_timestamp now
    save_locked m frame capture_mode source_mode metadata timestamp
