-- ===== src/Camera/Stored.antt =====
-- The service of host/camera/camera_service.py over the storage of host/camera/storage.py: what its
-- captures change on the disk.
use mathlib.Core.Path.{subst}
use mousinator.Prelude.{◌≡◌, refl, Bool, true, false, ◌||◌, not, none, List, [], inl, if_both, Done}
use mousinator.Prelude.Exec.{Result, ok, err, Exec, continue-lem, ◌>>=◌, ◌>>◌, pure}
use mousinator.Prelude.Text.{Text, codes}
use mousinator.Camera.Storage.{
  MediaPath, Frame, CaptureRecord, Change, Disk, Store, MediaStorage, on_disk, ensure_free_space,
  allocate_recording_path, save_capture,
}
use mousinator.Camera.Storage.Saving.{Saved, ensure_free_space-changes, save_capture-Saved}
use mousinator.Camera.Service.{
  CapturedFrame, CameraBackend, Media, CameraService, CaptureMode, manual, interval, SourceMode,
  sensor_native, video_frame, on_world, require_running, recorded, captured_frame, saved_frame,
  set_last_error, capture,
}

abbrev pub mode_text : CaptureMode → Text
mode_text manual = codes "manual"
mode_text interval = codes "interval"

abbrev pub source_text : SourceMode → Text
source_text sensor_native = codes "sensor_native"
source_text video_frame = codes "video_frame"

abbrev pub Metadata : Type 0
Metadata = List (Text × Text)

module _ {A T W : Type 0} (disk : Disk A T W) (m : MediaStorage) where
  -- The storage as the service uses it.
  abbrev pub stored_media : Media (Frame A) Metadata MediaPath CaptureRecord (Store W)
  unfolding ensure_free_space allocate_recording_path save_capture
  stored_media = record {
    min_free_bytes = m.min_free_bytes;
    free_bytes = on_disk disk disk.disk_usage;
    ensure_free_space = ensure_free_space disk m;
    allocate_recording_path = allocate_recording_path disk m none;
    save_capture = λ frame mode source metadata.
        save_capture disk m frame (mode_text mode) (source_text source) metadata none;
  }

-- A camera that does not write into the storage.
pub record IsQuiet {A M P W : Type 0} (backend : CameraBackend A M P (Store W)) : Type 0 where
  pub get_frame : (s : Store W) → (backend.get_frame s).1.changes ≡ s.changes
  pub capture_sensor_native :
      (s : Store W) → (backend.capture_sensor_native s).1.changes ≡ s.changes

-- What a call of the service has changed on the disk, for some metadata of the camera.
abbrev pub HasSaved :
    {W : Type 0} → List Change → Result CaptureRecord → CameraService MediaPath (Store W) → Type 0
HasSaved before r t = (metadata : Metadata) × Saved metadata before r t.world

module _ {A T W : Type 0} (disk : Disk A T W) (m : MediaStorage)
    (backend : CameraBackend (Frame A) Metadata MediaPath (Store W)) (quiet : IsQuiet backend) where
  -- A part that writes nothing may come before.
  then-HasSaved :
      {B : Type 0} (q : Exec (CameraService MediaPath (Store W)) B)
      (f : B → Exec (CameraService MediaPath (Store W)) CaptureRecord)
      → ((s : CameraService MediaPath (Store W)) → (q s).1.world.changes ≡ s.world.changes)
      → (s : CameraService MediaPath (Store W))
      → ((b : B) (t : CameraService MediaPath (Store W))
          → HasSaved t.world.changes (f b t).0 (f b t).1)
      → HasSaved s.world.changes ((q >>= f) s).0 ((q >>= f) s).1
  then-HasSaved q f still s next =
      continue-lem (HasSaved s.world.changes) (q s).0 f (q s).1 (λ e h. ([], inl (still s)))
        (λ b h. subst (λ c. HasSaved c (f b (q s).1).0 (f b (q s).1).1) (still s) (next b (q s).1))

  require_running-still :
      (s : CameraService MediaPath (Store W))
      → (require_running backend (stored_media disk m) s).1.world.changes ≡ s.world.changes
  unfolding stored_media
  require_running-still s =
      if_both {A = Result Done × CameraService MediaPath (Store W)}
        (λ x. x.1.world.changes ≡ s.world.changes) (not s.camera_running || s.shutdown) refl refl

  captured_frame-still :
      (b : Bool) (s : CameraService MediaPath (Store W))
      → (captured_frame backend (stored_media disk m) b s).1.world.changes ≡ s.world.changes
  captured_frame-still true s =
      continue-lem {S = CameraService MediaPath (Store W)}
        {B = CapturedFrame (Frame A) Metadata × SourceMode}
        (λ r t. t.world.changes ≡ s.world.changes) (backend.get_frame s.world).0 _ _
        (λ e h. quiet.get_frame s.world) (λ f h. quiet.get_frame s.world)
  captured_frame-still false s =
      continue-lem {S = CameraService MediaPath (Store W)}
        {B = CapturedFrame (Frame A) Metadata × SourceMode}
        (λ r t. t.world.changes ≡ s.world.changes) (backend.capture_sensor_native s.world).0 _ _
        (λ e h. quiet.capture_sensor_native s.world) (λ f h. quiet.capture_sensor_native s.world)

  saved_frame-HasSaved :
      (c : CaptureMode) (b : Bool) (s : CameraService MediaPath (Store W))
      → HasSaved s.world.changes
          (saved_frame backend (stored_media disk m) c b s).0
          (saved_frame backend (stored_media disk m) c b s).1
  unfolding stored_media
  saved_frame-HasSaved c b s =
      then-HasSaved (captured_frame backend (stored_media disk m) b) _ (captured_frame-still b) s
        (λ f t. (
          f.0.metadata,
          save_capture-Saved disk m f.0.array (mode_text c) (source_text f.1) f.0.metadata none
              t.world,
        ))

  -- The last error and what was returned last change nothing on the disk.
  settled-HasSaved :
      (before : List Change) (r : Result CaptureRecord) (t : CameraService MediaPath (Store W))
      → HasSaved before r t
      → let out =
          (recorded backend (stored_media disk m) (λ s. (r, t)) >>= λ r'.
          set_last_error backend (stored_media disk m) none >> pure r')
            t in
        HasSaved before out.0 out.1
  settled-HasSaved before (ok r) t h = h
  settled-HasSaved before (err e) t h = h

  -- A capture by the service changes the disk as a `save_capture` of the storage does, on every
  -- branch, if the camera itself writes nothing there: where it returned, the picture and then its row
  -- of the metadata are written, which agrees with the record that it returned; where it raised, none
  -- or the first of these changes are made.
  pub capture-HasSaved :
      (c : CaptureMode) (s : CameraService MediaPath (Store W))
      → HasSaved s.world.changes
          (capture backend (stored_media disk m) c s).0
          (capture backend (stored_media disk m) c s).1
  unfolding capture stored_media
  capture-HasSaved c s =
      then-HasSaved (require_running backend (stored_media disk m)) _ require_running-still s
        (λ u t.
          then-HasSaved (on_world backend (stored_media disk m) (ensure_free_space disk m)) _
            (λ s'. ensure_free_space-changes disk m s'.world) t
            (λ n t'.
              settled-HasSaved t'.world.changes
                (saved_frame backend (stored_media disk m) c t'.recording t').0
                (saved_frame backend (stored_media disk m) c t'.recording t').1
                (saved_frame-HasSaved c t'.recording t')))
