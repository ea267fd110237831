-- ===== src/Tests/Camera.antt =====
-- The theorems on the camera at concrete inputs: a camera that always works, a disk with one file,
-- and a storage that is low.
use mousinator.Prelude.{ℕ, ◌+◌, ◌≡◌, refl, Done, true, none, some, List, [], ◌∷◌, arith}
use mousinator.Prelude.Exec.{ok}
use mousinator.Prelude.Text.{Text, codes, eq_text}
use mousinator.Camera.Storage.{
  MediaPath, raw_captures, Frame, Disk, Store, MediaStorage, capture_metadata_fields, candidate,
  unique_path, save_capture,
}
use mousinator.Camera.Storage.Naming.{IsFirstFree, unique_path-IsFirstFree}
use mousinator.Camera.Stored.{Metadata, IsQuiet, HasSaved, stored_media, capture-HasSaved}
use mousinator.Camera.Buffer.{
  jpeg_frame_buffer, Call, writes, activates, shuts_down, wait_for_frame,
}
use mousinator.Camera.Buffer.Delivery.{Delivers, wait_for_frame-Delivers}
use mousinator.Camera.Service.{CameraBackend, Media, CameraService, camera_service, manual, capture}
use mousinator.Camera.Service.Capturing.{OnlyCaptures, capture_lem}
use mousinator.Camera.Service.Validity.{IsValid}
use mousinator.Camera.Service.Holding.{starting, starting_recording, working}
use mousinator.Camera.Service.Runs.Validity.{camera_always-IsValid}
use mousinator.Camera.Service.Runs.Closing.{IsClosed, camera_close_final}
use mousinator.Camera.Service.Runs.{
  Event, begins, ends, starts_dataset, begins_close, finishes_close, new_system, step, run,
}

-- The world counts the writes; one capture is there already.
abbrev disk : Disk Done ℕ ℕ
disk = record {
  exists = λ p w. eq_text p.name (codes "20260102_030405_006.jpg");
  disk_usage = λ w. (ok 5000, w);
  has_pillow = λ w. true;
  save_jpeg = λ a p w. (ok tt, w + 1);
  unlink = λ p w. (ok tt, w + 1);
  replace = λ p q w. (ok tt, w + 1);
  metadata_exists = λ w. true;
  header = λ w. (ok (some capture_metadata_fields), w);
  open_metadata = λ w. (ok tt, w);
  write_header = λ w. (ok tt, w + 1);
  write_row = λ row w. (ok tt, w + 1);
  flush = λ w. (ok tt, w);
  fsync = λ w. (ok tt, w);
  close_metadata = λ w. (ok tt, w);
  now = λ w. (6000, w);
  has_zone = λ t. true;
  astimezone = λ t. t;
  recording_stamp = λ t. codes "2026-01-02_030405";
  capture_stamp = λ t. codes "20260102_030405_";
  microsecond = λ t. t;
  isoformat = λ t. codes "2026-01-02T03:04:05.006+00:00";
}

abbrev stem : Text
stem = codes "20260102_030405_006"

unique_path-IsFirstFree_example :
    (found : ℕ) × (unique_path disk 5 raw_captures stem (codes ".jpg") 0 0
      ≡ ok (candidate raw_captures stem (codes ".jpg") found))
    × IsFirstFree disk raw_captures stem (codes ".jpg") 0 0 found
unique_path-IsFirstFree_example =
    unique_path-IsFirstFree disk raw_captures stem (codes ".jpg") 0 5 1 0 refl (omega arith)

abbrev storage : MediaStorage
storage = record { min_free_bytes = 1000; rounds = 5 }

abbrev frame : Frame Done
frame = record { array = tt; ndim = 3; height = 480; width = 640 }

abbrev store : Store ℕ
store = record { world = 0; changes = [] }

abbrev backend : CameraBackend Done Done ℕ ℕ
backend = record {
  start = λ w. (ok tt, w + 1);
  stop = λ w. (ok tt, w + 1);
  get_frame = λ w. (ok (record { array = tt; metadata = tt }), w);
  capture_sensor_native = λ w. (ok (record { array = tt; metadata = tt }), w);
  start_recording = λ p w. (ok tt, w + 1);
  stop_recording = λ w. (ok tt, w + 1);
  native_resolution = λ w. some (4608, 2592);
}

abbrev roomy : Media Done Done ℕ ℕ ℕ
roomy = record {
  min_free_bytes = 1000;
  free_bytes = λ w. (ok 5000, w);
  ensure_free_space = λ w. (ok 5000, w);
  allocate_recording_path = λ w. (ok w, w + 1);
  save_capture = λ a c m x w. (ok w, w + 1);
}

abbrev capturing : CameraService ℕ ℕ
capturing = record (camera_service 0) {
  camera_running = true;
  dataset_enabled = true;
  dataset_thread = true;
}

capture_lem_example :
    OnlyCaptures capturing
      (capture backend roomy manual capturing).0
      (capture backend roomy manual capturing).1
capture_lem_example = capture_lem backend roomy manual capturing

-- A `close` begins while a picture is taken, and the picture is finished.
abbrev opening : List Event
opening =
    begins starting
    ∷ ends
    ∷ starts_dataset
    ∷ begins starting_recording
    ∷ ends
    ∷ begins working
    ∷ begins_close
    ∷ ends
    ∷ []

abbrev reopening : List Event
reopening = begins starting ∷ ends ∷ begins starting_recording ∷ ends ∷ starts_dataset ∷ []

camera_always-IsValid_example : IsValid (run backend roomy opening (new_system 0)).service
camera_always-IsValid_example = camera_always-IsValid backend roomy opening 0

opening-free : (run backend roomy opening (new_system 0)).held ≡ none
unfolding run
opening-free = refl

opening-closing : (run backend roomy opening (new_system 0)).closing ≡ true
unfolding run
opening-closing = refl

camera_close_final_example :
    IsClosed
      (run backend roomy reopening
        (step backend roomy finishes_close (run backend roomy opening (new_system 0)))).service
camera_close_final_example =
    camera_close_final backend roomy opening reopening 0 opening-closing opening-free

abbrev stream : List (Call ℕ)
stream = writes 7 ∷ activates ∷ writes 8 ∷ writes 9 ∷ shuts_down ∷ []

wait_for_frame-Delivers_example :
    Delivers 1 stream jpeg_frame_buffer (wait_for_frame 1 stream jpeg_frame_buffer)
wait_for_frame-Delivers_example = wait_for_frame-Delivers 1 stream jpeg_frame_buffer refl

wait_for_frame_test : wait_for_frame 1 stream jpeg_frame_buffer ≡ some (2, 9)
unfolding wait_for_frame
wait_for_frame_test = refl

abbrev still_camera : CameraBackend (Frame Done) Metadata MediaPath (Store ℕ)
still_camera = record {
  start = λ s. (ok tt, s);
  stop = λ s. (ok tt, s);
  get_frame = λ s. (ok (record { array = frame; metadata = [] }), s);
  capture_sensor_native =
      λ s. (ok (record { array = frame; metadata = (codes "AnalogueGain", codes "2.0") ∷ [] }), s);
  start_recording = λ p s. (ok tt, s);
  stop_recording = λ s. (ok tt, s);
  native_resolution = λ s. none;
}

still_camera-IsQuiet : IsQuiet still_camera
still_camera-IsQuiet = record { get_frame = λ s. refl; capture_sensor_native = λ s. refl }

abbrev still_service : CameraService MediaPath (Store ℕ)
still_service = record (camera_service store) { camera_running = true; dataset_thread = true }

capture-HasSaved_example :
    HasSaved []
      (capture still_camera (stored_media disk storage) manual still_service).0
      (capture still_camera (stored_media disk storage) manual still_service).1
capture-HasSaved_example =
    capture-HasSaved disk storage still_camera still_camera-IsQuiet manual still_service
