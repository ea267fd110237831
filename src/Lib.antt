-- ===== src/Lib.antt =====
-- The host side of the sentry: a camera, a detector of mice, and a motor controller on USB.
--
-- Parts and files (paths from the repository's root):
-- * Vision models host/vision. Detection, Detector, Selector and Tracking are detector.py,
--   target_selector.py and tracking_state.py, a function for each method. Service is
--   vision_service.py: the record VisionState has the attributes of VisionService, and every section
--   under its state lock is a function (request_enable and commit_enable are the first and the last
--   section of enable). Service/Loading is _ensure_detector, Service/Worker the sections of the
--   worker thread. Service/System puts the threads together: one worker, any number of enable calls,
--   and a schedule as a list of sections. Service/Status is the method status. The
--   detector that the service loads is an object of a type D.
-- * Mcu models host/sentry_mcu.py. Pattern is the fragment of regular expressions that its
--   patterns use, Messages its patterns and dataclasses, Readings what a match becomes, Client the
--   methods of SentryMcu, Motor the polling loops, Runs the two motor tests, Cli the actions of main.
--   StateLine is protocol_emit_state of src/protocol.c, which writes what the client reads.
-- * Camera models host/camera: Storage is storage.py, Service is camera_service.py, and Buffer and
--   Backend the two classes of picamera2_backend.py. Service/Holding takes each call that
--   holds the operation lock in two parts, and Service/Runs puts them in a sequence with the sections
--   under the state lock alone and the two parts of close; Stored gives the service the storage;
--   Backend/Stopping puts calls on the backend in a sequence.
-- * Server models host/camera/stream_server.py: the frames that the MJPEG stream yields from the
--   frame buffer, and main, which starts and closes the two services.
-- * Tools models tools/. Labels is what the tools share on label files. BoxEditor is
--   correct_mouse_boxes.py: Boxes its label files, Editor the class with the mouse callback and the
--   editing keys, Session the queue of main. LabelCheck and FinalLabels are
--   build_final_mouse_labels_v2.py, CleanUp is cleanup_mouse_positives.py (UnionFind the class, Scan
--   the rest of main), AutoLabel what auto_label_mouse.py makes of the detections of an image, Review
--   review_mouse_annotations.py without the order of its queue, and Split build_mouse_yolo_v1.py. The
--   tools hand files to each other: CleanUp keeps images, AutoLabel proposes boxes, Review decides,
--   BoxEditor corrects, FinalLabels collects and Split divides the dataset.
-- * Prelude has the shared types and lemmas: Exec for calls that change a state and may raise,
--   Floats for the operations on floats, Text for ASCII text as a list of codes.
-- * Tests has concrete inputs: a float instance that counts thousandths, a device, a disk, a camera,
--   label files.
--
-- The vision service reads frames of the camera service and its state is shown by the stream server;
-- the motor controller is a program of its own. Nothing couples vision to the motors yet.
--
-- Parameters, since their code is not in the repository: the model with its names and its predict,
-- the serial port and the clock, the disk, the camera with Picamera2, the image files with their hashes
-- and the texts of files, a shuffle (which keeps the groups, IsShuffle), the web server; what Python
-- reads as a number in a text or prints with six decimals. Their laws are hypotheses: floats satisfy
-- IsOrdered (an order on the values that are no NaN), a port with a clock satisfies IsClock (the
-- clock does not go back, a sleep lasts as long as it is asked to, and the port raises no exception of
-- the kind no_rounds), and a camera satisfies IsQuiet (it does not write into the storage).
--
-- Rounds: the loops of wait_for_stop and wait_for_home get two more rounds than the timeout has
-- pauses, which is enough for any clock as above, since a round that is not the last sleeps for a
-- pause. The sending loops get two more rounds than the duration has refresh intervals,
-- since a round that is not one of the last two sleeps for such an interval. The search for a free
-- name takes its number of rounds from the MediaStorage record, and needs one more than there are
-- taken names before the free one. A loop whose rounds run out raises no_rounds, a kind of its own.
-- The loops of the union-find get as many rounds as there are near pairs, and the suppression of
-- proposals as many as there are proposals; both are proved to be enough.
-- Times in Mcu are whole nanoseconds.
--
-- Other threads get into a call of the camera service between its first look at the state and its
-- rest. Its rest is one step, at any later time: but for the last error it reads and writes only
-- camera_running, recording and its path, which no other thread writes meanwhile. The rest of a round
-- of the worker also reads the closing flag and turns the dataset capture off where storage is low.
--
-- A duration of a motor test is finite, or endless where it is infinite or no number; an endless
-- segment has a number of rounds after which it raises no_rounds in place of the interrupt that ends
-- it.
--
-- Left out: what is printed or logged, but for the messages on tracking transitions; the
-- interpolated parts of exception messages; the routes and the arguments of the stream server, the other
-- tools on datasets, the training scripts and the experiments; the drawing of windows and the formats of CSV
-- files; the firmware but for the state line.
pub mod Prelude
pub mod Tools
pub mod Vision
pub mod Camera
pub mod Mcu
pub mod Tests
pub mod Server
