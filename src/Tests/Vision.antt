-- ===== src/Tests/Vision.antt =====
-- The theorems on the vision parts at concrete inputs; floats count thousandths.
use mousinator.Prelude.{
  ℕ, ◌*◌, ◌+◌, ◌-◌, ◌≡◌, refl, String, true, false, none, some, List, [], ◌∷◌, ℤ, pos, ◌*ℤ◌, ◌≤◌,
  All, arith,
}
use mousinator.Prelude.Exec.{ok}
use mousinator.Vision.Detection.{Detection}
use mousinator.Vision.Detector.{mapping, Boxes, YoloDetector, detect_row, detect}
use mousinator.Vision.Detector.InFrame.{IsInFrame, detect-IsInFrame}
use mousinator.Vision.Selector.{TargetSelector, max_confidence, select}
use mousinator.Vision.Selector.Best.{SelectsBest, select-SelectsBest}
use mousinator.Vision.Tracking.{TrackingSnapshot, TrackingStateMachine, searching_snapshot, update}
use mousinator.Vision.Tracking.History
use mousinator.Vision.Service.{Config, VisionState, initial_state, vision_service, commit_enable}
use mousinator.Vision.Service.Loading.{Factory, finish_load, enable}
use mousinator.Vision.Service.Worker.{publish, fail_active_generation}
use mousinator.Vision.Service.Invariant.{IsCoherent, IsValid}
use mousinator.Vision.Service.System.{
  System, Event, step, run, start_thread, request, load, commit, wake_up, infer, shut, stop,
}
use mousinator.Vision.Service.Enabling.{Enables, enable_lem, new_system, always-IsValid}
use mousinator.Vision.Service.Staleness.{disable_cancels, close_final}
use mousinator.Vision.Service.Status.{IsSafe, vision_status, vision_status-IsSafe}
use mousinator.Tests.Fixed.{fixed, fixed-IsOrdered}

-- A mouse whose box is centred at x, with a confidence in thousandths.
abbrev mouse : ℕ → ℕ → Detection ℤ
mouse x confidence = record {
  class_id = pos 0;
  class_name = "mouse";
  confidence = pos confidence;
  x1 = pos (x * 1000 - 10000);
  y1 = pos 40000;
  x2 = pos (x * 1000 + 10000);
  y2 = pos 60000;
  tracking_id = none;
}

abbrev selector : TargetSelector ℤ
selector = record { target_class = "mouse"; confidence_threshold = pos 500 }

abbrev machine : TrackingStateMachine ℤ
machine = record { dead_zone_x = pos 100; dead_zone_y = pos 100; target_was_present = false }

-- One row that leaves the frame on the left and one that is too weak.
abbrev rows : Boxes ℤ
rows = record {
  xyxy =
      (pos 0 ∷ pos 10000 ∷ pos 50000 ∷ pos 60000 ∷ [])
      ∷ (pos 5000 ∷ pos 5000 ∷ pos 9000 ∷ pos 9000 ∷ [])
      ∷ [];
  conf = pos 900 ∷ pos 100 ∷ [];
  cls = pos 0 ∷ pos 0 ∷ [];
  ids = none;
}

abbrev detector : YoloDetector ℤ
detector = record {
  model = record { names = mapping ((pos 0, "mouse") ∷ []); predict = λ w h c n. ok (some rows) };
  confidence = pos 500;
  inference_size = pos 640;
  class_names = (pos 0, "mouse") ∷ [];
}

-- What `detect` finds in them in a frame of 200 by 100.
found : List (Detection ℤ)
found =
    record {
      class_id = pos 0;
      class_name = "mouse";
      confidence = pos 900;
      x1 = pos 0;
      y1 = pos 10000;
      x2 = pos 50000;
      y2 = pos 60000;
      tracking_id = none;
    }
    ∷ []

detect-found : detect detector (pos 100 ∷ pos 200 ∷ pos 3 ∷ []) ≡ ok found
unfolding detect found detect_row ◌*ℤ◌
detect-found = refl

detect-IsInFrame_example : All (IsInFrame detector 200 100) found
detect-IsInFrame_example = detect-IsInFrame fixed-IsOrdered detector 200 100 found detect-found

abbrev candidates : List (Detection ℤ)
candidates = mouse 20 600 ∷ mouse 60 900 ∷ mouse 90 900 ∷ mouse 150 100 ∷ []

select-SelectsBest_example : SelectsBest selector candidates (select selector candidates)
select-SelectsBest_example = select-SelectsBest fixed-IsOrdered selector candidates

select_test : select selector candidates ≡ some (mouse 60 900)
unfolding select max_confidence
select_test = refl

-- A target at the centre that was seen in the frame before.
abbrev seen_before : History.Event ℤ
seen_before = History.frame [] (some (mouse 20 600)) (pos 200) (pos 100)

update_history_example :
    (s : TrackingSnapshot ℤ) × ((update candidates
        (some (mouse 100 900))
        (pos 200)
        (pos 100)
        (History.run machine (History.restart ∷ seen_before ∷ []))).0
      ≡ ok s)
    × History.Reports machine true candidates (mouse 100 900) (pos 200) (pos 100) s
update_history_example =
    History.update_history machine (History.restart ∷ []) seen_before candidates (mouse 100 900)
      (pos 200) (pos 100) (omega arith, omega arith) (omega arith, omega arith)

-- The names of the model stand for the detector that the factory makes.
abbrev factory : Factory ℤ String
factory = record {
  make = λ path confidence size. ok path;
  validate_target_class = λ d class. ok tt;
}

abbrev config : Config ℤ
config = record {
  model_path = some "mouse.pt";
  target_class = "mouse";
  confidence = pos 500;
  detection_fps_limit = pos 5000;
  inference_size = pos 640;
  selector = selector;
}

abbrev fresh : VisionState ℤ String
fresh = initial_state machine

fresh-IsCoherent : IsCoherent fresh
fresh-IsCoherent = ground arith

enable_lem_example : Enables factory config fresh (enable factory config fresh)
enable_lem_example = enable_lem factory config fresh fresh-IsCoherent

-- An enable, a cycle that finds a mouse, and another one that `disable` overtakes.
abbrev schedule : List (Event ℤ String)
schedule =
    start_thread
    ∷ request
    ∷ load 0 (ok "mouse.pt")
    ∷ commit 0
    ∷ wake_up
    ∷ infer candidates (pos 200) (pos 100) (pos 40) (pos 1000)
    ∷ wake_up
    ∷ stop
    ∷ infer candidates (pos 200) (pos 100) (pos 40) (pos 1200)
    ∷ []

constructed :
    vision_service {D = String}
      (some "mouse.pt")
      "mouse"
      (pos 500)
      (pos 5000)
      (pos 640)
      (pos 100)
      (pos 100)
    ≡ ok (config, fresh)
unfolding vision_service
constructed = refl

always-IsValid_example : IsValid (run config (new_system fresh) schedule)
always-IsValid_example =
    always-IsValid (some "mouse.pt") "mouse" (pos 500) (pos 5000) (pos 640) (pos 100) (pos 100)
      config fresh schedule constructed

-- The worker runs a cycle of the generation 1.
abbrev before_stop : System ℤ String
before_stop =
    run config (new_system fresh)
      (start_thread ∷ request ∷ load 0 (ok "mouse.pt") ∷ commit 0 ∷ wake_up ∷ [])

before_stop-generation : 1 ≤ before_stop.service.generation
unfolding run finish_load
before_stop-generation = omega arith

disable_cancels_example :
    let s = (run config (step config before_stop stop) (wake_up ∷ [])).service in
    ((ds : List (Detection ℤ)) (w h : ℤ) (ms t : ℤ) → publish config 1 ds w h ms t s ≡ (ok [], s))
    × ((e : String) → fail_active_generation 1 e s ≡ s)
    × ((commit_enable 1 s).1 ≡ s)
disable_cancels_example = disable_cancels config 1 before_stop (wake_up ∷ []) before_stop-generation

close_final_example :
    let s =
      (run config
        (step config (run config (new_system fresh) schedule) shut)
        (request ∷ wake_up ∷ [])).service in
    (s.is_shutdown ≡ true) × (s.enabled ≡ false) × (s.snapshot ≡ searching_snapshot)
close_final_example =
    close_final config (run config (new_system fresh) schedule) (request ∷ wake_up ∷ [])
      always-IsValid_example

vision_status-IsSafe_example :
    IsSafe (vision_status config (run config (new_system fresh) schedule).service)
vision_status-IsSafe_example =
    vision_status-IsSafe (some "mouse.pt") "mouse" (pos 500) (pos 5000) (pos 640) (pos 100)
      (pos 100) config fresh schedule constructed
