-- ===== src/Vision/Service/System.antt =====
-- The vision service with its threads: the worker and any number of callers. A schedule is a list
-- of events, each one section of one thread; the locks make a section atomic.
use mousinator.Prelude.{
  ℕ, String, Option, none, some, List, [], ◌∷◌, ◌++◌, ℤ, get_elem?, set, if◌then◌else◌,
}
use mousinator.Prelude.Floats.{Floats}
use mousinator.Prelude.Exec.{Result, ok, err}
use mousinator.Vision.Detection.{Detection}
use mousinator.Vision.Service.{
  Config, VisionState, start, request_enable, commit_enable, disable, close,
}
use mousinator.Vision.Service.Loading.{finish_load}
use mousinator.Vision.Service.Worker.{
  Wake, waits, ends, cycle, wake, fail_active_generation, publish,
}

-- Where the worker stands: at the top of its loop, in a cycle with the generation and the detector
-- that it took, or at its end.
pub data Worker (D : Type 0) : Type 0 where
  looping : Worker D
  running : ℕ → Option D → Worker D
  ended : Worker D

-- Where a call of `enable` stands: behind its first section, behind `_ensure_detector`, or returned.
pub data Caller : Type 0 where
  requested : ℕ → Caller
  loaded : ℕ → Caller
  returned : Caller

pub record System (F D : Type 0) : Type 0 where
  pub service : VisionState F D
  pub worker : Worker D
  pub callers : List Caller

-- One section. `load` and `commit` name a caller; `load` has the outcome of the factory, `infer`
-- that of the camera and the model, with the frame's size and the times.
pub data Event (F D : Type 0) : Type 0 where
  start_thread : Event F D
  request : Event F D
  load : ℕ → Result D → Event F D
  commit : ℕ → Event F D
  stop : Event F D
  shut : Event F D
  wake_up : Event F D
  fail : String → Event F D
  infer : List (Detection F) → ℤ → ℤ → F → F → Event F D

abbrev pub requested_call : Result (Option ℕ) → List Caller → List Caller
requested_call (ok (some g)) cs = cs ++ requested g ∷ []
requested_call _ cs = cs

abbrev pub woken : {D : Type 0} → Wake D → Worker D
woken waits = looping
woken ends = ended
woken (cycle g d) = running g d

-- An exception that leaves the section ends the thread.
abbrev pub after_publish : {A D : Type 0} → Result A → Worker D
after_publish (ok _) = looping
after_publish (err _) = ended

module _ {F D : Type 0} ⦃fl : Floats F⦄ where
  -- The outcome of a load, stored; the caller goes on or has its exception.
  abbrev pub store_load : ℕ → ℕ → Result D → System F D → System F D
  store_load i g (ok d) x = record x {
    service = (finish_load (ok d) x.service).1;
    callers = set x.callers i (loaded g);
  }
  store_load i g (err e) x = record x {
    service = (finish_load (err e) x.service).1;
    callers = set x.callers i returned;
  }

  -- `_ensure_detector` keeps a detector that is there, also one that another caller has loaded.
  unfoldable pub load_call : ℕ → Result D → Option Caller → System F D → System F D
  load_call i r (some (requested g)) x = elim x.service.detector [
    | some _ ↦ record x { callers = set x.callers i (loaded g) }
    | none ↦ store_load i g r x
  ]
  load_call i r _ x = x

  unfoldable pub commit_call : ℕ → Option Caller → System F D → System F D
  unfolding commit_enable
  commit_call i (some (loaded g)) x = record x {
    service = (commit_enable g x.service).1;
    callers = set x.callers i returned;
  }
  commit_call i _ x = x

  unfoldable pub wake_worker : Worker D → System F D → System F D
  unfolding wake
  wake_worker looping x =
      if x.service.has_thread then record x { worker = woken (wake x.service) } else x
  wake_worker _ x = x

  unfoldable pub fail_worker : Worker D → String → System F D → System F D
  unfolding fail_active_generation
  fail_worker (running g d) error x = record x {
    service = fail_active_generation g error x.service;
    worker = looping;
  }
  fail_worker _ error x = x

module _ {F D : Type 0} ⦃fl : Floats F⦄ (c : Config F) where
  unfoldable pub infer_worker :
      Worker D → List (Detection F) → ℤ → ℤ → F → F → System F D → System F D
  unfolding publish
  infer_worker (running g (some d)) ds w h ms completed x =
      let (r, s) = publish c g ds w h ms completed x.service in
      record x { service = s; worker = after_publish r }
  infer_worker _ ds w h ms completed x = x

  unfoldable pub step : System F D → Event F D → System F D
  unfolding start request_enable load_call commit_call disable close wake_worker fail_worker
      infer_worker
  step x start_thread = record x { service = (start x.service).1 }
  step x request = record x { callers = requested_call (request_enable x.service).0 x.callers }
  step x (load i r) = load_call i r (get_elem? x.callers i) x
  step x (commit i) = commit_call i (get_elem? x.callers i) x
  step x stop = record x { service = (disable x.service).1 }
  step x shut = record x { service = close x.service }
  step x wake_up = wake_worker x.worker x
  step x (fail error) = fail_worker x.worker error x
  step x (infer ds w h ms completed) = infer_worker x.worker ds w h ms completed x

  unfoldable pub run : System F D → List (Event F D) → System F D
  unfolding step
  run x [] = x
  run x (e ∷ es) = run (step x e) es
