-- ===== src/Vision/Service/Invariant.antt =====
-- What holds of the vision service at every moment of every schedule.
use mousinator.Prelude.{ℕ, ◌≤◌, ◌≡◌, String, true, false, List, ℤ, arith, All, is_some}
use mousinator.Prelude.Floats.{Floats}
use mousinator.Prelude.Exec.{Result, ok, err}
use mousinator.Vision.Detection.{Detection}
use mousinator.Vision.Tracking.{searching_snapshot}
use mousinator.Vision.Service.{Config, VisionState, start, commit_enable, disable, close}
use mousinator.Vision.Service.Loading.{finish_load}
use mousinator.Vision.Service.Worker.{publish, fail_active_generation}
use mousinator.Vision.Service.System.{
  Worker, looping, running, ended, Caller, requested, loaded, returned, System,
}

module _ {F D : Type 0} where
  -- A service that is not enabled shows no target, an enabled one has a detector, and a closed one
  -- is not enabled.
  pub record IsCoherent (s : VisionState F D) : Type 0 where
    pub quiet : s.enabled ≡ false → s.snapshot ≡ searching_snapshot
    pub armed : s.enabled ≡ true → is_some s.detector ≡ true
    pub final : s.is_shutdown ≡ true → s.enabled ≡ false

  -- A caller behind `_ensure_detector` has a detector; nobody holds a generation of the future.
  abbrev pub CallerFits : VisionState F D → Caller → Type 0
  CallerFits s (requested g) = g ≤ s.generation
  CallerFits s (loaded g) = (g ≤ s.generation) × (is_some s.detector ≡ true)
  CallerFits s returned = Unit

  abbrev pub WorkerFits : VisionState F D → Worker D → Type 0
  WorkerFits s looping = Unit
  WorkerFits s (running g d) = (g ≤ s.generation) × (is_some d ≡ true)
  WorkerFits s ended = Unit

  pub record IsValid (x : System F D) : Type 0 where
    pub coherent : IsCoherent x.service
    pub callers_fit : All (CallerFits x.service) x.callers
    pub worker_fits : WorkerFits x.service x.worker

  -- What every section keeps of the state before it.
  pub record Grows (s t : VisionState F D) : Type 0 where
    pub generation : s.generation ≤ t.generation
    pub detector : is_some s.detector ≡ true → is_some t.detector ≡ true
    pub is_shutdown : s.is_shutdown ≡ true → t.is_shutdown ≡ true

module _ {F D : Type 0} ⦃fl : Floats F⦄ where
  pub start-Grows : (s : VisionState F D) → Grows s (start s).1
  unfolding start
  start-Grows s = ground arith

  pub finish_load-Grows : (r : Result D) (s : VisionState F D) → Grows s (finish_load r s).1
  unfolding finish_load
  finish_load-Grows (ok d) s = ground arith
  finish_load-Grows (err e) s = ground arith

  pub commit_enable-Grows : (g : ℕ) (s : VisionState F D) → Grows s (commit_enable g s).1
  unfolding commit_enable
  commit_enable-Grows g s = ground arith

  pub disable-Grows : (s : VisionState F D) → Grows s (disable s).1
  unfolding disable
  disable-Grows s = ground arith

  pub close-Grows : (s : VisionState F D) → Grows s (close s)
  unfolding close
  close-Grows s = ground arith

  pub fail-Grows :
      (g : ℕ) (e : String) (s : VisionState F D) → Grows s (fail_active_generation g e s)
  unfolding fail_active_generation
  fail-Grows g e s = ground arith

  pub publish-Grows :
      (c : Config F) (g : ℕ) (ds : List (Detection F)) (w h : ℤ) (ms t : F) (s : VisionState F D)
      → Grows s (publish c g ds w h ms t s).1
  unfolding publish
  publish-Grows c g ds w h ms t s = ground arith

  pub start-IsCoherent : (s : VisionState F D) → IsCoherent s → IsCoherent (start s).1
  unfolding start
  start-IsCoherent s v = ground arith

  pub finish_load-IsCoherent :
      (r : Result D) (s : VisionState F D) → IsCoherent s → IsCoherent (finish_load r s).1
  unfolding finish_load
  finish_load-IsCoherent (ok d) s v = ground arith
  finish_load-IsCoherent (err e) s v = ground arith

  pub commit_enable-IsCoherent :
      (g : ℕ) (s : VisionState F D)
      → is_some s.detector ≡ true
      → IsCoherent s
      → IsCoherent (commit_enable g s).1
  unfolding commit_enable
  commit_enable-IsCoherent g s d v = ground arith

  pub disable-IsCoherent : (s : VisionState F D) → IsCoherent s → IsCoherent (disable s).1
  unfolding disable
  disable-IsCoherent s v = ground arith

  pub close-IsCoherent : (s : VisionState F D) → IsCoherent s → IsCoherent (close s)
  unfolding close
  close-IsCoherent s v = ground arith

  pub fail-IsCoherent :
      (g : ℕ) (e : String) (s : VisionState F D)
      → IsCoherent s
      → IsCoherent (fail_active_generation g e s)
  unfolding fail_active_generation
  fail-IsCoherent g e s v = ground arith

  pub publish-IsCoherent :
      (c : Config F) (g : ℕ) (ds : List (Detection F)) (w h : ℤ) (ms t : F) (s : VisionState F D)
      → IsCoherent s
      → IsCoherent (publish c g ds w h ms t s).1
  unfolding publish
  publish-IsCoherent c g ds w h ms t s v = ground arith
