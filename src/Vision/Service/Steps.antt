-- ===== src/Vision/Service/Steps.antt =====
-- Every schedule of the vision service keeps its invariant.
use mousinator.Prelude.{
  ℕ, ◌≡◌, refl, String, Option, none, some, List, [], ◌∷◌, ℤ, arith, All, All-append, All-set,
  All-get_elem?, All-weaken, get_elem?, set, if_both, Option-cases, inl, inr,
}
use mousinator.Prelude.Floats.{Floats}
use mousinator.Prelude.Exec.{Result, ok, err}
use mousinator.Vision.Detection.{Detection}
use mousinator.Vision.Service.{Config, VisionState, request_enable, commit_enable}
use mousinator.Vision.Service.Loading.{finish_load}
use mousinator.Vision.Service.Worker.{publish, wake, fail_active_generation}
use mousinator.Vision.Service.Invariant.{
  IsCoherent, CallerFits, WorkerFits, IsValid, Grows, start-Grows, finish_load-Grows,
  commit_enable-Grows, disable-Grows, close-Grows, fail-Grows, publish-Grows, start-IsCoherent,
  finish_load-IsCoherent, commit_enable-IsCoherent, disable-IsCoherent, close-IsCoherent,
  fail-IsCoherent, publish-IsCoherent,
}
use mousinator.Vision.Service.System.{
  Worker, looping, running, ended, Caller, requested, loaded, returned, System, Event, start_thread,
  request, load, commit, stop, shut, wake_up, fail, infer, woken, after_publish, step, run,
  load_call, store_load, commit_call, wake_worker, fail_worker, infer_worker, requested_call,
}

module _ {F D : Type 0} where
  CallerFits-Grows :
      {s t : VisionState F D} → Grows s t → (k : Caller) → CallerFits s k → CallerFits t k
  CallerFits-Grows g (requested n) h = ground arith
  CallerFits-Grows g (loaded n) h = ground arith
  CallerFits-Grows g returned h = tt

  callers-Grows :
      {s t : VisionState F D} (cs : List Caller)
      → Grows s t
      → All (CallerFits s) cs
      → All (CallerFits t) cs
  callers-Grows {s} {t} cs g h = All-weaken (CallerFits s) (CallerFits t) cs (CallerFits-Grows g) h

  WorkerFits-Grows :
      {s t : VisionState F D} (w : Worker D) → Grows s t → WorkerFits s w → WorkerFits t w
  WorkerFits-Grows looping g h = tt
  WorkerFits-Grows (running n d) g h = ground arith
  WorkerFits-Grows ended g h = tt

  -- A new state of the service under the same threads.
  IsValid-Grows :
      (x : System F D) (t : VisionState F D)
      → IsValid x
      → Grows x.service t
      → IsCoherent t
      → IsValid (record x { service = t })
  IsValid-Grows x t v g k = record {
    coherent = k;
    callers_fit = callers-Grows x.callers g v.callers_fit;
    worker_fits = WorkerFits-Grows x.worker g v.worker_fits;
  }

  -- A caller goes on.
  IsValid-caller :
      (x : System F D) (i : ℕ) (k : Caller)
      → IsValid x
      → CallerFits x.service k
      → IsValid (record x { callers = set x.callers i k })
  IsValid-caller x i k v h = record {
    coherent = v.coherent;
    callers_fit = All-set (CallerFits x.service) x.callers i k v.callers_fit h;
    worker_fits = v.worker_fits;
  }

  -- The worker goes on.
  IsValid-worker :
      (x : System F D) (w : Worker D)
      → IsValid x
      → WorkerFits x.service w
      → IsValid (record x { worker = w })
  IsValid-worker x w v h = record {
    coherent = v.coherent;
    callers_fit = v.callers_fit;
    worker_fits = h;
  }

module _ {F D : Type 0} ⦃fl : Floats F⦄ where
  request-IsValid :
      (x : System F D)
      → IsValid x
      → IsValid (record x { callers = requested_call (request_enable x.service).0 x.callers })
  unfolding request_enable
  request-IsValid x v = record {
    coherent = v.coherent;
    callers_fit = ground (
      arith,
      All-append (CallerFits x.service) x.callers (requested x.service.generation ∷ [])
          v.callers_fit,
    );
    worker_fits = v.worker_fits;
  }

  wake-WorkerFits : (s : VisionState F D) → IsCoherent s → WorkerFits s (woken (wake s))
  unfolding wake
  wake-WorkerFits s v = ground arith

  wake-IsValid : (w : Worker D) (x : System F D) → IsValid x → IsValid (wake_worker w x)
  unfolding wake_worker
  wake-IsValid looping x v =
      if_both IsValid x.service.has_thread
        (IsValid-worker x (woken (wake x.service)) v (wake-WorkerFits x.service v.coherent)) v
  wake-IsValid _ x v = v

  stored-IsValid :
      (i : ℕ) (r : Result D) (g : ℕ) (x : System F D)
      → get_elem? x.callers i ≡ some (requested g)
      → IsValid x
      → IsValid (store_load i g r x)
  unfolding finish_load
  stored-IsValid i (ok d) g x e v =
      IsValid-caller (record x { service = (finish_load (ok d) x.service).1 }) i (loaded g)
        (IsValid-Grows x _ v (finish_load-Grows (ok d) x.service)
          (finish_load-IsCoherent (ok d) x.service v.coherent))
        (All-get_elem? (CallerFits x.service) x.callers i (requested g) v.callers_fit e, refl)
  stored-IsValid i (err er) g x e v =
      IsValid-caller (record x { service = (finish_load (err er) x.service).1 }) i returned
        (IsValid-Grows x _ v (finish_load-Grows (err er) x.service)
          (finish_load-IsCoherent (err er) x.service v.coherent))
        tt

  load_call-IsValid :
      (i : ℕ) (r : Result D) (k : Option Caller) (x : System F D)
      → get_elem? x.callers i ≡ k
      → IsValid x
      → IsValid (load_call i r k x)
  unfolding load_call
  load_call-IsValid i r none x e v = v
  load_call-IsValid i r (some (requested g)) x e v = elim (Option-cases x.service.detector) [
    | inl empty ↦ rw (empty, load_call) (stored-IsValid i r g x e v)
    | inr (d, full) ↦
        rw (full, load_call)
          (IsValid-caller x i (loaded g) v (
            All-get_elem? (CallerFits x.service) x.callers i (requested g) v.callers_fit e,
            ground arith,
          ))
  ]
  load_call-IsValid i r (some k) x e v = v

  commit_call-IsValid :
      (i : ℕ) (k : Option Caller) (x : System F D)
      → get_elem? x.callers i ≡ k
      → IsValid x
      → IsValid (commit_call i k x)
  unfolding commit_call
  commit_call-IsValid i none x e v = v
  commit_call-IsValid i (some (loaded g)) x e v =
      let fits : CallerFits x.service (loaded g) =
        All-get_elem? (CallerFits x.service) x.callers i (loaded g) v.callers_fit e in
      IsValid-caller (record x { service = (commit_enable g x.service).1 }) i returned
        (IsValid-Grows x _ v (commit_enable-Grows g x.service)
          (commit_enable-IsCoherent g x.service fits.1 v.coherent))
        tt
  commit_call-IsValid i (some k) x e v = v

  fail-IsValid :
      (w : Worker D) (e : String) (x : System F D) → IsValid x → IsValid (fail_worker w e x)
  unfolding fail_worker
  fail-IsValid (running g d) e x v =
      IsValid-worker (record x { service = fail_active_generation g e x.service }) looping
        (IsValid-Grows x _ v (fail-Grows g e x.service) (fail-IsCoherent g e x.service v.coherent))
        tt
  fail-IsValid _ e x v = v

module _ {F D : Type 0} ⦃fl : Floats F⦄ (c : Config F) where
  after-WorkerFits :
      {A : Type 0} (s : VisionState F D) (r : Result A) → WorkerFits s (after_publish r)
  after-WorkerFits s (ok a) = tt
  after-WorkerFits s (err e) = tt

  infer-IsValid :
      (w : Worker D) (ds : List (Detection F)) (wd ht : ℤ) (ms t : F) (x : System F D)
      → IsValid x
      → IsValid (infer_worker c w ds wd ht ms t x)
  unfolding infer_worker
  infer-IsValid (running g (some d)) ds wd ht ms t x v =
      let after = publish c g ds wd ht ms t x.service in
      IsValid-worker (record x { service = after.1 }) (after_publish after.0)
        (IsValid-Grows x _ v (publish-Grows c g ds wd ht ms t x.service)
          (publish-IsCoherent c g ds wd ht ms t x.service v.coherent))
        (after-WorkerFits after.1 after.0)
  infer-IsValid _ ds wd ht ms t x v = v

  pub step-IsValid : (x : System F D) (e : Event F D) → IsValid x → IsValid (step c x e)
  unfolding step
  step-IsValid x start_thread v =
      IsValid-Grows x _ v (start-Grows x.service) (start-IsCoherent x.service v.coherent)
  step-IsValid x request v = request-IsValid x v
  step-IsValid x (load i r) v = load_call-IsValid i r _ x refl v
  step-IsValid x (commit i) v = commit_call-IsValid i _ x refl v
  step-IsValid x stop v =
      IsValid-Grows x _ v (disable-Grows x.service) (disable-IsCoherent x.service v.coherent)
  step-IsValid x shut v =
      IsValid-Grows x _ v (close-Grows x.service) (close-IsCoherent x.service v.coherent)
  step-IsValid x wake_up v = wake-IsValid x.worker x v
  step-IsValid x (fail e) v = fail-IsValid x.worker e x v
  step-IsValid x (infer ds w h ms t) v = infer-IsValid x.worker ds w h ms t x v

  -- The invariant holds after every schedule, whatever the factory, the camera and the model do.
  pub run-IsValid : (x : System F D) (es : List (Event F D)) → IsValid x → IsValid (run c x es)
  unfolding run
  run-IsValid x [] v = v
  run-IsValid x (e ∷ es) v = run-IsValid (step c x e) es (step-IsValid x e v)
