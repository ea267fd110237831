-- ===== src/Vision/Service/Staleness.antt =====
-- A cycle of the worker, or a request to enable, that another thread has overtaken has no effect.
use mousinator.Prelude.{
  ℕ, ◌≤◌, ◌<◌, ◌≡◌, String, true, false, Option, some, List, [], ◌∷◌, ℤ, arith,
}
use mousinator.Prelude.Floats.{Floats}
use mousinator.Prelude.Exec.{Result, ok, err}
use mousinator.Vision.Detection.{Detection}
use mousinator.Vision.Tracking.{searching_snapshot}
use mousinator.Vision.Service.{Config, VisionState, commit_enable, disable, close}
use mousinator.Vision.Service.Worker.{publish, fail_active_generation}
use mousinator.Vision.Service.Invariant.{
  IsValid, Grows, start-Grows, finish_load-Grows, commit_enable-Grows, disable-Grows, close-Grows,
  fail-Grows, publish-Grows,
}
use mousinator.Vision.Service.Steps.{run-IsValid, step-IsValid}
use mousinator.Vision.Service.System.{
  Worker, looping, running, Caller, requested, loaded, System, Event, start_thread, request, load,
  commit, stop, shut, wake_up, fail, infer, step, run, load_call, commit_call, wake_worker,
  fail_worker, infer_worker,
}

module _ {F D : Type 0} where
  Grows-refl : (s : VisionState F D) → Grows s s
  Grows-refl s = ground arith

  Grows-trans : (s t u : VisionState F D) → Grows s t → Grows t u → Grows s u
  Grows-trans s t u g h = ground arith

module _ {F D : Type 0} ⦃fl : Floats F⦄ where
  load_call-Grows :
      (i : ℕ) (r : Result D) (k : Option Caller) (x : System F D)
      → Grows x.service (load_call i r k x).service
  unfolding load_call
  load_call-Grows i (ok d) (some (requested g)) x =
      ground (arith, finish_load-Grows (ok d) x.service)
  load_call-Grows i (err e) (some (requested g)) x =
      ground (arith, finish_load-Grows (err e) x.service)
  load_call-Grows i _ _ x = Grows-refl x.service

  commit_call-Grows :
      (i : ℕ) (k : Option Caller) (x : System F D) → Grows x.service (commit_call i k x).service
  unfolding commit_call
  commit_call-Grows i (some (loaded g)) x = commit_enable-Grows g x.service
  commit_call-Grows i _ x = Grows-refl x.service

  wake-Grows : (w : Worker D) (x : System F D) → Grows x.service (wake_worker w x).service
  unfolding wake_worker
  wake-Grows looping x = ground arith
  wake-Grows _ x = Grows-refl x.service

  fail_worker-Grows :
      (w : Worker D) (e : String) (x : System F D) → Grows x.service (fail_worker w e x).service
  unfolding fail_worker
  fail_worker-Grows (running g d) e x = fail-Grows g e x.service
  fail_worker-Grows _ e x = Grows-refl x.service

module _ {F D : Type 0} ⦃fl : Floats F⦄ (c : Config F) where
  infer-Grows :
      (k : Worker D) (ds : List (Detection F)) (w h : ℤ) (ms t : F) (x : System F D)
      → Grows x.service (infer_worker c k ds w h ms t x).service
  unfolding infer_worker
  infer-Grows (running g (some d)) ds w h ms t x = publish-Grows c g ds w h ms t x.service
  infer-Grows _ ds w h ms t x = Grows-refl x.service

  step-Grows : (x : System F D) (e : Event F D) → Grows x.service (step c x e).service
  unfolding step
  step-Grows x start_thread = start-Grows x.service
  step-Grows x request = Grows-refl x.service
  step-Grows x (load i r) = load_call-Grows i r _ x
  step-Grows x (commit i) = commit_call-Grows i _ x
  step-Grows x stop = disable-Grows x.service
  step-Grows x shut = close-Grows x.service
  step-Grows x wake_up = wake-Grows x.worker x
  step-Grows x (fail e) = fail_worker-Grows x.worker e x
  step-Grows x (infer ds w h ms t) = infer-Grows x.worker ds w h ms t x

  run-Grows : (x : System F D) (es : List (Event F D)) → Grows x.service (run c x es).service
  unfolding run
  run-Grows x [] = Grows-refl x.service
  run-Grows x (e ∷ es) =
      Grows-trans x.service (step c x e).service _ (step-Grows x e) (run-Grows (step c x e) es)

  -- A cycle and a request of a generation that is over.
  overtaken :
      (g : ℕ) (s : VisionState F D)
      → g < s.generation
      → ((ds : List (Detection F)) (w h : ℤ) (ms t : F) → publish c g ds w h ms t s ≡ (ok [], s))
        × ((e : String) → fail_active_generation g e s ≡ s)
        × ((commit_enable g s).1 ≡ s)
  unfolding publish fail_active_generation commit_enable
  overtaken g s h = (λ ds w ht ms t. ground arith, λ e. ground arith, ground arith)

  close-shut : (s : VisionState F D) → (close s).is_shutdown ≡ true
  unfolding close
  close-shut s = ground arith

  -- Once `disable` has run, whatever happens then, a cycle or an `enable` call that began before it
  -- changes nothing: an inference publishes and logs nothing, a failure reports nothing, and the
  -- call does not enable the service.
  pub disable_cancels :
      (g : ℕ) (x : System F D) (es : List (Event F D))
      → g ≤ x.service.generation
      → let s = (run c (step c x stop) es).service in
        ((ds : List (Detection F)) (w h : ℤ) (ms t : F) → publish c g ds w h ms t s ≡ (ok [], s))
        × ((e : String) → fail_active_generation g e s ≡ s)
        × ((commit_enable g s).1 ≡ s)
  unfolding step disable
  disable_cancels g x es h =
      overtaken g (run c (step c x stop) es).service
        (omega (arith, (run-Grows (step c x stop) es).generation))

  -- A closed service stays closed and disabled and shows no target, whatever happens then.
  pub close_final :
      (x : System F D) (es : List (Event F D))
      → IsValid x
      → let s = (run c (step c x shut) es).service in
        (s.is_shutdown ≡ true) × (s.enabled ≡ false) × (s.snapshot ≡ searching_snapshot)
  unfolding step
  close_final x es v =
      let y = run c (step c x shut) es in
      let final = (run-Grows (step c x shut) es).is_shutdown (close-shut x.service) in
      let kept = (run-IsValid c (step c x shut) es (step-IsValid c x shut v)).coherent in
      (final, kept.final final, kept.quiet (kept.final final))
