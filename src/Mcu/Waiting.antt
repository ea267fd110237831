-- ===== src/Mcu/Waiting.antt =====
-- The polling loops of host/sentry_mcu.py end, and what they return is what they wait for.
use mousinator.Prelude.{
  ℕ, zero, suc, ◌+◌, ◌*◌, ◌/◌, ◌≤◌, ◌≡◌, ◌≢◌, inl, inr, true, false, ◌&&◌, arith, ltb, Bool-cases,
}
use mousinator.Prelude.Exec.{no_rounds, Result, ok, err, Result-cases}
use mousinator.Prelude.Text.{codes, eq_text}
use mousinator.Mcu.Messages.{Axis, tilt, AxisState}
use mousinator.Mcu.Client.{Port, Session, state_of}
use mousinator.Mcu.Calm.{IsClock, state_of-IsCalm}
use mousinator.Mcu.Motor.{
  poll_pause, has_stopped, stop_loop, wait_for_stop, home_result, home_loop, wait_for_home,
}

-- How a wait may end: with a result that satisfies `P`, or with an exception of the source.
abbrev pub Settles : {A : Type 0} → (A → Type 0) → Result A → Type 0
Settles P (ok a) = P a
Settles P (err e) = e.kind ≢ no_rounds

-- The homing is over and succeeded.
abbrev pub IsHomed : AxisState → Type 0
IsHomed st =
    (st.homing ≡ false) × (st.homed ≡ true) × (eq_text st.home_status (codes "SUCCESS") ≡ true)

module _ {W : Type 0} (port : Port W) (clock : IsClock port) where
  -- The session once the clock has been read, and once it has also slept.
  abbrev ticked : Session W → Session W
  ticked s = record s { world = (port.monotonic s.world).1 }

  abbrev slept : Session W → Session W
  slept s = record s { world = port.sleep poll_pause s.world }

  -- A round that is not the last takes at least the pause.
  round-later :
      (a : Axis) (s : Session W)
      → clock.reading s.world + poll_pause
        ≤ clock.reading (slept (state_of port a (ticked s)).1).world
  round-later a s = omega (
    arith,
    clock.not_back s.world,
    (state_of-IsCalm port clock a).later (ticked s),
    clock.lasts poll_pause (state_of port a (ticked s)).1.world,
  )

  -- A round settles if the rounds after it do.
  stop_loop-suc-Settles :
      (k : ℕ) (a : Axis) (deadline : ℕ) (s : Session W)
      → (ltb (port.monotonic s.world).0 deadline ≡ true
          → Settles
              (λ st. has_stopped st ≡ true)
              (stop_loop port k a deadline (slept (state_of port a (ticked s)).1)).0)
      → Settles (λ st. has_stopped st ≡ true) (stop_loop port (suc k) a deadline s).0
  unfolding stop_loop
  stop_loop-suc-Settles k a deadline s next =
      elim (Bool-cases (ltb (port.monotonic s.world).0 deadline)) [
        | inr late ↦ rw late (λ c. cc)
        | inl early ↦ elim (Result-cases (state_of port a (ticked s)).0) [
          | inr (e, failed) ↦
              rw (early, failed) ((state_of-IsCalm port clock a).own (ticked s) e failed)
          | inl (st, answer) ↦ elim (Bool-cases (has_stopped st)) [
            | inl stopped ↦ rw (early, answer, stopped, stopped)
            | inr running ↦ rw (early, answer, running) (next early)
          ]
        ]
      ]

  -- Enough rounds reach the deadline.
  stop_loop-Settles :
      (k : ℕ) (a : Axis) (deadline : ℕ) (s : Session W)
      → deadline ≤ clock.reading s.world + k * poll_pause
      → Settles (λ st. has_stopped st ≡ true) (stop_loop port (suc k) a deadline s).0
  stop_loop-Settles zero a deadline s enough =
      stop_loop-suc-Settles zero a deadline s
        (λ early. absurd (ground (arith, clock.not_back s.world)))
  stop_loop-Settles (suc k) a deadline s enough =
      stop_loop-suc-Settles (suc k) a deadline s (λ early.
        stop_loop-Settles k a deadline (slept (state_of port a (ticked s)).1)
          (omega (arith, round-later a s)))

  home_result-Settles :
      (st : AxisState) (s : Session W)
      → st.homing ≡ false
      → Settles IsHomed (home_result port st s).0
  home_result-Settles st s idle =
      elim (Bool-cases (st.homed && eq_text st.home_status (codes "SUCCESS"))) [
        | inl both ↦ simp both (idle, ground arith, ground arith)
        | inr neither ↦ simp neither (λ k. cc)
      ]

  home_loop-suc-Settles :
      (k : ℕ) (deadline : ℕ) (s : Session W)
      → (ltb (port.monotonic s.world).0 deadline ≡ true
          → Settles IsHomed (home_loop port k deadline (slept (state_of port tilt (ticked s)).1)).0)
      → Settles IsHomed (home_loop port (suc k) deadline s).0
  unfolding home_loop
  home_loop-suc-Settles k deadline s next =
      elim (Bool-cases (ltb (port.monotonic s.world).0 deadline)) [
        | inr late ↦ rw late (λ c. cc)
        | inl early ↦ elim (Result-cases (state_of port tilt (ticked s)).0) [
          | inr (e, failed) ↦
              rw (early, failed) ((state_of-IsCalm port clock tilt).own (ticked s) e failed)
          | inl (st, answer) ↦ elim (Bool-cases st.homing) [
            | inr idle ↦
                simp (early, answer, idle)
                  (home_result-Settles st (state_of port tilt (ticked s)).1 idle)
            | inl busy ↦ simp (early, answer, busy) (next early)
          ]
        ]
      ]

  home_loop-Settles :
      (k : ℕ) (deadline : ℕ) (s : Session W)
      → deadline ≤ clock.reading s.world + k * poll_pause
      → Settles IsHomed (home_loop port (suc k) deadline s).0
  home_loop-Settles zero deadline s enough =
      home_loop-suc-Settles zero deadline s
        (λ early. absurd (ground (arith, clock.not_back s.world)))
  home_loop-Settles (suc k) deadline s enough = home_loop-suc-Settles (suc k) deadline s (λ early.
      home_loop-Settles k deadline (slept (state_of port tilt (ticked s)).1)
        (omega (arith, round-later tilt s)))

  -- The rounds of a timeout are enough.
  rounds-enough : (timeout : ℕ) → timeout ≤ (suc (timeout / poll_pause)) * poll_pause
  rounds-enough timeout = omega arith

  deadline-reached :
      (timeout : ℕ) (s : Session W)
      → (port.monotonic s.world).0 + timeout
        ≤ clock.reading (ticked s).world + (suc (timeout / poll_pause)) * poll_pause
  deadline-reached timeout s = omega (arith, clock.not_back s.world, rounds-enough timeout)

  -- `wait_for_stop` ends, whatever the device answers, and returns only the state of an axis that
  -- is not moving, has the velocity 0 and neither jogs nor checks its direction.
  pub wait_for_stop-Settles :
      (a : Axis) (timeout : ℕ) (s : Session W)
      → Settles (λ st. has_stopped st ≡ true) (wait_for_stop port a timeout s).0
  unfolding wait_for_stop
  wait_for_stop-Settles a timeout s =
      stop_loop-Settles (suc (timeout / poll_pause)) a ((port.monotonic s.world).0 + timeout)
        (ticked s) (deadline-reached timeout s)

  -- `wait_for_home` ends, whatever the device answers, and returns only a state that is homed with
  -- the status SUCCESS and homes no more.
  pub wait_for_home-Settles :
      (timeout : ℕ) (s : Session W) → Settles IsHomed (wait_for_home port timeout s).0
  unfolding wait_for_home
  wait_for_home-Settles timeout s =
      home_loop-Settles (suc (timeout / poll_pause)) ((port.monotonic s.world).0 + timeout)
        (ticked s) (deadline-reached timeout s)
