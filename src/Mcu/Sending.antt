-- ===== src/Mcu/Sending.antt =====
-- The segments of the motor tests of host/sentry_mcu.py end: the rounds of their loops are enough.
use mousinator.Prelude.{
  ℕ, zero, suc, ◌+◌, ◌*◌, ◌/◌, ◌≤◌, ◌≡◌, ◌≢◌, refl, inl, inr, true, false, arith, leb, Bool-cases,
  ℤ, some, pos_part,
}
use mousinator.Prelude.Exec.{no_rounds, Exn, Result, ok, err, Exec, continue, ◌>>=◌, Result-cases}
use mousinator.Prelude.Text.{Text, codes}
use mousinator.Mcu.Messages.{Axis}
use mousinator.Mcu.Client.{Port, Session, expect_ok, state_of}
use mousinator.Mcu.Calm.{IsClock, IsCalm, expect_ok-IsCalm, state_of-IsCalm}
use mousinator.Mcu.Motor.{
  lasts, pause, has_stopped, send_rounds, send_loop, velocity_command, stop_timeout, wait_for_stop,
  run_segment,
}
use native.Mathlib.Nat.{lt-div-mul-add, suc-mul}
use mousinator.Mcu.Waiting.{Settles, wait_for_stop-Settles}

module _ {W : Type 0} (port : Port W) (clock : IsClock port) where
  abbrev ticked : Session W → Session W
  ticked s = record s { world = (port.monotonic s.world).1 }

  -- The session behind a round that sent the command `c`.
  abbrev sent_once : Text → ℕ → ℕ → Session W → Session W
  sent_once c deadline refresh s =
      let t = (expect_ok port c (ticked s)).1 in
      record t {
        world = port.sleep (pause (some deadline) (port.monotonic s.world).0 refresh) t.world;
      }

  -- A round that sent brings the deadline nearer by the pause, or reaches it.
  sent_once-later :
      (c : Text) (k deadline refresh : ℕ) (s : Session W)
      → deadline ≤ clock.reading s.world + suc k * refresh
      → deadline ≤ clock.reading (sent_once c deadline refresh s).world + k * refresh
  sent_once-later c k deadline refresh s enough = ground (
    arith,
    clock.not_back s.world,
    (expect_ok-IsCalm port clock c).later (ticked s),
    clock.lasts (pause (some deadline) (port.monotonic s.world).0 refresh)
        (expect_ok port c (ticked s)).1.world,
  )

  send_loop-suc-Settles :
      (k : ℕ) (c : Text) (deadline refresh : ℕ) (s : Session W)
      → (leb deadline (port.monotonic s.world).0 ≡ false
          → Settles
              (λ u. Unit {0})
              (send_loop port k c (some deadline) refresh (sent_once c deadline refresh s)).0)
      → Settles (λ u. Unit {0}) (send_loop port (suc k) c (some deadline) refresh s).0
  unfolding send_loop
  send_loop-suc-Settles k c deadline refresh s next =
      elim (Bool-cases (leb deadline (port.monotonic s.world).0)) [
        | inl over ↦ rw over tt
        | inr early ↦ elim (Result-cases (expect_ok port c (ticked s)).0) [
          | inr (e, failed) ↦
              simp (early, failed) ((expect_ok-IsCalm port clock c).own (ticked s) e failed)
          | inl (r, answer) ↦ simp (early, answer) (next early)
        ]
      ]

  send_loop-Settles :
      (k : ℕ) (c : Text) (deadline refresh : ℕ) (s : Session W)
      → deadline ≤ clock.reading s.world + k * refresh
      → Settles (λ u. Unit {0}) (send_loop port (suc k) c (some deadline) refresh s).0
  send_loop-Settles zero c deadline refresh s enough =
      send_loop-suc-Settles zero c deadline refresh s
        (λ early. absurd (ground (arith, clock.not_back s.world)))
  send_loop-Settles (suc k) c deadline refresh s enough =
      send_loop-suc-Settles (suc k) c deadline refresh s (λ early.
        send_loop-Settles k c deadline refresh (sent_once c deadline refresh s)
          (sent_once-later c k deadline refresh s enough))

  result-Settles :
      {A : Type 0} (r : Result A)
      → ((e : Exn) → r ≡ err e → e.kind ≢ no_rounds)
      → Settles (λ a. Unit {0}) r
  result-Settles (ok a) own = tt
  result-Settles (err e) own = own e refl

  calm-Settles :
      {A : Type 0} (q : Exec (Session W) A)
      → IsCalm port clock q
      → (s : Session W) → Settles (λ a. Unit {0}) (q s).0
  calm-Settles q calm s = result-Settles (q s).0 (calm.own s)

  continue-Settles :
      {A B : Type 0} (P : A → Type 0) (r : Result A) (f : A → Exec (Session W) B) (s : Session W)
      → Settles P r
      → ((a : A) → Settles (λ b. Unit {0}) (f a s).0)
      → Settles (λ b. Unit {0}) (continue r f s).0
  continue-Settles P (ok a) f s h next = next a
  continue-Settles P (err e) f s h next = h

  Settles-then :
      {A B : Type 0} (P : A → Type 0) (q : Exec (Session W) A) (f : A → Exec (Session W) B)
      (s : Session W)
      → Settles P (q s).0
      → ((a : A) (t : Session W) → Settles (λ b. Unit {0}) (f a t).0)
      → Settles (λ b. Unit {0}) ((q >>= f) s).0
  Settles-then P q f s h next = continue-Settles P (q s).0 f (q s).1 h (λ a. next a (q s).1)

  -- The deadline of a segment is within reach of its rounds.
  segment-reached :
      (duration refresh : ℕ) (s : Session W)
      → 1 ≤ refresh
      → (port.monotonic s.world).0 + duration
        ≤ clock.reading (ticked s).world + suc (duration / refresh) * refresh
  segment-reached duration refresh s some_refresh = omega (
    arith,
    clock.not_back s.world,
    lt-div-mul-add {a = duration} {b = refresh} some_refresh,
    suc-mul (duration / refresh) refresh,
  )

  -- `run_segment` of a finite duration ends, whatever the device answers, where the refresh interval
  -- is a nanosecond or more: its sending and its wait for the stop do not run out of rounds.
  pub run_segment-Settles :
      (a : Axis) (velocity d : ℤ) (refresh : ℕ) (s : Session W)
      → 1 ≤ refresh
      → Settles (λ u. Unit {0}) (run_segment port a velocity (lasts d) refresh s).0
  unfolding run_segment
  run_segment-Settles a velocity d refresh s some_refresh =
      Settles-then (λ u. Unit {0})
        (send_loop port (send_rounds (lasts d) refresh) (velocity_command a velocity)
          (some ((port.monotonic s.world).0 + pos_part d)) refresh)
        _ (ticked s)
        (send_loop-Settles (suc (pos_part d / refresh)) (velocity_command a velocity)
          ((port.monotonic s.world).0 + pos_part d) refresh (ticked s)
          (segment-reached (pos_part d) refresh s some_refresh))
        (λ u t.
          Settles-then (λ r. Unit {0}) (expect_ok port (codes "STOP")) _ t
            (calm-Settles (expect_ok port (codes "STOP"))
              (expect_ok-IsCalm port clock (codes "STOP")) t)
            (λ r t'.
              Settles-then (λ st. Unit {0}) (state_of port a) _ t'
                (calm-Settles (state_of port a) (state_of-IsCalm port clock a) t')
                (λ st t''.
                  Settles-then (λ st. has_stopped st ≡ true) (wait_for_stop port a stop_timeout) _
                    t'' (wait_for_stop-Settles port clock a stop_timeout t'') (λ st' t3. tt))))
