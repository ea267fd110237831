-- ===== src/Mcu/Motor.antt =====
-- The motor validation runs of host/sentry_mcu.py. Loops take the rounds that their deadline allows.
use mousinator.Prelude.{
  ℕ, zero, suc, ◌+◌, ◌-◌, ◌/◌, Done, String, Bool, true, false, ◌&&◌, not, ◌∷◌, ◌++◌, ℤ, pos, eqb_ℤ,
  leb_ℤ, pos_part, Option, some, none, leb, ltb, if◌then◌else◌,
}
use mousinator.Prelude.Exec.{
  runtime_error, timeout_error, no_rounds, ok, Exec, pure, raise, raise_if, ◌>>=◌, ◌>>◌,
}
use mousinator.Prelude.Text.{Text, codes, eq_text, show}
use mousinator.Mcu.Messages.{Axis, pan, tilt, axis_name, AxisState, DriverStatus}
use mousinator.Mcu.Readings.{driver_is_ready}
use mousinator.Mcu.Client.{Port, Session, raised, command, expect_ok, state_of, driver_of}

abbrev pub second : ℕ
second = 1_000_000_000

-- The pause of the polling loops, 0.05 s.
abbrev pub poll_pause : ℕ
poll_pause = 50_000_000

abbrev pub pan_max_velocity : ℕ
pan_max_velocity = 10000

abbrev pub tilt_max_velocity : ℕ
tilt_max_velocity = 5000

abbrev pub max_velocity : Axis → ℕ
max_velocity pan = pan_max_velocity
max_velocity tilt = tilt_max_velocity

abbrev pub other_axis : Axis → Axis
other_axis pan = tilt
other_axis tilt = pan

-- The test of `wait_for_stop`.
abbrev pub has_stopped : AxisState → Bool
has_stopped s =
    not s.moving && eqb_ℤ s.velocity_steps_s (pos 0) && not s.jogging && not s.direction_checking

-- The rounds that a timeout allows, since each but the last sleeps.
abbrev pub poll_rounds : ℕ → ℕ
poll_rounds timeout = suc (suc (timeout / poll_pause))

-- A duration in nanoseconds, or infinity or no number, whose deadline is never reached. The sending
-- of an endless segment goes on until an exception ends it; the model ends it after a number of rounds
-- at the latest, as an interrupt from the keyboard does.
pub data Duration : Type 0 where
  lasts : ℤ → Duration
  endless : ℕ → Duration

-- `duration_s <= 0.0`
abbrev pub is_too_short : Duration → Bool
is_too_short (lasts d) = leb_ℤ d (pos 0)
is_too_short (endless rounds) = false

-- The rounds of a sending loop, each but the last two of which sleeps for the refresh interval.
abbrev pub send_rounds : Duration → ℕ → ℕ
send_rounds (lasts d) refresh = suc (suc (pos_part d / refresh))
send_rounds (endless rounds) refresh = rounds

-- `time.monotonic() + duration_s`; nothing where it is never reached.
abbrev pub deadline_of : ℕ → Duration → Option ℕ
deadline_of now (lasts d) = some (now + pos_part d)
deadline_of now (endless rounds) = none

-- `remaining <= 0.0`
abbrev pub is_over : Option ℕ → ℕ → Bool
is_over (some deadline) now = leb deadline now
is_over none now = false

-- `min(refresh_s, remaining)`
abbrev pub pause : Option ℕ → ℕ → ℕ → ℕ
pause (some deadline) now refresh = if ltb (deadline - now) refresh then deadline - now else refresh
pause none now refresh = refresh

abbrev pub stop_timeout : ℕ
stop_timeout = 3_000_000_000

abbrev pub home_timeout : ℕ
home_timeout = 15_000_000_000

abbrev pub velocity_command : Axis → ℤ → Text
velocity_command a v = codes "VEL " ++ axis_name a ++ 32 ∷ show v

abbrev pub both_command : ℤ → ℤ → Text
both_command p t = codes "VEL BOTH " ++ show p ++ 32 ∷ show t

module _ {W : Type 0} (port : Port W) where
  -- `time.monotonic()` and `time.sleep(d)`
  abbrev pub monotonic : Exec (Session W) ℕ
  monotonic s = let (t, w) = port.monotonic s.world in (ok t, record s { world = w })

  abbrev pub sleep : ℕ → Exec (Session W) Done
  sleep d s = (ok tt, record s { world = port.sleep d s.world })

  -- A driver that is not ready is configured once, and has to be ready then.
  unfoldable pub configured_driver : Axis → DriverStatus → Exec (Session W) DriverStatus
  configured_driver a status = if driver_is_ready status then pure status else do
    command port (codes "DRIVER CONFIGURE")
    again ← driver_of port a
    raise_if (not (driver_is_ready again))
        (raised runtime_error "driver is not configured and fault-free")
    pure again

  -- `prepare_axis_motor_test`; the warning about the other axis is only printed.
  unfoldable pub prepare_axis_motor_test : Axis → Exec (Session W) DriverStatus
  unfolding configured_driver
  prepare_axis_motor_test a = do
    first ← driver_of port a
    status ← configured_driver a first
    driver_of port (other_axis a)
    pure status

  -- One round of a polling loop, while the deadline is not reached.
  abbrev pub if_early : {A : Type 0} → Bool → String → Exec (Session W) A → Exec (Session W) A
  if_early true late poll = poll
  if_early false late poll = raise (raised timeout_error late)

  abbrev pub sleep_unless :
      {A : Type 0} → Bool → Exec (Session W) A → Exec (Session W) A → Exec (Session W) A
  sleep_unless true result again = result
  sleep_unless false result again = sleep poll_pause >> again

  unfoldable pub stop_loop : ℕ → Axis → ℕ → Exec (Session W) AxisState
  stop_loop zero a deadline = raise (raised no_rounds "wait_for_stop")
  stop_loop (suc rounds) a deadline = do
    now ← monotonic
    if_early (ltb now deadline) "did not reach zero velocity" (do
      state ← state_of port a
      sleep_unless (has_stopped state) (pure state) (stop_loop rounds a deadline))

  unfoldable pub wait_for_stop : Axis → ℕ → Exec (Session W) AxisState
  unfolding stop_loop
  wait_for_stop a timeout = do
    start ← monotonic
    stop_loop (poll_rounds timeout) a (start + timeout)

  -- What a finished homing gives.
  abbrev pub home_result : AxisState → Exec (Session W) AxisState
  home_result state =
      if state.homed && eq_text state.home_status (codes "SUCCESS")
      then pure state
      else raise (raised runtime_error "TILT homing failed")

  unfoldable pub home_loop : ℕ → ℕ → Exec (Session W) AxisState
  home_loop zero deadline = raise (raised no_rounds "wait_for_home")
  home_loop (suc rounds) deadline = do
    now ← monotonic
    if_early (ltb now deadline) "TILT homing did not finish" (do
      state ← state_of port tilt
      sleep_unless (not state.homing) (home_result state) (home_loop rounds deadline))

  unfoldable pub wait_for_home : ℕ → Exec (Session W) AxisState
  unfolding home_loop
  wait_for_home timeout = do start ← monotonic; home_loop (poll_rounds timeout) (start + timeout)

  abbrev pub until : Bool → Exec (Session W) Done → Exec (Session W) Done
  until true again = pure tt
  until false again = again

  -- A velocity command is sent again after each pause until the deadline.
  unfoldable pub send_loop : ℕ → Text → Option ℕ → ℕ → Exec (Session W) Done
  send_loop zero c deadline refresh = raise (raised no_rounds "segment")
  send_loop (suc rounds) c deadline refresh = do
    now ← monotonic
    until (is_over deadline now) (do
      expect_ok port c
      sleep (pause deadline now refresh)
      send_loop rounds c deadline refresh)

  unfoldable pub run_segment : Axis → ℤ → Duration → ℕ → Exec (Session W) Done
  unfolding send_loop wait_for_stop
  run_segment a velocity duration refresh = do
    start ← monotonic
    send_loop (send_rounds duration refresh) (velocity_command a velocity)
        (deadline_of start duration) refresh
    expect_ok port (codes "STOP")
    state_of port a
    wait_for_stop a stop_timeout
    pure tt

  unfoldable pub run_dual_segment : ℤ → ℤ → Duration → ℕ → Exec (Session W) Done
  unfolding send_loop wait_for_stop
  run_dual_segment p t duration refresh = do
    start ← monotonic
    send_loop (send_rounds duration refresh) (both_command p t) (deadline_of start duration) refresh
    expect_ok port (codes "STOP")
    wait_for_stop pan stop_timeout
    wait_for_stop tilt stop_timeout
    pure tt
