-- ===== src/Mcu/Runs.antt =====
-- The two motor tests of host/sentry_mcu.py and the actions of its command line. Times are whole
-- nanoseconds; the command line admits the two names of an axis only. What is printed is left out.
use mousinator.Prelude.{
  ℕ, suc, ltb, Done, Bool, ◌&&◌, ◌||◌, not, ◌++◌, ℤ, pos, pos_part, neg, leb_ℤ, ltb_ℤ,
}
use mousinator.Prelude.Exec.{
  value_error, runtime_error, Result, ok, err, Exec, pure, raise_if, finally_run, ◌>>=◌, ◌>>◌,
}
use mousinator.Prelude.Text.{Text, codes}
use mousinator.Mcu.Messages.{Axis, pan, tilt, axis_name}
use mousinator.Mcu.Client.{Port, Session, raised, command, expect_ok, state_of}
use mousinator.Mcu.Motor.{
  Duration, is_too_short, second, max_velocity, stop_timeout, home_timeout, prepare_axis_motor_test,
  wait_for_stop, wait_for_home, run_segment, run_dual_segment,
}

abbrev pub enable_command : Axis → Text
enable_command a = codes "ENABLE " ++ axis_name a

abbrev pub disable_command : Axis → Text
disable_command a = codes "DISABLE " ++ axis_name a

-- `1 <= velocity <= maximum`
abbrev pub velocity_allowed : Axis → ℤ → Bool
velocity_allowed a v = leb_ℤ (pos 1) v && leb_ℤ v (pos (max_velocity a))

-- `0.0 < refresh_s < 1.0`
abbrev pub refresh_allowed : ℤ → Bool
refresh_allowed r = ltb_ℤ (pos 0) r && ltb_ℤ r (pos second)

module _ {W : Type 0} (port : Port W) where
  -- TILT moves only once its direction is calibrated.
  unfoldable pub require_calibrated : Exec (Session W) Done
  require_calibrated = do
    state ← state_of port tilt
    raise_if (not state.direction_calibrated)
        (raised runtime_error "TILT direction is not calibrated")

  abbrev pub calibrated_if_tilt : Axis → Exec (Session W) Done
  calibrated_if_tilt pan = pure tt
  calibrated_if_tilt tilt = require_calibrated

  abbrev pub home : Exec (Session W) Done
  home = do expect_ok port (codes "HOME TILT"); wait_for_home port home_timeout; pure tt

  abbrev pub home_if_tilt : Axis → Exec (Session W) Done
  home_if_tilt pan = pure tt
  home_if_tilt tilt = home

  -- The body of the `try` block.
  unfoldable pub motor_body : Axis → ℤ → Duration → ℕ → Exec (Session W) Done
  motor_body a velocity duration refresh = do
    home_if_tilt a
    run_segment port a velocity duration refresh
    run_segment port a (neg velocity) duration refresh

  abbrev pub stop_and_wait : Axis → Exec (Session W) Done
  stop_and_wait a = do expect_ok port (codes "STOP"); wait_for_stop port a stop_timeout; pure tt

  abbrev pub disable_and_report : Axis → Exec (Session W) Done
  disable_and_report a = do expect_ok port (disable_command a); state_of port a; pure tt

  -- The `finally` block.
  unfoldable pub motor_cleanup : Axis → Exec (Session W) Done
  motor_cleanup a = finally_run (stop_and_wait a) (disable_and_report a)

  -- What comes before the driver of the axis is enabled.
  unfoldable pub motor_preparation : Axis → Exec (Session W) Done
  motor_preparation a = do
    expect_ok port (codes "PING")
    expect_ok port (codes "INFO")
    prepare_axis_motor_test port a
    calibrated_if_tilt a

  -- What comes before the `try` block.
  unfoldable pub motor_enabled : Axis → ℤ → Duration → ℤ → Exec (Session W) Text
  unfolding motor_preparation
  motor_enabled a velocity duration refresh = do
    raise_if (not (velocity_allowed a velocity)) (raised value_error "velocity out of range")
    raise_if (is_too_short duration) (raised value_error "motor-test duration must be positive")
    raise_if (not (refresh_allowed refresh)) (raised value_error "motor-test refresh")
    motor_preparation a
    expect_ok port (enable_command a)

  unfoldable pub run_motor_test : Axis → ℤ → Duration → ℤ → Exec (Session W) Done
  unfolding motor_enabled motor_body motor_cleanup
  run_motor_test a velocity duration refresh = do
    motor_enabled a velocity duration refresh
    finally_run (motor_body a velocity duration (pos_part refresh)) (motor_cleanup a)

  abbrev pub counted : ℕ → Result Text × Session W → Result ℕ × Session W
  counted errors (ok response, s) = (ok errors, s)
  counted errors (err e, s) = (ok (suc errors), s)

  -- One command of the last clean-up: what it raises is counted.
  abbrev pub attempt : Text → ℕ → Exec (Session W) ℕ
  attempt c errors s = counted errors (command port c s)

  abbrev pub reported : ℕ → Exec (Session W) Done
  reported errors = raise_if (ltb 0 errors) (raised runtime_error "cleanup failures")

  abbrev pub dual_queries : ℕ → Exec (Session W) Done
  dual_queries errors = do state_of port pan; state_of port tilt; reported errors

  unfoldable pub dual_cleanup : Exec (Session W) Done
  dual_cleanup = do
    one ← attempt (codes "STOP") 0
    two ← attempt (disable_command pan) one
    three ← attempt (disable_command tilt) two
    dual_queries three

  unfoldable pub dual_body : ℤ → ℤ → Duration → ℕ → Exec (Session W) Done
  dual_body p t duration refresh = do
    home
    run_dual_segment port p t duration refresh
    run_dual_segment port (neg p) (neg t) duration refresh

  -- What comes before the `try` block.
  unfoldable pub dual_enabled : ℤ → ℤ → Duration → ℤ → Exec (Session W) Text
  unfolding require_calibrated
  dual_enabled p t duration refresh = do
    raise_if (not (velocity_allowed pan p)) (raised value_error "PAN velocity")
    raise_if (not (velocity_allowed tilt t)) (raised value_error "TILT velocity")
    raise_if (is_too_short duration || not (refresh_allowed refresh))
        (raised value_error "duration/refresh values are outside safe bounds")
    expect_ok port (codes "PING")
    expect_ok port (codes "INFO")
    prepare_axis_motor_test port pan
    prepare_axis_motor_test port tilt
    require_calibrated
    expect_ok port (enable_command pan)
    expect_ok port (enable_command tilt)

  unfoldable pub run_dual_motor_test : ℤ → ℤ → Duration → ℤ → Exec (Session W) Done
  unfolding dual_enabled dual_body dual_cleanup
  run_dual_motor_test p t duration refresh = do
    dual_enabled p t duration refresh
    finally_run (dual_body p t duration (pos_part refresh)) dual_cleanup
