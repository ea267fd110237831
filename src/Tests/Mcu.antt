-- ===== src/Tests/Mcu.antt =====
-- The theorems on the motor controller's client at concrete inputs: a device that answers every
-- command at once, with a clock that each exchange moves on by a millisecond.
use mousinator.Prelude.{
  ℕ, ◌+◌, ◌≡◌, refl, true, false, some, [], ◌∷◌, ◌++◌, pos, negsuc, arith, if◌then◌else◌,
}
use mathlib.Core.Option
use mousinator.Prelude.Exec.{ok}
use mousinator.Prelude.Text.{Text, codes, starts_with, strip, show, show_ℕ}
use mousinator.Mcu.Pattern.{fullmatch}
use mousinator.Mcu.Messages.{pan, tilt, AxisState, pan_state_pattern, tilt_state_pattern}
use mousinator.Mcu.Readings.{read_state, read_driver, driver_is_ready}
use mousinator.Mcu.Client.{Port, Session, command, expect_ok, driver_of, state_of}
use mousinator.Mcu.Motor.{prepare_axis_motor_test, has_stopped, wait_for_stop, wait_for_home}
use mousinator.Mcu.Runs.{
  require_calibrated, disable_command, motor_enabled, run_motor_test, dual_enabled,
  run_dual_motor_test,
}
use mousinator.Mcu.StateLine.{state_line, pan_reading, tilt_state_round_trip, pan_state_round_trip}
use mousinator.Mcu.Calm.{IsClock}
use mousinator.Mcu.Motor.{lasts, velocity_command, both_command, run_segment}
use mousinator.Mcu.Sending.{run_segment-Settles}
use mousinator.Mcu.Waiting.{Settles, IsHomed, wait_for_stop-Settles, wait_for_home-Settles}
use mousinator.Mcu.Disabling.{
  EndsWith, dual_commands, run_motor_test-EndsDisabled, run_dual_motor_test-EndsDisabled,
}

-- An axis at rest, homed.
abbrev at_rest : AxisState
at_rest = record {
  axis = tilt;
  enabled = true;
  disabling = false;
  moving = false;
  position_steps = negsuc 41;
  velocity_steps_s = pos 0;
  target_velocity_steps_s = pos 0;
  motion_timeout = false;
  homed = true;
  homing = false;
  home_status = codes "SUCCESS";
  jogging = false;
  direction_checking = false;
  direction_calibrated = true;
  min_limit = false;
}

abbrev driver_line : Text → Text
driver_line axis =
    codes "OK DRIVER "
    ++ axis
    ++ codes
        " ADDR=0 PRESENT=1 CONFIGURED=1 ERR=NONE IFCNT=7 IOIN=0x21000040 GSTAT=0x00000000 DRV=0x80000000"
    ++ codes
        " RUN_MA=800 HOLD_MA=400 MSTEP=16 INTPOL=1 MODE=STEALTHCHOP OTPW=0 STST=1 STEALTH=1 FATAL=0"

answer : Text → Text
unfolding state_line
answer c =
    if starts_with (codes "STATE? TILT") c
    then state_line tilt at_rest
    else if starts_with (codes "STATE?") c
    then state_line pan at_rest
    else if starts_with (codes "DRIVER? PAN") c
    then driver_line (codes "PAN")
    else if starts_with (codes "DRIVER? TILT") c
    then driver_line (codes "TILT")
    else codes "OK"

-- The world is the time.
abbrev port : Port ℕ
unfolding answer
port = record {
  exchange = λ c t. (ok (answer c ++ 13 ∷ 10 ∷ []), t + 1_000_000);
  monotonic = λ t. (t, t);
  sleep = λ d t. t + d;
}

port-IsClock : IsClock port
unfolding port
port-IsClock = record {
  reading = λ t. t;
  not_back = λ t. (omega arith, omega arith);
  lasts = λ d t. omega arith;
  passes = λ p t. omega arith;
  own = λ p t e h. absurd (cc);
}

abbrev session : Session ℕ
session = record { world = 0; sent = [] }

wait_for_stop-Settles_example :
    Settles (λ st. has_stopped st ≡ true) (wait_for_stop port pan 3_000_000_000 session).0
wait_for_stop-Settles_example = wait_for_stop-Settles port port-IsClock pan 3_000_000_000 session

wait_for_home-Settles_example : Settles IsHomed (wait_for_home port 15_000_000_000 session).0
wait_for_home-Settles_example = wait_for_home-Settles port port-IsClock 15_000_000_000 session

enabled_test :
    (motor_enabled port tilt (pos 200) (lasts (pos 1_000_000_000)) (pos 200_000_000) session).0
    ≡ ok (codes "OK")
unfolding motor_enabled expect_ok command port strip prepare_axis_motor_test driver_of fullmatch
    driver_is_ready read_driver require_calibrated state_of show show_ℕ read_state
enabled_test = refl

run_motor_test-EndsDisabled_example :
    EndsWith
      (disable_command tilt ∷ [])
      (run_motor_test port tilt (pos 200) (lasts (pos 1_000_000_000)) (pos 200_000_000) session).1
run_motor_test-EndsDisabled_example =
    run_motor_test-EndsDisabled port tilt (pos 200) (lasts (pos 1_000_000_000)) (pos 200_000_000)
      session (codes "OK") enabled_test

dual_enabled_test :
    (dual_enabled port (pos 300) (pos 200) (lasts (pos 1_000_000_000)) (pos 200_000_000) session).0
    ≡ ok (codes "OK")
unfolding dual_enabled expect_ok command port strip prepare_axis_motor_test driver_of fullmatch
    driver_is_ready read_driver state_of show show_ℕ read_state
dual_enabled_test = refl

run_dual_motor_test-EndsDisabled_example :
    EndsWith dual_commands
      (run_dual_motor_test port
        (pos 300)
        (pos 200)
        (lasts (pos 1_000_000_000))
        (pos 200_000_000)
        session).1
run_dual_motor_test-EndsDisabled_example =
    run_dual_motor_test-EndsDisabled port (pos 300) (pos 200) (lasts (pos 1_000_000_000))
      (pos 200_000_000) session (codes "OK") dual_enabled_test

tilt_state_round_trip_example :
    Option.map (read_state tilt) (fullmatch tilt_state_pattern (state_line tilt at_rest))
    ≡ some at_rest
tilt_state_round_trip_example = tilt_state_round_trip at_rest refl

pan_state_round_trip_example :
    Option.map (read_state pan) (fullmatch pan_state_pattern (state_line pan at_rest))
    ≡ some (pan_reading at_rest)
pan_state_round_trip_example = pan_state_round_trip at_rest

run_segment-Settles_example :
    Settles
      (λ u. Unit {0})
      (run_segment port pan (pos 300) (lasts (pos 1_000_000_000)) 200_000_000 session).0
run_segment-Settles_example =
    run_segment-Settles port port-IsClock pan (pos 300) (pos 1_000_000_000) 200_000_000 session
      (omega arith)

-- The texts of the velocity commands.
velocity_command_test : velocity_command pan (negsuc 149) ≡ codes "VEL PAN -150"
unfolding show show_ℕ
velocity_command_test = refl

both_command_test : both_command (pos 150) (pos 20) ≡ codes "VEL BOTH 150 20"
unfolding show show_ℕ
both_command_test = refl
