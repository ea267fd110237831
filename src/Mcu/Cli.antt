-- ===== src/Mcu/Cli.antt =====
-- The command line of host/sentry_mcu.py behind its argument parser: the choice of the device and
-- the actions.
use mousinator.Prelude.{
  ℕ, Done, String, Bool, true, false, ◌&&◌, Option, none, some, List, [], ◌∷◌, ◌++◌, ℤ, eqb,
  if◌then◌else◌,
}
use mousinator.Prelude.Exec.{
  Kind, type_error, runtime_error, other, no_rounds, Result, ok, err, Exec, pure, raise_if, ◌>>=◌,
  ◌>>◌,
}
use mousinator.Prelude.Text.{Text, codes, show}
use mousinator.Mcu.Messages.{Axis, tilt}
use mousinator.Mcu.Client.{
  Port, Session, raised, command, expect_ok, state_of, endstop, configure_drivers,
  query_driver_report,
}
use mousinator.Mcu.Motor.{
  Duration, stop_timeout, prepare_axis_motor_test, wait_for_stop, velocity_command,
}
use mousinator.Mcu.Runs.{
  enable_command, disable_command, require_calibrated, home, run_motor_test, run_dual_motor_test,
}

abbrev pub sentry_vid : ℕ
sentry_vid = 0x1209

abbrev pub sentry_pid : ℕ
sentry_pid = 0x0001

-- An entry of `list_ports.comports()`.
pub record SerialPort : Type 0 where
  pub device : String
  pub vid : Option ℕ
  pub pid : Option ℕ

abbrev is_id : ℕ → Option ℕ → Bool
is_id n none = false
is_id n (some m) = eqb m n

abbrev pub is_sentry : SerialPort → Bool
is_sentry p = is_id sentry_vid p.vid && is_id sentry_pid p.pid

unfoldable pub matching_devices : List SerialPort → List String
matching_devices [] = []
matching_devices (p ∷ ps) =
    if is_sentry p then p.device ∷ matching_devices ps else matching_devices ps

abbrev only_device : List String → Result String
only_device (d ∷ []) = ok d
only_device [] = err (raised runtime_error "no Sentry CDC device found")
only_device (d ∷ e ∷ ds) = err (raised runtime_error "multiple Sentry CDC devices found")

unfoldable pub discover_device : List SerialPort → Result String
unfolding matching_devices
discover_device ports = only_device (matching_devices ports)

pub data Level : Type 0 where
  high low : Level

abbrev pub level_name : Level → Text
level_name high = codes "HIGH"
level_name low = codes "LOW"

pub data Action : Type 0 where
  ping info stop configure_drivers_action endstop_action home_tilt : Action
  state_action driver_action enable disable : Axis → Action
  velocity : ℤ → Axis → Action
  motor_test : Axis → ℤ → Duration → ℤ → Action
  dual_motor_test : ℤ → ℤ → Duration → ℤ → Action
  tilt_dir_check : Level → Action
  jog_tilt : ℤ → Action

module _ {W : Type 0} (port : Port W) where
  abbrev run_command : Text → Exec (Session W) Done
  run_command c = do command port c; pure tt

  unfoldable pub check_direction : Level → Exec (Session W) Done
  check_direction level = do
    prepare_axis_motor_test port tilt
    reading ← endstop port
    raise_if reading.triggered (raised runtime_error "release the TILT endstop first")
    expect_ok port (codes "DIR-CHECK TILT " ++ level_name level)
    wait_for_stop port tilt stop_timeout
    pure tt

  unfoldable pub home_action : Exec (Session W) Done
  home_action = do
    prepare_axis_motor_test port tilt
    require_calibrated port
    endstop port
    home port

  -- The dispatch of `main` on the action.
  unfoldable pub perform : Action → Exec (Session W) Done
  perform (motor_test a v d r) = run_motor_test port a v d r
  perform (dual_motor_test p t d r) = run_dual_motor_test port p t d r
  perform (state_action a) = do state_of port a; pure tt
  perform (driver_action a) = do query_driver_report port a; pure tt
  perform configure_drivers_action = do configure_drivers port; pure tt
  perform endstop_action = do endstop port; pure tt
  perform home_tilt = home_action
  perform (tilt_dir_check level) = check_direction level
  perform (jog_tilt steps) = do
    expect_ok port (codes "JOG TILT " ++ show steps)
    wait_for_stop port tilt stop_timeout
    pure tt
  perform (velocity v a) = run_command (velocity_command a v)
  perform (enable a) = run_command (enable_command a)
  perform (disable a) = run_command (disable_command a)
  perform ping = run_command (codes "PING")
  perform info = run_command (codes "INFO")
  perform stop = run_command (codes "STOP")

-- The exceptions that `main` reports, with the exit code 1.
abbrev pub is_reported : Kind → Bool
is_reported type_error = false
is_reported other = false
is_reported no_rounds = false
is_reported _ = true

-- The exit code; nothing where the exception leaves `main`.
unfoldable pub exit_code : Result Done → Option ℕ
exit_code (ok _) = some 0
exit_code (err e) = if is_reported e.kind then some 1 else none
