-- ===== src/Mcu/Readings.antt =====
-- How host/sentry_mcu.py turns the fields of a response into its dataclasses.
use mousinator.Prelude.{String, Bool, Option, none, some, [], ℤ, ◌&&◌, not, if◌then◌else◌}
use mousinator.Prelude.Text.{Text, codes, eq_text, int_value, hex_value}
use mousinator.Mcu.Pattern.{Fields, field}
use mousinator.Mcu.Messages.{Axis, AxisState, EndstopState, DriverStatus, DriverDiagnostics}

abbrev pub or_else : Text → Option Text → Text
or_else d none = d
or_else d (some t) = t

-- `fields[name]` of a group that took part in the match.
abbrev pub text_of : String → Fields → Text
text_of name fields = or_else [] (field name fields)

-- `fields.get(name) == "1"`
abbrev pub flag_of : String → Fields → Bool
flag_of name fields = eq_text (text_of name fields) (codes "1")

abbrev pub int_of : String → Fields → ℤ
int_of name fields = int_value (text_of name fields)

abbrev pub hex_of : String → Fields → ℤ
hex_of name fields = hex_value (text_of name fields)

unfoldable pub read_state : Axis → Fields → AxisState
unfolding field
read_state axis fields = record {
  axis = axis;
  enabled = flag_of "enabled" fields;
  disabling = flag_of "disabling" fields;
  moving = flag_of "moving" fields;
  position_steps = int_of "position" fields;
  velocity_steps_s = int_of "velocity" fields;
  target_velocity_steps_s = int_of "target" fields;
  motion_timeout = flag_of "timeout" fields;
  homed = flag_of "homed" fields;
  homing = flag_of "homing" fields;
  home_status = or_else (codes "IDLE") (field "home_status" fields);
  jogging = flag_of "jogging" fields;
  direction_checking = flag_of "direction_checking" fields;
  direction_calibrated = flag_of "direction_calibrated" fields;
  min_limit = flag_of "min_limit" fields;
}

unfoldable pub read_endstop : Fields → EndstopState
unfolding field
read_endstop fields = record {
  triggered = flag_of "triggered" fields;
  raw_high = flag_of "raw" fields;
}

unfoldable pub read_driver : Fields → DriverStatus
unfolding field
read_driver fields = record {
  axis = text_of "axis" fields;
  address = int_of "address" fields;
  present = flag_of "present" fields;
  configured = flag_of "configured" fields;
  error = text_of "error" fields;
  interface_count = int_of "ifcnt" fields;
  ioin = hex_of "ioin" fields;
  gstat = hex_of "gstat" fields;
  drv_status = hex_of "drv" fields;
  run_current_ma = int_of "run_ma" fields;
  hold_current_ma = int_of "hold_ma" fields;
  microsteps = int_of "microsteps" fields;
  interpolate = flag_of "interpolate" fields;
  mode = text_of "mode" fields;
  overtemperature_warning = flag_of "otpw" fields;
  standstill = flag_of "standstill" fields;
  stealthchop_active = flag_of "stealth_active" fields;
  fatal = flag_of "fatal" fields;
}

unfoldable pub read_diagnostics : Fields → DriverDiagnostics
unfolding field
read_diagnostics fields = record {
  axis = text_of "axis" fields;
  address = int_of "address" fields;
  uart_overrun_count = int_of "uart_ore" fields;
  uart_noise_count = int_of "uart_ne" fields;
  uart_framing_count = int_of "uart_fe" fields;
  uart_parity_count = int_of "uart_pe" fields;
  uart_last_address =
      if eq_text (text_of "uart_last_address" fields) (codes "NONE")
      then none
      else some (int_of "uart_last_address" fields);
  uart_last_operation = text_of "uart_last_operation" fields;
  uart_last_register = hex_of "uart_last_register" fields;
  uart_flags = hex_of "uart_flags" fields;
  uart_retry_count = int_of "uart_retries" fields;
  last_operation = text_of "last_operation" fields;
  last_register = hex_of "last_register" fields;
  last_attempt = int_of "last_attempt" fields;
  transport_error = text_of "transport_error" fields;
  parser_error = text_of "parser_error" fields;
  configuration_stage = text_of "configuration_stage" fields;
  configuration_register = hex_of "configuration_register" fields;
  configuration_phase = text_of "configuration_phase" fields;
  configuration_error = text_of "configuration_error" fields;
}

-- `driver_is_ready`
unfoldable pub driver_is_ready : DriverStatus → Bool
driver_is_ready status =
    status.present && status.configured && eq_text status.error (codes "NONE") && not status.fatal
