-- ===== src/Mcu/Messages.antt =====
-- The response patterns and the dataclasses of host/sentry_mcu.py, and what each response becomes.
use mousinator.Prelude.{String, Bool, Option, List, [], ◌∷◌, ℤ}
use mousinator.Prelude.Text.{Text, codes}
use mousinator.Mcu.Pattern.{Atom, bit, digits, signed, upper, hex, word, either, Piece, lit, group}

-- A literal followed by a named group.
abbrev with_lit : String → String → Atom → List Piece → List Piece
with_lit w name a ps = lit (codes w) ∷ group name a ∷ ps

-- The groups that both state patterns share, behind the name of the axis.
abbrev motion_pieces : List Piece → List Piece
motion_pieces ps =
    group "enabled" bit
    ∷ with_lit " DISABLING=" "disabling" bit (
        with_lit " MOVING=" "moving" bit (
          with_lit " POS=" "position" signed (
            with_lit " VEL=" "velocity" signed
              (with_lit " TARGET=" "target" signed (with_lit " TIMEOUT=" "timeout" bit ps)))))

abbrev pub pan_state_pattern : List Piece
pan_state_pattern = lit (codes "OK PAN ENABLED=") ∷ motion_pieces []

abbrev pub tilt_state_pattern : List Piece
tilt_state_pattern =
    lit (codes "OK TILT ENABLED=")
    ∷ motion_pieces (
        with_lit " HOMED=" "homed" bit (
          with_lit " HOMING=" "homing" bit (
            with_lit " HOME_STATUS=" "home_status" upper (
              with_lit " JOGGING=" "jogging" bit (
                with_lit " DIR_CHECKING=" "direction_checking" bit (
                  with_lit " DIR_CALIBRATED=" "direction_calibrated" bit (
                    with_lit " MIN_LIMIT=" "min_limit" bit
                      (lit (codes " MAX_CONFIGURED=0 MAX_LIMIT=0") ∷ []))))))))

abbrev pub endstop_pattern : List Piece
endstop_pattern = with_lit "OK TILT ENDSTOP=" "triggered" bit (with_lit " RAW=" "raw" bit [])

abbrev axis_atom : Atom
axis_atom = either (word (codes "PAN")) (word (codes "TILT"))

abbrev pub driver_pattern : List Piece
driver_pattern = with_lit "OK DRIVER " "axis" axis_atom (
    with_lit " ADDR=" "address" digits (
      with_lit " PRESENT=" "present" bit (
        with_lit " CONFIGURED=" "configured" bit (
          with_lit " ERR=" "error" upper (
            with_lit " IFCNT=" "ifcnt" digits (
              with_lit " IOIN=" "ioin" (hex 8)
                (with_lit " GSTAT=" "gstat" (hex 8) (with_lit " DRV=" "drv" (hex 8) rest))))))))
  where
    rest : List Piece
    rest = with_lit " RUN_MA=" "run_ma" digits (
        with_lit " HOLD_MA=" "hold_ma" digits (
          with_lit " MSTEP=" "microsteps" digits (
            with_lit " INTPOL=" "interpolate" bit (
              with_lit " MODE=" "mode"
                (either (word (codes "STEALTHCHOP")) (word (codes "UNCONFIGURED")))
                (with_lit " OTPW=" "otpw" bit (
                  with_lit " STST=" "standstill" bit (
                    with_lit " STEALTH=" "stealth_active" bit
                      (with_lit " FATAL=" "fatal" bit []))))))))

abbrev operation_atom : Atom
operation_atom = either (word (codes "NONE")) (either (word (codes "READ")) (word (codes "WRITE")))

abbrev pub driver_diagnostic_pattern : List Piece
driver_diagnostic_pattern = with_lit "OK DRIVER_DIAG " "axis" axis_atom (
    with_lit " ADDR=" "address" digits (
      with_lit " UART_ORE=" "uart_ore" digits (
        with_lit " UART_NE=" "uart_ne" digits (
          with_lit " UART_FE=" "uart_fe" digits (
            with_lit " UART_PE=" "uart_pe" digits (
              with_lit " UART_LAST_ADDR=" "uart_last_address" (either (word (codes "NONE")) digits)
                (with_lit " UART_LAST_OP=" "uart_last_operation" operation_atom (
                  with_lit " UART_LAST_REG=" "uart_last_register" (hex 2) (
                    with_lit " UART_FLAGS=" "uart_flags" (hex 2)
                      (with_lit " UART_RETRIES=" "uart_retries" digits rest))))))))))
  where
    rest : List Piece
    rest = with_lit " LAST_OP=" "last_operation" operation_atom (
        with_lit " LAST_REG=" "last_register" (hex 2) (
          with_lit " LAST_ATTEMPT=" "last_attempt" digits (
            with_lit " TRANSPORT=" "transport_error" upper (
              with_lit " PARSER=" "parser_error" upper (
                with_lit " LAST_CFG_STAGE=" "configuration_stage" upper (
                  with_lit " LAST_CFG_REG=" "configuration_register" (hex 2) (
                    with_lit " LAST_CFG_PHASE=" "configuration_phase" upper
                      (with_lit " LAST_CFG_ERR=" "configuration_error" upper []))))))))

-- The two axes; `axis_name` is the normalized name.
pub data Axis : Type 0 where
  pan tilt : Axis

abbrev pub axis_name : Axis → Text
axis_name pan = codes "PAN"
axis_name tilt = codes "TILT"

pub record AxisState : Type 0 where
  pub axis : Axis
  pub enabled : Bool
  pub disabling : Bool
  pub moving : Bool
  pub position_steps : ℤ
  pub velocity_steps_s : ℤ
  pub target_velocity_steps_s : ℤ
  pub motion_timeout : Bool
  pub homed : Bool
  pub homing : Bool
  pub home_status : Text
  pub jogging : Bool
  pub direction_checking : Bool
  pub direction_calibrated : Bool
  pub min_limit : Bool

pub record EndstopState : Type 0 where
  pub triggered : Bool
  pub raw_high : Bool

pub record DriverStatus : Type 0 where
  pub axis : Text
  pub address : ℤ
  pub present : Bool
  pub configured : Bool
  pub error : Text
  pub interface_count : ℤ
  pub ioin : ℤ
  pub gstat : ℤ
  pub drv_status : ℤ
  pub run_current_ma : ℤ
  pub hold_current_ma : ℤ
  pub microsteps : ℤ
  pub interpolate : Bool
  pub mode : Text
  pub overtemperature_warning : Bool
  pub standstill : Bool
  pub stealthchop_active : Bool
  pub fatal : Bool

pub record DriverDiagnostics : Type 0 where
  pub axis : Text
  pub address : ℤ
  pub uart_overrun_count : ℤ
  pub uart_noise_count : ℤ
  pub uart_framing_count : ℤ
  pub uart_parity_count : ℤ
  pub uart_last_address : Option ℤ
  pub uart_last_operation : Text
  pub uart_last_register : ℤ
  pub uart_flags : ℤ
  pub uart_retry_count : ℤ
  pub last_operation : Text
  pub last_register : ℤ
  pub last_attempt : ℤ
  pub transport_error : Text
  pub parser_error : Text
  pub configuration_stage : Text
  pub configuration_register : ℤ
  pub configuration_phase : Text
  pub configuration_error : Text
