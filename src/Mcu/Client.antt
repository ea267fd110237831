-- ===== src/Mcu/Client.antt =====
-- The class `SentryMcu` of host/sentry_mcu.py over a serial device and a clock that are parameters.
-- Times are whole nanoseconds. `sent` is the record of the commands that were written.
use mousinator.Prelude.{ℕ, String, not, Option, none, some, List, [], ◌∷◌, ◌++◌, leb, if◌then◌else◌}
use mousinator.Prelude.Exec.{
  Kind, value_error, runtime_error, timeout_error, Exn, Result, ok, err, Exec, pure, raise,
  raise_if, ◌>>=◌, ◌>>◌,
}
use mousinator.Prelude.Text.{Text, codes, eq_text, starts_with, all_chars, strip, to_upper}
use mousinator.Mcu.Pattern.{Piece, Fields, fullmatch}
use mousinator.Mcu.Messages.{
  Axis, pan, tilt, axis_name, AxisState, EndstopState, DriverStatus, DriverDiagnostics,
  pan_state_pattern, tilt_state_pattern, endstop_pattern, driver_pattern, driver_diagnostic_pattern,
}
use mousinator.Mcu.Readings.{read_state, read_endstop, read_driver, read_diagnostics}

-- The serial port and the clock, over the state `W` of the world: `exchange` is `write`, `flush` and
-- `readline` of one payload, with no bytes at a timeout.
pub record Port (W : Type 0) : Type 0 where
  pub exchange : Text → W → Result Text × W
  pub monotonic : W → ℕ × W
  pub sleep : ℕ → W → W

pub record Session (W : Type 0) : Type 0 where
  pub world : W
  pub sent : List Text

abbrev pub raised : Kind → String → Exn
raised k m = record { kind = k; message = m }

abbrev pub state_command : Axis → Text
state_command pan = codes "STATE?"
state_command tilt = codes "STATE? TILT"

abbrev pub state_pattern : Axis → List Piece
state_pattern pan = pan_state_pattern
state_pattern tilt = tilt_state_pattern

module _ {W : Type 0} (port : Port W) where
  -- What `command` makes of the bytes that came back.
  abbrev pub decoded : Result Text → Session W → Result Text × Session W
  decoded (err e) s = (err e, s)
  decoded (ok []) s = (err (raised timeout_error "no response"), s)
  decoded (ok (c ∷ bytes)) s =
      if all_chars (λ b. leb b 127) (c ∷ bytes)
      then (ok (strip (c ∷ bytes)), s)
      else (err (raised value_error "response is not ASCII"), s)

  unfoldable pub command : Text → Exec (Session W) Text
  command c s =
      let (answer, w) = port.exchange (c ++ 13 ∷ 10 ∷ []) s.world in
      decoded answer (record { world = w; sent = s.sent ++ c ∷ [] })

  unfoldable pub expect_ok : Text → Exec (Session W) Text
  expect_ok c = do
    response ← command c
    raise_if (not (starts_with (codes "OK") response)) (raised runtime_error "command failed")
    pure response

  -- A response that has to match, read by `f`.
  abbrev pub matched : {A : Type 0} → (Fields → A) → Option Fields → Exec (Session W) A
  matched f none = raise (raised runtime_error "unexpected response")
  matched f (some fields) = pure (f fields)

  abbrev pub query : {A : Type 0} → Text → List Piece → (Fields → A) → Exec (Session W) A
  query c pattern f = do response ← expect_ok c; matched f (fullmatch pattern response)

  -- `state`, of an axis that is known.
  unfoldable pub state_of : Axis → Exec (Session W) AxisState
  state_of a = query (state_command a) (state_pattern a) (read_state a)

  unfoldable pub endstop : Exec (Session W) EndstopState
  endstop = query (codes "ENDSTOP? TILT") endstop_pattern read_endstop

  unfoldable pub driver_of : Axis → Exec (Session W) DriverStatus
  driver_of a = query (codes "DRIVER? " ++ axis_name a) driver_pattern read_driver

  unfoldable pub driver_diagnostics_of : Axis → Exec (Session W) DriverDiagnostics
  driver_diagnostics_of a =
      query (codes "DRIVER-DIAG? " ++ axis_name a) driver_diagnostic_pattern read_diagnostics

  unfoldable pub configure_drivers : Exec (Session W) Text
  configure_drivers = expect_ok (codes "DRIVER CONFIGURE")

  -- `query_driver_report`
  unfoldable pub query_driver_report : Axis → Exec (Session W) (DriverStatus × DriverDiagnostics)
  query_driver_report a = do
    status ← driver_of a
    diagnostics ← driver_diagnostics_of a
    pure (status, diagnostics)

-- `axis.upper()` and the test of the methods that take an axis by its name.
unfoldable pub axis_of : Text → Option Axis
unfolding to_upper
axis_of name =
    let normalized = to_upper name in
    if eq_text normalized (codes "PAN")
    then some pan
    else if eq_text normalized (codes "TILT")
    then some tilt
    else none

module _ {W : Type 0} (port : Port W) where
  abbrev by_name : {A : Type 0} → (Axis → Exec (Session W) A) → Option Axis → Exec (Session W) A
  by_name m none = raise (raised value_error "axis must be pan or tilt")
  by_name m (some a) = m a

  unfoldable pub state : Text → Exec (Session W) AxisState
  unfolding axis_of
  state name = by_name (state_of port) (axis_of name)

  unfoldable pub driver : Text → Exec (Session W) DriverStatus
  unfolding axis_of
  driver name = by_name (driver_of port) (axis_of name)

  unfoldable pub driver_diagnostics : Text → Exec (Session W) DriverDiagnostics
  unfolding axis_of
  driver_diagnostics name = by_name (driver_diagnostics_of port) (axis_of name)
