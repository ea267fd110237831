-- ===== src/Mcu/StateLine.antt =====
-- The state response of the firmware (src/protocol.c, `protocol_emit_state`), and that the client
-- reads back from it what the firmware wrote.
use mathlib.Core.Option
use mathlib.Core.Path.{subst}
use mousinator.Prelude.{
  ◌≡◌, refl, sym, suc, ap, ◌∙◌, inl, inr, Bool, true, false, some, List, [], ◌∷◌, ◌++◌, ℤ, pos,
  negsuc, if◌then◌else◌,
}
use mousinator.Prelude.Text.{Text, codes, eq_text, show, is_digit, is_upper_word}
use mousinator.Prelude.Text.Decimal.{show_ℕ-cons, int_value-show}
use mousinator.Mcu.Pattern.{signed, bit, fullmatch}
use mousinator.Mcu.Pattern.RoundTrip.{Accepts, IsRun, Fits, fill, fullmatch-render}
use mousinator.Mcu.Messages.{Axis, pan, tilt, AxisState, pan_state_pattern, tilt_state_pattern}
use mousinator.Mcu.Readings.{read_state}

-- '1' or '0'
abbrev pub bit_text : Bool → Text
bit_text b = if b then codes "1" else codes "0"

-- The texts that a response is built from, put together.
abbrev pub join : List Text → Text
join [] = []
join (t ∷ ts) = t ++ join ts

abbrev pub motion_chunks : AxisState → List Text → List Text
motion_chunks s rest =
    bit_text s.enabled
    ∷ codes " DISABLING="
    ∷ bit_text s.disabling
    ∷ codes " MOVING="
    ∷ bit_text s.moving
    ∷ codes " POS="
    ∷ show s.position_steps
    ∷ codes " VEL="
    ∷ show s.velocity_steps_s
    ∷ codes " TARGET="
    ∷ show s.target_velocity_steps_s
    ∷ codes " TIMEOUT="
    ∷ bit_text s.motion_timeout
    ∷ rest

abbrev pub tilt_chunks : AxisState → List Text
tilt_chunks s =
    codes " HOMED="
    ∷ bit_text s.homed
    ∷ codes " HOMING="
    ∷ bit_text s.homing
    ∷ codes " HOME_STATUS="
    ∷ s.home_status
    ∷ codes " JOGGING="
    ∷ bit_text s.jogging
    ∷ codes " DIR_CHECKING="
    ∷ bit_text s.direction_checking
    ∷ codes " DIR_CALIBRATED="
    ∷ bit_text s.direction_calibrated
    ∷ codes " MIN_LIMIT="
    ∷ bit_text s.min_limit
    ∷ codes " MAX_CONFIGURED=0 MAX_LIMIT=0"
    ∷ []

-- The line without its end; a snapshot of the firmware has the fields of `AxisState`.
unfoldable pub state_line : Axis → AxisState → Text
state_line pan s = join (codes "OK PAN ENABLED=" ∷ motion_chunks s [])
state_line tilt s = join (codes "OK TILT ENABLED=" ∷ motion_chunks s (tilt_chunks s))

bit_text-Accepts : (b : Bool) → Accepts bit (bit_text b)
bit_text-Accepts true = refl
bit_text-Accepts false = refl

eq_text-bit_text : (b : Bool) → eq_text (bit_text b) (codes "1") ≡ b
eq_text-bit_text true = refl
eq_text-bit_text false = refl

show-Accepts : (n : ℤ) → Accepts signed (show n)
unfolding show
show-Accepts (pos n) = let (c, s, e, d) = show_ℕ-cons n in subst (Accepts signed) (sym e) (inr d)
show-Accepts (negsuc n) =
    let (c, s, e, d) = show_ℕ-cons (suc n) in inl (refl, subst (IsRun is_digit) (sym e) d)

motion_values : AxisState → List Text → List Text
motion_values s rest =
    bit_text s.enabled
    ∷ bit_text s.disabling
    ∷ bit_text s.moving
    ∷ show s.position_steps
    ∷ show s.velocity_steps_s
    ∷ show s.target_velocity_steps_s
    ∷ bit_text s.motion_timeout
    ∷ rest

tilt_values : AxisState → List Text
tilt_values s =
    bit_text s.homed
    ∷ bit_text s.homing
    ∷ s.home_status
    ∷ bit_text s.jogging
    ∷ bit_text s.direction_checking
    ∷ bit_text s.direction_calibrated
    ∷ bit_text s.min_limit
    ∷ []

tilt-Fits :
    (s : AxisState)
    → IsRun is_upper_word s.home_status
    → Fits tilt_state_pattern (motion_values s (tilt_values s))
unfolding motion_values tilt_values
tilt-Fits s run = (
  bit_text-Accepts s.enabled,
  tt,
  (
    bit_text-Accepts s.disabling,
    tt,
    (
      bit_text-Accepts s.moving,
      tt,
      (
        show-Accepts s.position_steps,
        refl,
        (
          show-Accepts s.velocity_steps_s,
          refl,
          (
            show-Accepts s.target_velocity_steps_s,
            refl,
            (
              bit_text-Accepts s.motion_timeout,
              tt,
              (
                bit_text-Accepts s.homed,
                tt,
                (
                  bit_text-Accepts s.homing,
                  tt,
                  (
                    run,
                    refl,
                    (
                      bit_text-Accepts s.jogging,
                      tt,
                      (
                        bit_text-Accepts s.direction_checking,
                        tt,
                        (
                          bit_text-Accepts s.direction_calibrated,
                          tt,
                          (bit_text-Accepts s.min_limit, tt, tt),
                        ),
                      ),
                    ),
                  ),
                ),
              ),
            ),
          ),
        ),
      ),
    ),
  ),
)

pan-Fits : (s : AxisState) → Fits pan_state_pattern (motion_values s [])
unfolding motion_values
pan-Fits s = (
  bit_text-Accepts s.enabled,
  tt,
  (
    bit_text-Accepts s.disabling,
    tt,
    (
      bit_text-Accepts s.moving,
      tt,
      (
        show-Accepts s.position_steps,
        refl,
        (
          show-Accepts s.velocity_steps_s,
          refl,
          (
            show-Accepts s.target_velocity_steps_s,
            refl,
            (bit_text-Accepts s.motion_timeout, tt, tt),
          ),
        ),
      ),
    ),
  ),
)

ruleset reading_laws = (eq_text-bit_text, int_value-show)

tilt-read :
    (s : AxisState)
    → read_state tilt (fill tilt_state_pattern (motion_values s (tilt_values s)))
      ≡ record s { axis = tilt }
unfolding motion_values tilt_values read_state
tilt-read s = simp reading_laws

-- What the client takes from the PAN line: the fields of the homing keep their defaults.
abbrev pub pan_reading : AxisState → AxisState
pan_reading s = record s {
  axis = pan;
  homed = false;
  homing = false;
  home_status = codes "IDLE";
  jogging = false;
  direction_checking = false;
  direction_calibrated = false;
  min_limit = false;
}

pan-read :
    (s : AxisState) → read_state pan (fill pan_state_pattern (motion_values s [])) ≡ pan_reading s
unfolding motion_values read_state
pan-read s = simp reading_laws

-- The client reads from the TILT line the state that the firmware wrote, if the name of the home
-- status is one or more letters A-Z and underscores.
pub tilt_state_round_trip :
    (s : AxisState)
    → IsRun is_upper_word s.home_status
    → Option.map (read_state tilt) (fullmatch tilt_state_pattern (state_line tilt s))
      ≡ some (record s { axis = tilt })
unfolding state_line motion_values tilt_values
tilt_state_round_trip s run =
    ap (Option.map (read_state tilt))
      (fullmatch-render tilt_state_pattern (motion_values s (tilt_values s)) (tilt-Fits s run))
    ∙ ap some (tilt-read s)

-- The client reads from the PAN line the motion state that the firmware wrote.
pub pan_state_round_trip :
    (s : AxisState)
    → Option.map (read_state pan) (fullmatch pan_state_pattern (state_line pan s))
      ≡ some (pan_reading s)
unfolding state_line motion_values
pan_state_round_trip s =
    ap (Option.map (read_state pan))
      (fullmatch-render pan_state_pattern (motion_values s []) (pan-Fits s))
    ∙ ap some (pan-read s)
