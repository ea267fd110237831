-- ===== src/Prelude/Text.antt =====
-- ASCII text as its list of codes, for the code that walks its text: prefixes, stripping, digits.
pub mod Decimal
use Prim.Native.Char.{code}
use Prim.Native.String.{String}
use Prim.Native.Nat.{ℕ, zero, suc, ◌+◌, ◌-◌, ◌*◌, ◌/◌, ◌%◌}
use mathlib.Core.Path.{◌≡◌}
use mathlib.Core.Bool.{Bool, true, false, ◌&&◌, ◌||◌, not}
use mathlib.Core.List.{List, [], ◌∷◌, ◌++◌, map, reverse}
use mousinator.Prelude.Tests.{ltb, leb, eqb, if◌then◌else◌}
use mousinator.Prelude.Int.{ℤ, pos, negsuc, neg}

abbrev pub Text : Type 0
Text = List ℕ

abbrev pub codes : String → Text
codes String.[] = []
codes (String.◌∷◌ c s) = code c ∷ codes s

abbrev pub eq_text : Text → Text → Bool
eq_text [] [] = true
eq_text (a ∷ s) (b ∷ t) = eqb a b && eq_text s t
eq_text _ _ = false

-- `s < t`, by the code points.
unfoldable pub ltb_text : Text → Text → Bool
ltb_text [] [] = false
ltb_text [] (b ∷ t) = true
ltb_text (a ∷ s) [] = false
ltb_text (a ∷ s) (b ∷ t) = ltb a b || (eqb a b && ltb_text s t)

-- `text.startswith(prefix)`
abbrev pub starts_with : Text → Text → Bool
starts_with [] t = true
starts_with (a ∷ s) [] = false
starts_with (a ∷ s) (b ∷ t) = eqb a b && starts_with s t

abbrev pub is_digit : ℕ → Bool
is_digit c = leb b'0' c && leb c b'9'

-- The classes [A-Z_] and [0-9A-F].
abbrev pub is_upper_word : ℕ → Bool
is_upper_word c = (leb b'A' c && leb c b'Z') || eqb c b'_'

abbrev pub is_hex : ℕ → Bool
is_hex c = is_digit c || (leb b'A' c && leb c b'F')

-- The ASCII characters that `str.strip` takes away.
abbrev pub is_space : ℕ → Bool
is_space c = eqb c 32 || (leb 9 c && leb c 13) || (leb 28 c && leb c 31)

-- A test of every character.
abbrev pub all_chars : (ℕ → Bool) → Text → Bool
all_chars p [] = true
all_chars p (c ∷ s) = p c && all_chars p s

unfoldable pub strip_left : Text → Text
strip_left [] = []
strip_left (c ∷ s) = if is_space c then strip_left s else c ∷ s

unfoldable pub strip : Text → Text
unfolding strip_left
strip s = reverse (strip_left (reverse (strip_left s)))

unfoldable pub to_upper : Text → Text
to_upper = map (λ c. if leb b'a' c && leb c b'z' then c - 32 else c)

-- `str(n)` for a natural number, with one digit for each round and one round to spare.
unfoldable pub digits_of : ℕ → ℕ → Text → Text
digits_of zero n acc = acc
digits_of (suc rounds) n acc =
    let rest = digits_of rounds (n / 10) ((b'0' + n % 10) ∷ acc) in
    if ltb n 10 then (b'0' + n) ∷ acc else rest

unfoldable pub show_ℕ : ℕ → Text
unfolding digits_of
show_ℕ n = digits_of (suc n) n []

unfoldable pub show : ℤ → Text
show (pos n) = show_ℕ n
show (negsuc n) = b'-' ∷ show_ℕ (suc n)

-- `int(text)` of digits, and `int(text, 16)` behind the `0x`.
unfoldable pub digits_value : ℕ → ℕ → Text → ℕ
digits_value base acc [] = acc
digits_value base acc (c ∷ s) =
    digits_value base (acc * base + (if is_digit c then c - b'0' else c - b'A' + 10)) s

unfoldable pub int_value : Text → ℤ
unfolding digits_value
int_value (c ∷ s) =
    if eqb c b'-' then neg (pos (digits_value 10 0 s)) else pos (digits_value 10 0 (c ∷ s))
int_value [] = pos 0

unfoldable pub hex_value : Text → ℤ
unfolding digits_value
hex_value (z ∷ x ∷ s) = pos (digits_value 16 0 s)
hex_value _ = pos 0
