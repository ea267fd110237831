-- ===== src/Mcu/Pattern.antt =====
-- The fragment of Python's regular expressions that host/sentry_mcu.py uses: literals and named
-- groups in a row. No group can give back what it took, since what follows it starts with a
-- character that it does not accept, so the match needs no backtracking.
pub mod RoundTrip
use mousinator.Prelude.{
  ℕ, zero, suc, String, Bool, true, false, ◌&&◌, ◌||◌, not, Option, none, some, List, [], ◌∷◌, ◌++◌,
  eqb, if◌then◌else◌, ◌==◌,
}
use mousinator.Prelude.Text.{Text, codes, eq_text, starts_with, is_digit, is_upper_word, is_hex}

-- What a group accepts: [01], \d+, -?\d+, [A-Z_]+, 0x[0-9A-F]{n}, a word, or one of two.
pub data Atom : Type 0 where
  bit digits signed upper : Atom
  hex : ℕ → Atom
  word : Text → Atom
  either : Atom → Atom → Atom

pub data Piece : Type 0 where
  lit : Text → Piece
  group : String → Atom → Piece

abbrev pub Fields : Type 0
Fields = List (String × Text)

-- The longest prefix of characters of a class, and the rest.
unfoldable pub span : (ℕ → Bool) → Text → Text × Text
span p [] = ([], [])
span p (c ∷ s) = let (taken, rest) = span p s in if p c then (c ∷ taken, rest) else ([], c ∷ s)

-- A non-empty prefix of characters of a class.
abbrev pub non_empty : Text × Text → Option (Text × Text)
non_empty ([], rest) = none
non_empty (c ∷ s, rest) = some (c ∷ s, rest)

-- The text without a prefix that it has to start with.
unfoldable pub drop_prefix : Text → Text → Option Text
drop_prefix [] t = some t
drop_prefix (a ∷ s) [] = none
drop_prefix (a ∷ s) (b ∷ t) = if eqb a b then drop_prefix s t else none

-- Exactly `n` characters of a class.
unfoldable pub take_class : ℕ → (ℕ → Bool) → Text → Option (Text × Text)
take_class zero p s = some ([], s)
take_class (suc n) p [] = none
take_class (suc n) p (c ∷ s) =
    if p c
    then elim (take_class n p s) [ none ↦ none | some (taken, rest) ↦ some (c ∷ taken, rest) ]
    else none

-- A character put back in front of what was taken.
abbrev pub with_first : ℕ → Option (Text × Text) → Option (Text × Text)
with_first c none = none
with_first c (some (taken, rest)) = some (c ∷ taken, rest)

abbrev pub taken_word : Text → Option Text → Option (Text × Text)
taken_word w none = none
taken_word w (some rest) = some (w, rest)

abbrev pub first_of_two : Option (Text × Text) → Option (Text × Text) → Option (Text × Text)
first_of_two none b = b
first_of_two (some m) b = some m

unfoldable pub match_signed : Text → Option (Text × Text)
unfolding span
match_signed [] = none
match_signed (c ∷ s) =
    if eqb c b'-'
    then with_first c (non_empty (span is_digit s))
    else non_empty (span is_digit (c ∷ s))

unfoldable pub match_hex : ℕ → Text → Option (Text × Text)
unfolding take_class
match_hex n (z ∷ x ∷ s) =
    if eqb z b'0' && eqb x b'x' then with_first z (with_first x (take_class n is_hex s)) else none
match_hex n _ = none

-- [01]
abbrev pub is_bit : ℕ → Bool
is_bit c = eqb c b'0' || eqb c b'1'

abbrev match_bit : Text → Option (Text × Text)
match_bit [] = none
match_bit (c ∷ s) = if is_bit c then some (c ∷ [], s) else none

unfoldable pub match_atom : Atom → Text → Option (Text × Text)
unfolding span drop_prefix match_signed match_hex
match_atom bit s = match_bit s
match_atom digits s = non_empty (span is_digit s)
match_atom signed s = match_signed s
match_atom upper s = non_empty (span is_upper_word s)
match_atom (hex n) s = match_hex n s
match_atom (word w) s = taken_word w (drop_prefix w s)
match_atom (either a b) s = first_of_two (match_atom a s) (match_atom b s)

abbrev pub with_field : String → Text → Option Fields → Option Fields
with_field name v none = none
with_field name v (some fields) = some ((name, v) ∷ fields)

-- `pattern.fullmatch(text).groupdict()`
unfoldable pub fullmatch : List Piece → Text → Option Fields
unfolding match_atom
fullmatch [] [] = some []
fullmatch [] (c ∷ s) = none
fullmatch (lit w ∷ ps) s = elim (drop_prefix w s) [ none ↦ none | some rest ↦ fullmatch ps rest ]
fullmatch (group name a ∷ ps) s = elim (match_atom a s) [
  | none ↦ none
  | some (v, rest) ↦ with_field name v (fullmatch ps rest)
]

-- `fields.get(name)`
unfoldable pub field : String → Fields → Option Text
field name [] = none
field name ((k, v) ∷ fields) = if k == name then some v else field name fields
