-- ===== src/Mcu/Pattern/RoundTrip.antt =====
-- A text that is put together from a pattern and fitting values matches, with those values.
use mousinator.Prelude.{
  ℕ, zero, suc, ◌≡◌, refl, ◌⊎◌, inl, inr, Bool, true, false, none, some, List, [], ◌∷◌, ◌++◌, arith,
  length, ap,
}
use mousinator.Prelude.Text.{Text, is_digit, is_upper_word, is_hex, all_chars}
use mousinator.Mcu.Pattern.{
  Atom, bit, digits, signed, upper, hex, word, either, Piece, lit, group, Fields, span, non_empty,
  drop_prefix, take_class, with_first, taken_word, match_signed, match_hex, is_bit, match_atom,
  with_field, fullmatch,
}

abbrev pub IsRun : (ℕ → Bool) → Text → Type 0
IsRun p [] = ⊥
IsRun p (c ∷ s) = all_chars p (c ∷ s) ≡ true

-- What an atom accepts.
abbrev pub Accepts : Atom → Text → Type 0
Accepts bit [] = ⊥
Accepts bit (c ∷ []) = is_bit c ≡ true
Accepts bit (c ∷ d ∷ s) = ⊥
Accepts digits s = IsRun is_digit s
Accepts signed [] = ⊥
Accepts signed (c ∷ s) = ((c ≡ b'-') × IsRun is_digit s) ⊎ (all_chars is_digit (c ∷ s) ≡ true)
Accepts upper s = IsRun is_upper_word s
Accepts (hex n) [] = ⊥
Accepts (hex n) (z ∷ []) = ⊥
Accepts (hex n) (z ∷ x ∷ s) = (z ≡ b'0') × (x ≡ b'x') × (length s ≡ n) × (all_chars is_hex s ≡ true)
Accepts (word w) s = s ≡ w
Accepts (either a b) s =
    Accepts a s ⊎ (Accepts b s × ((rest : Text) → match_atom a (s ++ rest) ≡ none))

-- What follows does not go on with the class.
abbrev pub EndsRun : (ℕ → Bool) → Text → Type 0
EndsRun p [] = Unit
EndsRun p (c ∷ s) = p c ≡ false

abbrev pub Ends : Atom → Text → Type 0
Ends digits rest = EndsRun is_digit rest
Ends signed rest = EndsRun is_digit rest
Ends upper rest = EndsRun is_upper_word rest
Ends (either a b) rest = Ends a rest × Ends b rest
Ends _ rest = Unit

-- A pattern with its groups filled in, and the fields that this gives.
abbrev pub render : List Piece → List Text → Text
render [] vs = []
render (lit w ∷ ps) vs = w ++ render ps vs
render (group name a ∷ ps) [] = []
render (group name a ∷ ps) (v ∷ vs) = v ++ render ps vs

abbrev pub fill : List Piece → List Text → Fields
fill [] vs = []
fill (lit w ∷ ps) vs = fill ps vs
fill (group name a ∷ ps) [] = []
fill (group name a ∷ ps) (v ∷ vs) = (name, v) ∷ fill ps vs

-- One value for each group: one that it accepts and that what follows does not prolong.
abbrev pub Fits : List Piece → List Text → Type 0
Fits [] [] = Unit
Fits [] (v ∷ vs) = ⊥
Fits (lit w ∷ ps) vs = Fits ps vs
Fits (group name a ∷ ps) [] = ⊥
Fits (group name a ∷ ps) (v ∷ vs) = Accepts a v × Ends a (render ps vs) × Fits ps vs

span-run :
    (p : ℕ → Bool) (v rest : Text)
    → all_chars p v ≡ true
    → EndsRun p rest
    → span p (v ++ rest) ≡ (v, rest)
unfolding span
span-run p [] [] h e = refl
span-run p [] (c ∷ s) h e = ground arith
span-run p (c ∷ v) rest h e = ground (arith, span-run p v rest)

drop_prefix-append : (w rest : Text) → drop_prefix w (w ++ rest) ≡ some rest
unfolding drop_prefix
drop_prefix-append [] rest = refl
drop_prefix-append (c ∷ w) rest = ground (arith, drop_prefix-append w rest)

take_class-append :
    (n : ℕ) (p : ℕ → Bool) (v rest : Text)
    → length v ≡ n
    → all_chars p v ≡ true
    → take_class n p (v ++ rest) ≡ some (v, rest)
unfolding take_class
take_class-append zero p [] rest l h = refl
take_class-append zero p (c ∷ v) rest l h = absurd (omega arith)
take_class-append (suc n) p [] rest l h = absurd (omega arith)
take_class-append (suc n) p (c ∷ v) rest l h = ground (arith, take_class-append n p v rest)

non_empty-run :
    (p : ℕ → Bool) (v rest : Text)
    → IsRun p v
    → EndsRun p rest
    → non_empty (span p (v ++ rest)) ≡ some (v, rest)
non_empty-run p [] rest h e = absurd h
non_empty-run p (c ∷ v) rest h e = rw (span-run p (c ∷ v) rest h e)

match_signed-Accepts :
    (v rest : Text)
    → Accepts signed v
    → EndsRun is_digit rest
    → match_signed (v ++ rest) ≡ some (v, rest)
unfolding match_signed
match_signed-Accepts [] rest h e = absurd h
match_signed-Accepts (c ∷ v) rest (inl (minus, run)) e =
    rw minus (ap (with_first b'-') (non_empty-run is_digit v rest run e))
match_signed-Accepts (c ∷ v) rest (inr run) e =
    ground (arith, non_empty-run is_digit (c ∷ v) rest run e)

match_hex-Accepts :
    (n : ℕ) (v rest : Text) → Accepts (hex n) v → match_hex n (v ++ rest) ≡ some (v, rest)
unfolding match_hex
match_hex-Accepts n [] rest h = absurd h
match_hex-Accepts n (z ∷ []) rest h = absurd h
match_hex-Accepts n (z ∷ x ∷ v) rest (zero_sign, x_sign, len, run) =
    rw (zero_sign, x_sign)
      (ap (λ m. with_first b'0' (with_first b'x' m)) (take_class-append n is_hex v rest len run))

match_atom-Accepts :
    (a : Atom) (v rest : Text)
    → Accepts a v
    → Ends a rest
    → match_atom a (v ++ rest) ≡ some (v, rest)
unfolding match_atom
match_atom-Accepts bit [] rest h e = absurd h
match_atom-Accepts bit (c ∷ []) rest h e = ground arith
match_atom-Accepts bit (c ∷ d ∷ v) rest h e = absurd h
match_atom-Accepts digits v rest h e = non_empty-run is_digit v rest h e
match_atom-Accepts signed v rest h e = match_signed-Accepts v rest h e
match_atom-Accepts upper v rest h e = non_empty-run is_upper_word v rest h e
match_atom-Accepts (hex n) v rest h e = match_hex-Accepts n v rest h
match_atom-Accepts (word w) v rest h e = rw h (ap (taken_word w) (drop_prefix-append w rest))
match_atom-Accepts (either a b) v rest (inl h) e = rw (match_atom-Accepts a v rest h e.0)
match_atom-Accepts (either a b) v rest (inr h) e =
    rw (h.1 rest, match_atom-Accepts b v rest h.0 e.1)

-- A pattern matches the text that its literals and fitting values make up, and gives each value
-- back under its group's name.
pub fullmatch-render :
    (ps : List Piece) (vs : List Text)
    → Fits ps vs
    → fullmatch ps (render ps vs) ≡ some (fill ps vs)
unfolding fullmatch
fullmatch-render [] [] h = refl
fullmatch-render [] (v ∷ vs) h = absurd h
fullmatch-render (lit w ∷ ps) vs h =
    rw (fullmatch, drop_prefix-append w (render ps vs)) (fullmatch-render ps vs h)
fullmatch-render (group name a ∷ ps) [] h = absurd h
fullmatch-render (group name a ∷ ps) (v ∷ vs) h =
    rw (fullmatch, match_atom-Accepts a v (render ps vs) h.0 h.1)
      (ap (with_field name v) (fullmatch-render ps vs h.2))
