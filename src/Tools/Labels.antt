-- ===== src/Tools/Labels.antt =====
-- The label files of the tools: lines of a class and four fractions. What Python's `int`, `float` and
-- the format `.6f` make of a text or a float is a parameter.
use mousinator.Prelude.{
  ◌==◌, String, ℕ, Bool, ◌&&◌, ◌||◌, Option, none, some, List, [], ◌∷◌, ◌++◌, ℤ, leb, eqb,
  if◌then◌else◌,
}
use mousinator.Prelude.Text.{Text, is_space, strip, show}

-- `int(text)`, `float(text)`, nothing where they raise, and `f"{x:.6f}"`.
pub record Numerals (F : Type 0) : Type 0 where
  pub read_int : Text → Option ℤ
  pub read_float : Text → Option F
  pub fixed6 : F → Text

-- The ASCII characters that end a line for `str.splitlines`.
abbrev pub is_line_end : ℕ → Bool
is_line_end c = (leb 10 c && leb c 13) || (leb 28 c && leb c 30)

abbrev pub put_first : ℕ → List Text → List Text
put_first c [] = (c ∷ []) ∷ []
put_first c (t ∷ ts) = (c ∷ t) ∷ ts

-- The pieces between separators. `splitlines` leaves out an empty piece at the end, and takes
-- "\r\n" for one end.
unfoldable pub pieces : (ℕ → Bool) → Text → List Text
pieces p [] = [] ∷ []
pieces p (c ∷ s) = let rest = pieces p s in if p c then [] ∷ rest else put_first c rest

unfoldable pub drop_returns : Text → Text
drop_returns [] = []
drop_returns (c ∷ []) = c ∷ []
drop_returns (c ∷ d ∷ s) =
    let rest = drop_returns (d ∷ s) in if eqb c 13 && eqb d 10 then rest else c ∷ rest

abbrev pub drop_empty_last : List Text → List Text
drop_empty_last [] = []
drop_empty_last ([] ∷ []) = []
drop_empty_last (t ∷ ts) = t ∷ drop_empty_last ts

unfoldable pub split_lines : Text → List Text
unfolding pieces drop_returns
split_lines s = drop_empty_last (pieces is_line_end (drop_returns s))

abbrev pub drop_empty : List Text → List Text
drop_empty [] = []
drop_empty ([] ∷ ts) = drop_empty ts
drop_empty ((c ∷ t) ∷ ts) = (c ∷ t) ∷ drop_empty ts

-- `line.split()`
unfoldable pub split_words : Text → List Text
unfolding pieces
split_words s = drop_empty (pieces is_space s)

-- The five fields of a line, each read; a line has another number of fields, or one is not read.
pub data Line (F : Type 0) : Type 0 where
  other_count : Line F
  not_read : Line F
  read : ℤ → F → F → F → F → Line F

module _ {F : Type 0} (n : Numerals F) where
  abbrev pub fields_read : Option ℤ → Option F → Option F → Option F → Option F → Line F
  fields_read (some c) (some x) (some y) (some w) (some h) = read c x y w h
  fields_read _ _ _ _ _ = not_read

  abbrev pub fields_line : List Text → Line F
  fields_line (c ∷ x ∷ y ∷ w ∷ h ∷ []) =
      fields_read (n.read_int c) (n.read_float x) (n.read_float y) (n.read_float w) (n.read_float h)
  fields_line _ = other_count

  unfoldable pub read_line : Text → Line F
  unfolding split_words
  read_line t = fields_line (split_words t)

  -- `f"{cls_id} {xc:.6f} {yc:.6f} {bw:.6f} {bh:.6f}"`
  abbrev pub label_line : ℤ → F → F → F → F → Text
  unfolding show
  label_line c x y w h =
      show c ++ 32 ∷ n.fixed6 x ++ 32 ∷ n.fixed6 y ++ 32 ∷ n.fixed6 w ++ 32 ∷ n.fixed6 h

-- `"\n".join(lines) + ("\n" if lines else "")`
unfoldable pub join_lines : List Text → Text
join_lines [] = []
join_lines (t ∷ ts) = t ++ 10 ∷ join_lines ts

-- The lines of a stripped label file; an empty file has none.
unfoldable pub label_lines : Text → List Text
unfolding split_lines strip
label_lines s = let t = strip s in elim t [ [] ↦ [] | c ∷ u ↦ split_lines (c ∷ u) ]

-- A file by its stem; a write goes before the older ones.
abbrev pub find_file : String → List (String × Text) → Option Text
find_file n [] = none
find_file n (f ∷ fs) = if f.0 == n then some f.1 else find_file n fs
