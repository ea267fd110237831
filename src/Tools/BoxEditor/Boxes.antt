-- ===== src/Tools/BoxEditor/Boxes.antt =====
-- The boxes of tools/correct_mouse_boxes.py in the pixels of an image, read from a label file by
-- `parse_yolo` and written by `save_yolo`. An image has no negative pixels, so the corners of a box
-- are natural numbers.
use mousinator.Prelude.{
  ℕ, ◌+◌, ◌-◌, ◌*◌, ◌<◌, Bool, ◌&&◌, ◌||◌, Option, none, some, List, [], ◌∷◌, ◌++◌, ℤ, pos,
  pos_part, ltb, leb, if◌then◌else◌,
}
use mousinator.Prelude.Floats.{Floats}
use mousinator.Prelude.Text.{Text}
use mousinator.Tools.Labels.{
  Numerals, Line, other_count, not_read, read, read_line, label_line, join_lines, label_lines,
}

pub record Box : Type 0 where
  pub x1 : ℕ
  pub y1 : ℕ
  pub x2 : ℕ
  pub y2 : ℕ
  pub cls_id : ℤ

-- The corners are in order and name pixels of an image of this width and height.
pub record IsInside (width height : ℕ) (b : Box) : Type 0 where
  pub left_of : b.x1 < b.x2
  pub above : b.y1 < b.y2
  pub in_width : b.x2 < width
  pub in_height : b.y2 < height

-- `max(0, min(limit - 1, p))`
unfoldable pub clamp_pixel : ℕ → ℤ → ℕ
clamp_pixel limit p = if leb (pos_part p) (limit - 1) then pos_part p else limit - 1

-- `max(0, min(limit, p))` of a pixel.
abbrev pub clamp_edge : ℕ → ℕ → ℕ
clamp_edge limit p = if leb p limit then p else limit

-- A box of the four clamped corners, unless it is empty.
unfoldable pub box_of : ℤ → ℕ → ℕ → ℕ → ℕ → List Box
box_of c x1 y1 x2 y2 =
    if ltb x1 x2 && ltb y1 y2
    then record { x1 = x1; y1 = y1; x2 = x2; y2 = y2; cls_id = c } ∷ []
    else []

-- A computation goes on with a corner that did not raise.
abbrev pub with_corner : Option ℕ → (ℕ → Option (List Box)) → Option (List Box)
with_corner none f = none
with_corner (some p) f = f p

abbrev pub boxes_of : ℤ → Option ℕ → Option ℕ → Option ℕ → Option ℕ → Option (List Box)
boxes_of c l t r b = with_corner l (λ x1.
    with_corner t (λ y1. with_corner r (λ x2. with_corner b (λ y2. some (box_of c x1 y1 x2 y2)))))

-- `boxes` extended by the rest; nothing where a line raises.
abbrev pub joined : Option (List Box) → Option (List Box) → Option (List Box)
joined (some bs) (some cs) = some (bs ++ cs)
joined _ _ = none

abbrev pub clamped : ℕ → Option ℤ → Option ℕ
clamped n none = none
clamped n (some p) = some (clamp_pixel n p)

module _ {F : Type 0} ⦃fl : Floats F⦄ where
  -- `int(round((c - s / 2.0) * n))` and `int(round((c + s / 2.0) * n))`, clamped.
  abbrev pub low_corner : F → F → ℕ → Option ℕ
  low_corner c s n =
      clamped n (fl.round (fl.mul (fl.sub c (fl.div s (fl.literal 2 1))) (fl.of_int (pos n))))

  abbrev pub high_corner : F → F → ℕ → Option ℕ
  high_corner c s n =
      clamped n (fl.round (fl.mul (fl.add c (fl.div s (fl.literal 2 1))) (fl.of_int (pos n))))

  -- The boxes of one line; nothing where it raises.
  abbrev pub line_boxes : ℕ → ℕ → Line F → Option (List Box)
  line_boxes width height other_count = some []
  line_boxes width height not_read = none
  line_boxes width height (read c xc yc bw bh) =
      boxes_of c (low_corner xc bw width) (low_corner yc bh height) (high_corner xc bw width)
        (high_corner yc bh height)

module _ {F : Type 0} ⦃fl : Floats F⦄ (numerals : Numerals F) where
  unfoldable pub parse_lines : ℕ → ℕ → List Text → Option (List Box)
  unfolding read_line
  parse_lines width height [] = some []
  parse_lines width height (t ∷ ts) =
      joined (line_boxes width height (read_line numerals t)) (parse_lines width height ts)

  -- `parse_yolo` of the text of a file, if there is one; nothing where it raises.
  unfoldable pub parse_yolo : ℕ → ℕ → Option Text → Option (List Box)
  unfolding parse_lines label_lines
  parse_yolo width height none = some []
  parse_yolo width height (some text) = parse_lines width height (label_lines text)

  -- The line of a box that `save_yolo` writes, of clamped corners, if the box is not empty.
  abbrev pub saved_line : ℤ → ℕ → ℕ → ℕ → ℕ → ℕ → ℕ → List Text
  saved_line c x1 y1 x2 y2 width height =
      if leb x2 x1 || leb y2 y1
      then []
      else label_line numerals c
          (fl.div (fl.div (fl.of_int (pos (x1 + x2))) (fl.literal 2 1)) (fl.of_int (pos width)))
          (fl.div (fl.div (fl.of_int (pos (y1 + y2))) (fl.literal 2 1)) (fl.of_int (pos height)))
          (fl.div (fl.of_int (pos (x2 - x1))) (fl.of_int (pos width)))
          (fl.div (fl.of_int (pos (y2 - y1))) (fl.of_int (pos height)))
        ∷ []

  unfoldable pub saved_lines : ℕ → ℕ → List Box → List Text
  saved_lines width height [] = []
  saved_lines width height (b ∷ bs) =
      saved_line b.cls_id (clamp_edge width b.x1) (clamp_edge height b.y1) (clamp_edge width b.x2)
        (clamp_edge height b.y2) width height
      ++ saved_lines width height bs

  -- The text that `save_yolo` writes.
  unfoldable pub save_yolo : ℕ → ℕ → List Box → Text
  unfolding saved_lines join_lines
  save_yolo width height bs = join_lines (saved_lines width height bs)

unfoldable pub point_in_box : ℕ → ℕ → Box → Bool
point_in_box x y b = (leb b.x1 x && leb x b.x2) && leb b.y1 y && leb y b.y2

-- `(b[2] - b[0]) * (b[3] - b[1])`, of a box whose corners are in order.
abbrev pub area : Box → ℕ
area b = (b.x2 - b.x1) * (b.y2 - b.y1)
