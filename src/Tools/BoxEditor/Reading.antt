-- ===== src/Tools/BoxEditor/Reading.antt =====
-- The boxes that tools/correct_mouse_boxes.py reads from a label file lie inside the image.
use mousinator.Prelude.{
  ℕ, ◌≡◌, refl, Option, none, some, List, [], ◌∷◌, ℤ, All, All-append, arith, pos,
}
use mathlib.Core.Path.{subst}
use mousinator.Prelude.Floats.{Floats}
use mousinator.Prelude.Text.{Text}
use mousinator.Tools.Labels.{Numerals, Line, other_count, not_read, read, read_line, label_lines}
use mousinator.Tools.BoxEditor.Boxes.{
  low_corner, Box, IsInside, clamp_pixel, box_of, boxes_of, joined, clamped, line_boxes,
  parse_lines, parse_yolo,
}

box_of-IsInside :
    (w h : ℕ) (c : ℤ) (l t : ℕ) (p q : ℤ)
    → All (IsInside w h) (box_of c l t (clamp_pixel w p) (clamp_pixel h q))
unfolding box_of clamp_pixel
box_of-IsInside w h c l t p q = ground arith

boxes_of-IsInside :
    (w h : ℕ) (c : ℤ) (l t : Option ℕ) (r b : Option ℤ) (bs : List Box)
    → boxes_of c l t (clamped w r) (clamped h b) ≡ some bs
    → All (IsInside w h) bs
boxes_of-IsInside w h c (some l) (some t) (some r) (some b) bs e =
    subst (All (IsInside w h)) (cc) (box_of-IsInside w h c l t r b)
boxes_of-IsInside w h c none t r b bs e = absurd (cc)
boxes_of-IsInside w h c (some l) none r b bs e = absurd (cc)
boxes_of-IsInside w h c (some l) (some t) none b bs e = absurd (cc)
boxes_of-IsInside w h c (some l) (some t) (some r) none bs e = absurd (cc)

joined-All :
    (P : Box → Type 0) (o o' : Option (List Box)) (bs : List Box)
    → ((cs : List Box) → o ≡ some cs → All P cs)
    → ((cs : List Box) → o' ≡ some cs → All P cs)
    → joined o o' ≡ some bs
    → All P bs
joined-All P (some cs) (some ds) bs f g e =
    subst (All P) (cc) (All-append P cs ds (f cs refl) (g ds refl))
joined-All P _ _ bs f g e = absurd (cc)

module _ {F : Type 0} ⦃fl : Floats F⦄ where
  line_boxes-IsInside :
      (w h : ℕ) (line : Line F) (bs : List Box)
      → line_boxes w h line ≡ some bs
      → All (IsInside w h) bs
  line_boxes-IsInside w h other_count bs e = subst (All (IsInside w h)) {x = []} (cc) tt
  line_boxes-IsInside w h not_read bs e = absurd (cc)
  line_boxes-IsInside w h (read c xc yc bw bh) bs e =
      boxes_of-IsInside w h c (low_corner xc bw w) (low_corner yc bh h)
        (fl.round (fl.mul (fl.add xc (fl.div bw (fl.literal 2 1))) (fl.of_int (pos w))))
        (fl.round (fl.mul (fl.add yc (fl.div bh (fl.literal 2 1))) (fl.of_int (pos h)))) bs e

module _ {F : Type 0} ⦃fl : Floats F⦄ (numerals : Numerals F) where
  parse_lines-IsInside :
      (w h : ℕ) (ts : List Text) (bs : List Box)
      → parse_lines numerals w h ts ≡ some bs
      → All (IsInside w h) bs
  unfolding parse_lines
  parse_lines-IsInside w h [] bs e = subst (All (IsInside w h)) {x = []} (cc) tt
  parse_lines-IsInside w h (t ∷ ts) bs e =
      joined-All (IsInside w h) _ _ bs (line_boxes-IsInside w h (read_line numerals t))
        (parse_lines-IsInside w h ts) e

  -- Every box that `parse_yolo` reads from a label file, whatever its text, has its corners in order
  -- and inside the image.
  pub parse_yolo-IsInside :
      (w h : ℕ) (text : Option Text) (bs : List Box)
      → parse_yolo numerals w h text ≡ some bs
      → All (IsInside w h) bs
  unfolding parse_yolo
  parse_yolo-IsInside w h none bs e = subst (All (IsInside w h)) {x = []} (cc) tt
  parse_yolo-IsInside w h (some text) bs e = parse_lines-IsInside w h (label_lines text) bs e
