-- ===== src/Tools/LabelCheck.antt =====
-- `validate_label_file` of tools/build_final_mouse_labels_v2.py.
use mousinator.Tools.Labels.{not_read, other_count, read_line, read, label_lines, Line, Numerals}
use mousinator.Prelude.Text.{Text}
use mousinator.Prelude.Floats.{in_unit_range, Floats}
use mousinator.Prelude.{
  eqb_ℤ, not, some, ◌++◌, [], none, ◌||◌, ◌∷◌, Option, ◌&&◌, pos, List, ℕ, suc, ◌+◌, Bool, true,
  false,
}

-- The errors of a label file, with the number of the line.
pub data Fault : Type 0 where
  missing_label_file : Fault
  field_count parse_error class_not_zero : ℕ → Fault
  xc_out_of_range yc_out_of_range width_out_of_range height_out_of_range : ℕ → Fault
  x_box_outside_image y_box_outside_image : ℕ → Fault

pub record Validation : Type 0 where
  pub valid : Bool
  pub num_boxes : ℕ
  pub errors : List Fault

abbrev pub fault_if : Bool → Fault → List Fault
fault_if true f = f ∷ []
fault_if false f = []

-- `len(errors) == 0`
abbrev pub is_empty {ℓ} : {A : Type ℓ} → List A → Bool
is_empty [] = true
is_empty (x ∷ xs) = false

abbrev pub validation : List Fault → ℕ → Validation
validation errors boxes = record { valid = is_empty errors; num_boxes = boxes; errors = errors }

module _ {F : Type 0} ⦃fl : Floats F⦄ where
  -- `0.0 < x <= 1.0`
  abbrev pub in_half_open_range : F → Bool
  in_half_open_range x = fl.lt (fl.literal 0 1) x && fl.le x (fl.literal 1 1)

  -- The edges `c - s / 2` and `c + s / 2` leave the image by more than the tolerance 1e-3.
  unfoldable pub is_outside : F → F → Bool
  is_outside c s =
      let tolerance = fl.literal 1 1000 in
      fl.lt (fl.sub c (fl.div s (fl.of_int (pos 2)))) (fl.sub (fl.literal 0 1) tolerance)
      || fl.lt (fl.add (fl.literal 1 1) tolerance) (fl.add c (fl.div s (fl.of_int (pos 2))))

  unfoldable pub line_faults : ℕ → Line F → List Fault
  unfolding is_outside
  line_faults i other_count = field_count i ∷ []
  line_faults i not_read = parse_error i ∷ []
  line_faults i (read c xc yc bw bh) =
      fault_if (not (eqb_ℤ c (pos 0))) (class_not_zero i)
      ++ fault_if (not (in_unit_range xc)) (xc_out_of_range i)
      ++ fault_if (not (in_unit_range yc)) (yc_out_of_range i)
      ++ fault_if (not (in_half_open_range bw)) (width_out_of_range i)
      ++ fault_if (not (in_half_open_range bh)) (height_out_of_range i)
      ++ fault_if (is_outside xc bw) (x_box_outside_image i)
      ++ fault_if (is_outside yc bh) (y_box_outside_image i)

  -- What a line adds to `num_boxes`.
  abbrev pub line_boxes : Line F → ℕ
  line_boxes other_count = 0
  line_boxes not_read = 0
  line_boxes (read c xc yc bw bh) = 1

module _ {F : Type 0} ⦃fl : Floats F⦄ (n : Numerals F) where
  -- The errors of the lines, which are numbered from `i`.
  unfoldable pub lines_faults : ℕ → List Text → List Fault
  unfolding line_faults read_line
  lines_faults i [] = []
  lines_faults i (t ∷ ts) = line_faults i (read_line n t) ++ lines_faults (suc i) ts

  unfoldable pub count_boxes : List Text → ℕ
  unfolding read_line
  count_boxes [] = 0
  count_boxes (t ∷ ts) = line_boxes (read_line n t) + count_boxes ts

  -- `validate_label_file` of the text of the file, if there is one.
  unfoldable pub validate_label_file : Option Text → Validation
  unfolding lines_faults count_boxes label_lines
  validate_label_file none = validation (missing_label_file ∷ []) 0
  validate_label_file (some text) =
      validation (lines_faults 1 (label_lines text)) (count_boxes (label_lines text))
