-- ===== src/Tests/Tools.antt =====
-- The theorems on the box editor at concrete inputs; floats count thousandths, and label files too.
use mousinator.Tools.BoxEditor.Run.{run-open_image-IsValid}
use mousinator.Tools.BoxEditor.Completion.{correct-IsSaved, IsSaved}
use mousinator.Tools.BoxEditor.Bounds.{IsValid}
use mousinator.Tools.BoxEditor.Removing.{mouse_callback-Removes, Removes}
use mousinator.Prelude.Text.{digits_value, strip_left, show, strip, codes, int_value}
use mousinator.Tools.BoxEditor.Session.{space, mark, press, run_keys, pending, correct, Folder, Row}
use mousinator.Tools.BoxEditor.Undoing.{step-IsUndoable, IsUndoable}
use mousinator.Tools.BoxEditor.Boxes.{
  box_of, point_in_box, parse_lines, parse_yolo, clamp_pixel, Box,
}
use mousinator.Tools.BoxEditor.Editor.{
  run, push, right_down, left_up, snapshot, smallest, move, left_down, mouse, clears, matches_from,
  step, renders, on_mouse, Editor, open_image, display_to_image, Event, mouse_callback,
}
use mousinator.Tools.Labels.{
  split_words, read_line, drop_returns, pieces, split_lines, label_lines, Numerals,
}
use mousinator.Prelude.{
  arith, ◌≡◌, ◌*ℤ◌, ◌+ℤ◌, ◌-ℤ◌, ℕ, refl, false, none, some, List, [], ◌∷◌, ℤ, pos,
}
use mousinator.Tests.Fixed.{fixed}

abbrev pub numerals : Numerals ℤ
numerals = record {
  read_int = λ t. some (int_value t);
  read_float = λ t. some (int_value t);
  fixed6 = show;
}

abbrev no_image : Editor ℤ
no_image = record {
  width = 0;
  height = 0;
  boxes = [];
  auto_boxes = [];
  undo_stack = [];
  scale = pos 1000;
  dragging = false;
  drag_start = none;
  drag_current = none;
}

abbrev box : ℕ → ℕ → ℕ → ℕ → Box
box a b c d = record { x1 = a; y1 = b; x2 = c; y2 = d; cls_id = pos 0 }

-- An image of 100 by 80 with one box.
abbrev shown : Editor ℤ
shown = record no_image {
  width = 100;
  height = 80;
  boxes = box 30 24 70 56 ∷ [];
  auto_boxes = box 30 24 70 56 ∷ [];
}

-- A box is drawn inside the other one.
abbrev drawing : List Event
drawing =
    renders
    ∷ mouse left_down (pos 40) (pos 135)
    ∷ mouse move (pos 45) (pos 140)
    ∷ mouse left_up (pos 50) (pos 145)
    ∷ []

run-open_image-IsValid_example : IsValid (run drawing shown)
unfolding open_image parse_yolo parse_lines label_lines split_lines pieces drop_returns strip
    strip_left read_line split_words int_value digits_value clamp_pixel box_of ◌-ℤ◌ ◌+ℤ◌ ◌*ℤ◌
run-open_image-IsValid_example =
    run-open_image-IsValid numerals 100 80 (some (codes "0 500 500 400 400")) none no_image shown
      drawing (omega arith) (omega arith) refl

-- The editor after the drawing.
abbrev nested : Editor ℤ
nested = record shown { boxes = box 30 24 70 56 ∷ box 40 30 50 40 ∷ [] }

step-IsUndoable_example : IsUndoable nested (step clears nested)
step-IsUndoable_example = step-IsUndoable clears nested (λ e. cc)

mouse_callback-Removes_example :
    Removes (record { x = 45; y = 35 }) nested (mouse_callback right_down (pos 45) (pos 140) nested)
unfolding display_to_image clamp_pixel ◌-ℤ◌ ◌+ℤ◌ ◌*ℤ◌
mouse_callback-Removes_example =
    mouse_callback-Removes (pos 45) (pos 140) (record { x = 45; y = 35 }) nested refl

-- It removes the small one.
right_click_test :
    (mouse_callback right_down (pos 45) (pos 140) nested).boxes ≡ box 30 24 70 56 ∷ []
unfolding mouse_callback on_mouse matches_from point_in_box smallest snapshot push display_to_image
    clamp_pixel ◌-ℤ◌ ◌+ℤ◌ ◌*ℤ◌
right_click_test = refl

abbrev folder : Folder
folder = record {
  names = "a" ∷ [];
  width = λ n. 100;
  height = λ n. 80;
  stem = λ n. n;
  auto_labels = λ n. some (codes "0 500 500 400 400");
}

abbrev rows : List Row
rows =
    record { filename = "a"; decision = "needs_correction"; reviewed = "yes" }
    ∷ record { filename = "b"; decision = "accepted"; reviewed = "yes" }
    ∷ []

correct-IsSaved_example :
    IsSaved folder "a"
      (correct numerals folder rows [] no_image (space ∷ [])).written
      (correct numerals folder rows [] no_image (space ∷ [])).corrected_labels
unfolding correct pending strip strip_left run_keys press mark open_image parse_yolo parse_lines
    label_lines split_lines pieces drop_returns read_line split_words int_value digits_value
    clamp_pixel box_of ◌-ℤ◌ ◌+ℤ◌ ◌*ℤ◌
correct-IsSaved_example =
    correct-IsSaved numerals folder rows [] no_image (space ∷ []) 0 "a" refl refl
