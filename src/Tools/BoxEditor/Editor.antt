-- ===== src/Tools/BoxEditor/Editor.antt =====
-- The class `Editor` of tools/correct_mouse_boxes.py: its mouse callback and the keys of `main` that
-- edit the boxes of the image that is shown.
use mousinator.Prelude.{
  ℕ, zero, suc, ◌-◌, Bool, true, false, ◌&&◌, Option, none, some, List, [], ◌∷◌, ◌++◌, ℤ, pos, ◌-ℤ◌,
  ltb, leb, ltb_ℤ, if◌then◌else◌, length,
}
use mousinator.Prelude.Floats.{Floats, min_float}
use mousinator.Prelude.Text.{Text}
use mousinator.Tools.Labels.{Numerals}
use mousinator.Tools.BoxEditor.Boxes.{Box, clamp_pixel, point_in_box, area, parse_yolo}

pub record Point : Type 0 where
  pub x : ℕ
  pub y : ℕ

-- `original` is seen only through its width and height. `undo_stack` has the newest snapshot first.
pub record Editor (F : Type 0) : Type 0 where
  pub width : ℕ
  pub height : ℕ
  pub boxes : List Box
  pub auto_boxes : List Box
  pub undo_stack : List (List Box)
  pub scale : F
  pub dragging : Bool
  pub drag_start : Option Point
  pub drag_current : Option Point

abbrev pub header : ℕ
header = 105

abbrev pub drop_last {ℓ} : {A : Type ℓ} → List A → List A
drop_last [] = []
drop_last (x ∷ []) = []
drop_last (x ∷ y ∷ xs) = x ∷ drop_last (y ∷ xs)

-- A snapshot on the stack, whose oldest one goes when there are more than 50.
unfoldable pub push : List Box → List (List Box) → List (List Box)
push bs stack = if ltb 50 (length (bs ∷ stack)) then drop_last (bs ∷ stack) else bs ∷ stack

abbrev pub remove_at {ℓ} : {A : Type ℓ} → ℕ → List A → List A
remove_at i [] = []
remove_at zero (x ∷ xs) = xs
remove_at (suc i) (x ∷ xs) = x ∷ remove_at i xs

pub record Match : Type 0 where
  pub index : ℕ
  pub size : ℕ

-- The boxes under a point, numbered from `i`.
unfoldable pub matches_from : ℕ → Point → List Box → List Match
unfolding point_in_box
matches_from i p [] = []
matches_from i p (b ∷ bs) =
    let rest = matches_from (suc i) p bs in
    if point_in_box p.x p.y b then record { index = i; size = area b } ∷ rest else rest

-- `min(matches, key=...)`: the first of the smallest.
unfoldable pub smallest : Match → List Match → Match
smallest m [] = m
smallest m (n ∷ ns) = if ltb n.size m.size then smallest n ns else smallest m ns

-- The two of `sorted((a, b))`.
abbrev pub lower : ℕ → ℕ → ℕ
lower a b = if leb a b then a else b

abbrev pub upper : ℕ → ℕ → ℕ
upper a b = if leb a b then b else a

-- The kinds of mouse events that the callback reads.
pub data Mouse : Type 0 where
  left_down move left_up right_down : Mouse

-- Where the pointer is: above the image, on a pixel, or where the computation of the pixel raises.
pub data Spot : Type 0 where
  outside : Spot
  on : Point → Spot
  raising : Spot

abbrev pub spot_of : ℕ → ℕ → Option ℤ → Option ℤ → Spot
spot_of w h (some px) (some py) = on (record { x = clamp_pixel w px; y = clamp_pixel h py })
spot_of w h _ _ = raising

module _ {F : Type 0} ⦃fl : Floats F⦄ where
  -- `fit_scale` with its defaults.
  unfoldable pub fit_scale : ℕ → ℕ → F
  fit_scale width height =
      min_float
        (min_float (fl.div (fl.of_int (pos 1500)) (fl.of_int (pos width)))
          (fl.div (fl.of_int (pos 820)) (fl.of_int (pos height))))
        (fl.literal 1 1)

  unfoldable pub snapshot : Editor F → Editor F
  unfolding push
  snapshot e = record e { undo_stack = push e.boxes e.undo_stack }

  abbrev pub popped : List (List Box) → Editor F → Editor F
  popped [] e = e
  popped (bs ∷ stack) e = record e { boxes = bs; undo_stack = stack }

  unfoldable pub undo : Editor F → Editor F
  undo e = popped e.undo_stack e

  unfoldable pub display_to_image : ℤ → ℤ → Editor F → Spot
  unfolding ◌-ℤ◌
  display_to_image x y e =
      let iy = y -ℤ pos header in
      if ltb_ℤ iy (pos 0)
      then outside
      else spot_of e.width e.height (fl.round (fl.div (fl.of_int x) e.scale))
          (fl.round (fl.div (fl.of_int iy) e.scale))

  -- The snapshot and the new list of boxes of an edit.
  abbrev pub edit : List Box → Editor F → Editor F
  edit bs e = record (snapshot e) { boxes = bs }

  abbrev pub end_drag : Editor F → Editor F
  end_drag e = record e { dragging = false; drag_start = none; drag_current = none }

  -- The box of a drag between two points, if it is at least four pixels wide and high.
  unfoldable pub drag_box : Point → Point → Editor F → Editor F
  drag_box p q e =
      let x1 = lower p.x q.x in
      let y1 = lower p.y q.y in
      let x2 = upper p.x q.x in
      let y2 = upper p.y q.y in
      if leb 4 (x2 - x1) && leb 4 (y2 - y1)
      then edit (e.boxes ++ record { x1 = x1; y1 = y1; x2 = x2; y2 = y2; cls_id = pos 0 } ∷ []) e
      else e

  abbrev pub release : Option Point → Spot → Editor F → Editor F
  release (some p) (on q) e = drag_box p q (end_drag e)
  release _ _ e = end_drag e

  abbrev pub remove_match : List Match → Editor F → Editor F
  remove_match [] e = e
  remove_match (m ∷ ms) e = edit (remove_at (smallest m ms).index e.boxes) e

  unfoldable pub on_mouse : Mouse → Spot → Editor F → Editor F
  unfolding matches_from
  on_mouse _ raising e = e
  on_mouse left_down outside e = e
  on_mouse left_down (on p) e = record e {
    dragging = true;
    drag_start = some p;
    drag_current = some p;
  }
  on_mouse move outside e = e
  on_mouse move (on p) e = if e.dragging then record e { drag_current = some p } else e
  on_mouse left_up outside e = if e.dragging then release e.drag_start outside e else e
  on_mouse left_up (on p) e = if e.dragging then release e.drag_start (on p) e else e
  on_mouse right_down outside e = e
  on_mouse right_down (on p) e = remove_match (matches_from 0 p e.boxes) e

  -- `mouse_callback`. Where the pixel is not computed it raises before any change.
  unfoldable pub mouse_callback : Mouse → ℤ → ℤ → Editor F → Editor F
  unfolding on_mouse display_to_image
  mouse_callback m x y e = on_mouse m (display_to_image x y e) e

-- The boxes to start from: those of a corrected label file, if there is one, or else the proposed.
abbrev pub current_boxes :
    {F : Type 0} ⦃fl : Floats F⦄ → Numerals F → ℕ → ℕ → List Box → Option Text → Option (List Box)
current_boxes n w h proposed none = some proposed
current_boxes n w h proposed (some text) = parse_yolo n w h (some text)

abbrev pub loaded :
    {F : Type 0} → ℕ → ℕ → List Box → Option (List Box) → Editor F → Option (Editor F)
loaded w h proposed none e = none
loaded w h proposed (some bs) e = some (record e {
  width = w;
  height = h;
  auto_boxes = proposed;
  boxes = bs;
  undo_stack = [];
  dragging = false;
  drag_start = none;
  drag_current = none;
})

abbrev pub proposed_loaded :
    {F : Type 0} ⦃fl : Floats F⦄
    → Numerals F
    → ℕ
    → ℕ
    → Option (List Box)
    → Option Text
    → Editor F
    → Option (Editor F)
proposed_loaded n w h none corrected e = none
proposed_loaded n w h (some proposed) corrected e =
    loaded w h proposed (current_boxes n w h proposed corrected) e

-- What `main` sets up for an image of this size, with the texts of its proposed and its corrected
-- label file where they are there; nothing where reading them raises.
unfoldable pub open_image :
    {F : Type 0} ⦃fl : Floats F⦄
    → Numerals F
    → ℕ
    → ℕ
    → Option Text
    → Option Text
    → Editor F
    → Option (Editor F)
open_image n w h auto corrected e = proposed_loaded n w h (parse_yolo n w h auto) corrected e

-- What happens while an image is shown: `render` sets the scale, the mouse calls back, and the keys
-- C, R and Z are pressed.
pub data Event : Type 0 where
  renders : Event
  mouse : Mouse → ℤ → ℤ → Event
  clears restores undoes : Event

module _ {F : Type 0} ⦃fl : Floats F⦄ where
  unfoldable pub step : Event → Editor F → Editor F
  unfolding fit_scale mouse_callback undo snapshot
  step renders e = record e { scale = fit_scale e.width e.height }
  step (mouse m x y) e = mouse_callback m x y e
  step clears e = edit [] e
  step restores e = edit e.auto_boxes e
  step undoes e = undo e

  unfoldable pub run : List Event → Editor F → Editor F
  unfolding step
  run [] e = e
  run (v ∷ vs) e = run vs (step v e)
