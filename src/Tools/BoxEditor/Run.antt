-- ===== src/Tools/BoxEditor/Run.antt =====
-- The boxes of the editor of tools/correct_mouse_boxes.py stay inside the image from its opening on,
-- whatever the mouse and the keys do.
use mousinator.Tools.BoxEditor.Bounds.{
  popped-IsValid, edit-IsValid, spot_of-IsSpot, on_mouse-IsValid, IsSpot, IsValid,
}
use mousinator.Prelude.{
  ℕ, ◌<◌, ◌≡◌, refl, Option, none, some, List, [], ◌∷◌, ℤ, ltb_ℤ, ◌-ℤ◌, All, arith, if_both, pos,
}
use mathlib.Core.Path.{subst}
use mousinator.Prelude.Floats.{Floats}
use mousinator.Prelude.Text.{Text}
use mousinator.Tools.Labels.{Numerals}
use mousinator.Tools.BoxEditor.Boxes.{Box, IsInside}
use mousinator.Tools.BoxEditor.Editor.{
  current_boxes, loaded, header, open_image, proposed_loaded, Editor, outside, undo, mouse_callback,
  display_to_image, Event, renders, mouse, clears, restores, undoes, step, run,
}
use mousinator.Tools.BoxEditor.Reading.{parse_yolo-IsInside}

some_injective {ℓ} : {A : Type ℓ} {a b : A} → some a ≡ some b → a ≡ b
some_injective h = cc

module _ {F : Type 0} ⦃fl : Floats F⦄ where
  display_to_image-IsSpot :
      (x y : ℤ) (e : Editor F) → IsValid e → IsSpot e.width e.height (display_to_image x y e)
  unfolding display_to_image
  display_to_image-IsSpot x y e v =
      let iy = y -ℤ pos header in
      if_both (IsSpot e.width e.height) (ltb_ℤ iy (pos 0)) {x = outside} tt (
        spot_of-IsSpot e.width e.height (fl.round (fl.div (fl.of_int x) e.scale))
          (fl.round (fl.div (fl.of_int iy) e.scale)) v.some_width v.some_height)

  step-IsValid : (t : Event) (e : Editor F) → IsValid e → IsValid (step t e)
  unfolding step undo mouse_callback
  step-IsValid renders e v = record {
    some_width = v.some_width;
    some_height = v.some_height;
    boxes_in = v.boxes_in;
    auto_in = v.auto_in;
    stack_in = v.stack_in;
    stack_bound = v.stack_bound;
    start_on = v.start_on;
  }
  step-IsValid (mouse m x y) e v =
      on_mouse-IsValid m (display_to_image x y e) e (display_to_image-IsSpot x y e v) v
  step-IsValid clears e v = edit-IsValid [] e tt v
  step-IsValid restores e v = edit-IsValid e.auto_boxes e v.auto_in v
  step-IsValid undoes e v = popped-IsValid e.undo_stack e refl v

  run-IsValid : (ts : List Event) (e : Editor F) → IsValid e → IsValid (run ts e)
  unfolding run
  run-IsValid [] e v = v
  run-IsValid (t ∷ ts) e v = run-IsValid ts (step t e) (step-IsValid t e v)

  loaded-IsValid :
      (w h : ℕ) (proposed : List Box) (o : Option (List Box)) (e d : Editor F)
      → 0 < w
      → 0 < h
      → All (IsInside w h) proposed
      → ((bs : List Box) → o ≡ some bs → All (IsInside w h) bs)
      → loaded w h proposed o e ≡ some d
      → IsValid d
  loaded-IsValid w h proposed none e d p q a f same = absurd (cc)
  loaded-IsValid w h proposed (some bs) e d p q a f same =
      subst IsValid (some_injective same) (record {
        some_width = p;
        some_height = q;
        boxes_in = f bs refl;
        auto_in = a;
        stack_in = tt;
        stack_bound = omega arith;
        start_on = tt;
      })

module _ {F : Type 0} ⦃fl : Floats F⦄ (n : Numerals F) where
  current_boxes-IsInside :
      (w h : ℕ) (proposed : List Box) (text : Option Text) (bs : List Box)
      → All (IsInside w h) proposed
      → current_boxes n w h proposed text ≡ some bs
      → All (IsInside w h) bs
  current_boxes-IsInside w h proposed none bs a e = subst (All (IsInside w h)) {x = proposed} (cc) a
  current_boxes-IsInside w h proposed (some text) bs a e =
      parse_yolo-IsInside n w h (some text) bs e

  proposed_loaded-IsValid :
      (w h : ℕ) (o : Option (List Box)) (text : Option Text) (e d : Editor F)
      → 0 < w
      → 0 < h
      → ((bs : List Box) → o ≡ some bs → All (IsInside w h) bs)
      → proposed_loaded n w h o text e ≡ some d
      → IsValid d
  proposed_loaded-IsValid w h none text e d p q f same = absurd (cc)
  proposed_loaded-IsValid w h (some proposed) text e d p q f same =
      loaded-IsValid w h proposed _ e d p q (f proposed refl)
        (λ bs k. current_boxes-IsInside w h proposed text bs (f proposed refl) k) same

  -- From the opening of an image with pixels, whatever its label files say, through any mouse events
  -- and editing keys: every box, proposed box and snapshot on the undo stack has its corners in order
  -- and inside the image, and the stack holds at most 50 snapshots.
  pub run-open_image-IsValid :
      (w h : ℕ) (auto corrected : Option Text) (e d : Editor F) (ts : List Event)
      → 0 < w
      → 0 < h
      → open_image n w h auto corrected e ≡ some d
      → IsValid (run ts d)
  unfolding open_image
  run-open_image-IsValid w h auto corrected e d ts p q same = run-IsValid ts d (
      proposed_loaded-IsValid w h _ corrected e d p q (λ bs k. parse_yolo-IsInside n w h auto bs k)
        same)
