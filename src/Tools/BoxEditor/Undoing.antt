-- ===== src/Tools/BoxEditor/Undoing.antt =====
-- Undo in the editor of tools/correct_mouse_boxes.py: Z gives back the boxes before the last edit.
use mousinator.Tools.BoxEditor.Boxes.{Box}
use mousinator.Tools.BoxEditor.Editor.{
  right_down, left_up, restores, move, clears, left_down, renders, outside, display_to_image,
  end_drag, raising, mouse, undoes, release, on, edit, remove_match, Event, Spot, popped, Point,
  mouse_callback, Match, Mouse, undo, Editor, drag_box, snapshot, push, step, on_mouse,
}
use mousinator.Prelude.Floats.{Floats}
use mousinator.Prelude.{
  ltb, ◌≤◌, Bool-cases, none, [], some, if_both, arith, ◌≢◌, ◌∷◌, length, Option, List, ◌<◌, ◌≡◌,
  refl, ◌⊎◌, inl, inr,
}

-- The event left the boxes and the stack alone; or Z after it gives back the boxes, and the stack
-- too unless it held 50 snapshots.
abbrev pub IsUndoable : {F : Type 0} ⦃fl : Floats F⦄ → Editor F → Editor F → Type 0
IsUndoable e d =
    ((d.boxes ≡ e.boxes) × (d.undo_stack ≡ e.undo_stack))
    ⊎ (((undo d).boxes ≡ e.boxes)
        × ((50 ≤ length e.undo_stack) ⊎ ((undo d).undo_stack ≡ e.undo_stack)))

module _ {F : Type 0} ⦃fl : Floats F⦄ where
  popped_lem :
      (bs cs : List Box) (stack : List (List Box)) (e : Editor F)
      → (popped (push cs stack) (record e { boxes = bs; undo_stack = push cs stack })).boxes ≡ cs
  unfolding push
  popped_lem bs cs [] e = ground arith
  popped_lem bs cs (s ∷ stack) e = ground arith

  popped_stack :
      (bs cs : List Box) (stack : List (List Box)) (e : Editor F)
      → length stack < 50
      → (popped (push cs stack) (record e { boxes = bs; undo_stack = push cs stack })).undo_stack
        ≡ stack
  unfolding push
  popped_stack bs cs stack e few = ground arith

  edit-IsUndoable : (bs : List Box) (e : Editor F) → IsUndoable e (edit bs e)
  unfolding snapshot undo
  edit-IsUndoable bs e = inr (
    popped_lem bs e.boxes e.undo_stack e,
    elim (Bool-cases (ltb (length e.undo_stack) 50)) [
      | inl few ↦ inr (popped_stack bs e.boxes e.undo_stack e (ground arith))
      | inr many ↦ inl (ground arith)
    ],
  )

  release-IsUndoable : (o : Option Point) (s : Spot) (e : Editor F) → IsUndoable e (release o s e)
  unfolding drag_box
  release-IsUndoable none outside e = inl (refl, refl)
  release-IsUndoable none (on q) e = inl (refl, refl)
  release-IsUndoable none raising e = inl (refl, refl)
  release-IsUndoable (some p) outside e = inl (refl, refl)
  release-IsUndoable (some p) raising e = inl (refl, refl)
  release-IsUndoable (some p) (on q) e =
      if_both (IsUndoable e) _ (edit-IsUndoable _ (end_drag e)) (inl (refl, refl))

  remove_match-IsUndoable : (ms : List Match) (e : Editor F) → IsUndoable e (remove_match ms e)
  remove_match-IsUndoable [] e = inl (refl, refl)
  remove_match-IsUndoable (m ∷ ms) e = edit-IsUndoable _ e

  on_mouse-IsUndoable : (m : Mouse) (s : Spot) (e : Editor F) → IsUndoable e (on_mouse m s e)
  unfolding on_mouse
  on_mouse-IsUndoable left_down raising e = inl (refl, refl)
  on_mouse-IsUndoable move raising e = inl (refl, refl)
  on_mouse-IsUndoable left_up raising e = inl (refl, refl)
  on_mouse-IsUndoable right_down raising e = inl (refl, refl)
  on_mouse-IsUndoable left_down outside e = inl (refl, refl)
  on_mouse-IsUndoable left_down (on p) e = inl (refl, refl)
  on_mouse-IsUndoable move outside e = inl (refl, refl)
  on_mouse-IsUndoable move (on p) e =
      if_both (IsUndoable e) e.dragging {x = record e { drag_current = some p }} (inl (refl, refl))
        (inl (refl, refl))
  on_mouse-IsUndoable left_up outside e =
      if_both (IsUndoable e) e.dragging (release-IsUndoable e.drag_start outside e)
        (inl (refl, refl))
  on_mouse-IsUndoable left_up (on p) e =
      if_both (IsUndoable e) e.dragging (release-IsUndoable e.drag_start (on p) e)
        (inl (refl, refl))
  on_mouse-IsUndoable right_down outside e = inl (refl, refl)
  on_mouse-IsUndoable right_down (on p) e = remove_match-IsUndoable _ e

  -- Every event but an undo leaves the boxes and the undo stack as they were, or an undo after it
  -- gives back the boxes, and the undo stack as well if it held fewer than 50 snapshots.
  pub step-IsUndoable : (t : Event) (e : Editor F) → t ≢ undoes → IsUndoable e (step t e)
  unfolding step mouse_callback
  step-IsUndoable renders e other = inl (refl, refl)
  step-IsUndoable (mouse m x y) e other = on_mouse-IsUndoable m (display_to_image x y e) e
  step-IsUndoable clears e other = edit-IsUndoable [] e
  step-IsUndoable restores e other = edit-IsUndoable e.auto_boxes e
  step-IsUndoable undoes e other = absurd (other refl)
