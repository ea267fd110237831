-- ===== src/Tools/BoxEditor/Bounds.antt =====
-- An edit of the boxes of tools/correct_mouse_boxes.py and a mouse event keep them inside the image.
use mousinator.Prelude.{
  ℕ, zero, suc, ◌-◌, ◌<◌, ◌≤◌, ◌≡◌, refl, true, ◌&&◌, Option, none, some, List, [], ◌∷◌, ℤ, ltb,
  leb, length, All, All-append, arith, Bool-cases, if_both, pos, inl, inr, ap,
}
use mathlib.Core.Path.{subst}
use mousinator.Prelude.Floats.{Floats}
use mousinator.Tools.BoxEditor.Boxes.{Box, IsInside, clamp_pixel}
use mousinator.Tools.BoxEditor.Editor.{
  Point, Editor, Mouse, left_down, move, left_up, right_down, Spot, outside, on, raising, spot_of,
  push, drop_last, remove_at, Match, popped, snapshot, edit, end_drag, lower, upper, drag_box,
  release, remove_match, on_mouse,
}

-- A point of the image; none is in order.
abbrev pub IsOn : ℕ → ℕ → Option Point → Type 0
IsOn w h none = Unit
IsOn w h (some p) = (p.x < w) × (p.y < h)

-- The boxes, the proposal and every snapshot lie in the image, at most 50 snapshots are kept, and a
-- drag starts on the image.
pub record IsValid {F : Type 0} (e : Editor F) : Type 0 where
  pub some_width : 0 < e.width
  pub some_height : 0 < e.height
  pub boxes_in : All (IsInside e.width e.height) e.boxes
  pub auto_in : All (IsInside e.width e.height) e.auto_boxes
  pub stack_in : All (All (IsInside e.width e.height)) e.undo_stack
  pub stack_bound : length e.undo_stack ≤ 50
  pub start_on : IsOn e.width e.height e.drag_start

-- A spot that the computation of the pixel may give.
abbrev pub IsSpot : ℕ → ℕ → Spot → Type 0
IsSpot w h (on p) = (p.x < w) × (p.y < h)
IsSpot w h _ = Unit

All-drop_last {ℓ κ} : {A : Type ℓ} (P : A → Type κ) (xs : List A) → All P xs → All P (drop_last xs)
All-drop_last P [] a = a
All-drop_last P (x ∷ []) a = tt
All-drop_last P (x ∷ y ∷ xs) a = (a.0, All-drop_last P (y ∷ xs) a.1)

All-remove_at {ℓ κ} :
    {A : Type ℓ} (P : A → Type κ) (i : ℕ) (xs : List A) → All P xs → All P (remove_at i xs)
All-remove_at P i [] a = a
All-remove_at P zero (x ∷ xs) a = a.1
All-remove_at P (suc i) (x ∷ xs) a = (a.0, All-remove_at P i xs a.1)

length-drop_last {ℓ} : {A : Type ℓ} (x : A) (xs : List A) → length (drop_last (x ∷ xs)) ≡ length xs
length-drop_last x [] = refl
length-drop_last x (y ∷ xs) = ap suc (length-drop_last y xs)

push_bound :
    (bs : List Box) (stack : List (List Box)) → length stack ≤ 50 → length (push bs stack) ≤ 50
unfolding push
push_bound bs stack n = ground (arith, length-drop_last bs stack)

push_in :
    (P : Box → Type 0) (bs : List Box) (stack : List (List Box))
    → All P bs
    → All (All P) stack
    → All (All P) (push bs stack)
unfolding push
push_in P bs stack a s =
    if_both (All (All P)) (ltb 50 (length (bs ∷ stack))) {y = bs ∷ stack}
      (All-drop_last (All P) (bs ∷ stack) (a, s)) (a, s)

pub spot_of-IsSpot : (w h : ℕ) (a b : Option ℤ) → 0 < w → 0 < h → IsSpot w h (spot_of w h a b)
unfolding clamp_pixel
spot_of-IsSpot w h (some a) (some b) p q = ground arith
spot_of-IsSpot w h (some a) none p q = tt
spot_of-IsSpot w h none b p q = tt

module _ {F : Type 0} ⦃fl : Floats F⦄ where
  pub edit-IsValid :
      (bs : List Box) (e : Editor F)
      → All (IsInside e.width e.height) bs
      → IsValid e
      → IsValid (edit bs e)
  unfolding snapshot
  edit-IsValid bs e a v = record {
    some_width = v.some_width;
    some_height = v.some_height;
    boxes_in = a;
    auto_in = v.auto_in;
    stack_in = push_in _ e.boxes e.undo_stack v.boxes_in v.stack_in;
    stack_bound = push_bound e.boxes e.undo_stack v.stack_bound;
    start_on = v.start_on;
  }

  pub popped-IsValid :
      (stack : List (List Box)) (e : Editor F)
      → e.undo_stack ≡ stack
      → IsValid e
      → IsValid (popped stack e)
  popped-IsValid [] e same v = v
  popped-IsValid (bs ∷ stack) e same v =
      let a = subst (All (All (IsInside e.width e.height))) same v.stack_in in
      record {
        some_width = v.some_width;
        some_height = v.some_height;
        boxes_in = a.0;
        auto_in = v.auto_in;
        stack_in = a.1;
        stack_bound = ground arith;
        start_on = v.start_on;
      }

  drag-IsInside :
      (p q : Point) (e : Editor F)
      → IsOn e.width e.height (some p)
      → IsOn e.width e.height (some q)
      → (leb 4 (upper p.x q.x - lower p.x q.x) && leb 4 (upper p.y q.y - lower p.y q.y)) ≡ true
      → IsInside e.width e.height (record {
        x1 = lower p.x q.x;
        y1 = lower p.y q.y;
        x2 = upper p.x q.x;
        y2 = upper p.y q.y;
        cls_id = pos 0;
      })
  drag-IsInside p q e a b wide = ground arith

  drag_box-IsValid :
      (p q : Point) (e : Editor F)
      → IsOn e.width e.height (some p)
      → IsOn e.width e.height (some q)
      → IsValid e
      → IsValid (drag_box p q e)
  unfolding drag_box
  drag_box-IsValid p q e a b v =
      elim (Bool-cases
        (leb 4 (upper p.x q.x - lower p.x q.x) && leb 4 (upper p.y q.y - lower p.y q.y))) [
          | inl wide ↦ simp wide (
              edit-IsValid _ e
                (All-append _ e.boxes _ v.boxes_in (drag-IsInside p q e a b wide, tt)) v)
          | inr narrow ↦ simp narrow v
        ]

  remove_match-IsValid : (ms : List Match) (e : Editor F) → IsValid e → IsValid (remove_match ms e)
  remove_match-IsValid [] e v = v
  remove_match-IsValid (m ∷ ms) e v = edit-IsValid _ e (All-remove_at _ _ e.boxes v.boxes_in) v

  end_drag-IsValid : (e : Editor F) → IsValid e → IsValid (end_drag e)
  end_drag-IsValid e v = record {
    some_width = v.some_width;
    some_height = v.some_height;
    boxes_in = v.boxes_in;
    auto_in = v.auto_in;
    stack_in = v.stack_in;
    stack_bound = v.stack_bound;
    start_on = tt;
  }

  release-IsValid :
      (o : Option Point) (s : Spot) (e : Editor F)
      → IsOn e.width e.height o
      → IsSpot e.width e.height s
      → IsValid e
      → IsValid (release o s e)
  release-IsValid none outside e a b v = end_drag-IsValid e v
  release-IsValid none (on q) e a b v = end_drag-IsValid e v
  release-IsValid none raising e a b v = end_drag-IsValid e v
  release-IsValid (some p) outside e a b v = end_drag-IsValid e v
  release-IsValid (some p) raising e a b v = end_drag-IsValid e v
  release-IsValid (some p) (on q) e a b v =
      drag_box-IsValid p q (end_drag e) a b (end_drag-IsValid e v)

  pub on_mouse-IsValid :
      (m : Mouse) (s : Spot) (e : Editor F)
      → IsSpot e.width e.height s
      → IsValid e
      → IsValid (on_mouse m s e)
  unfolding on_mouse
  on_mouse-IsValid left_down raising e a v = v
  on_mouse-IsValid move raising e a v = v
  on_mouse-IsValid left_up raising e a v = v
  on_mouse-IsValid right_down raising e a v = v
  on_mouse-IsValid left_down outside e a v = v
  on_mouse-IsValid left_down (on p) e a v = record {
    some_width = v.some_width;
    some_height = v.some_height;
    boxes_in = v.boxes_in;
    auto_in = v.auto_in;
    stack_in = v.stack_in;
    stack_bound = v.stack_bound;
    start_on = a;
  }
  on_mouse-IsValid move outside e a v = v
  on_mouse-IsValid move (on p) e a v =
      if_both IsValid e.dragging {x = record e { drag_current = some p }}
        (record {
          some_width = v.some_width;
          some_height = v.some_height;
          boxes_in = v.boxes_in;
          auto_in = v.auto_in;
          stack_in = v.stack_in;
          stack_bound = v.stack_bound;
          start_on = v.start_on;
        })
        v
  on_mouse-IsValid left_up outside e a v =
      if_both IsValid e.dragging (release-IsValid e.drag_start outside e v.start_on a v) v
  on_mouse-IsValid left_up (on p) e a v =
      if_both IsValid e.dragging (release-IsValid e.drag_start (on p) e v.start_on a v) v
  on_mouse-IsValid right_down outside e a v = v
  on_mouse-IsValid right_down (on p) e a v = remove_match-IsValid _ e v
