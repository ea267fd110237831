-- ===== src/Tools/AutoLabel.antt =====
-- The proposals of tools/auto_label_mouse.py: what `main` makes of the boxes and scores that the
-- detector returns for an image, which are a parameter.
pub mod Suppressed
use mousinator.Prelude.Text.{Text}
use mousinator.Tools.Labels.{label_line, join_lines, Numerals}
use mousinator.Prelude.Floats.{min_float, max_float, Floats}
use mousinator.Prelude.{
  [], map, keep, ◌||◌, length, none, some, ◌∷◌, List, pos, eqb, if◌then◌else◌, if◌then◌else◌,
  Option, ℕ, zero, suc, Bool, true, false,
}

pub record Box (F : Type 0) : Type 0 where
  pub x1 : F
  pub y1 : F
  pub x2 : F
  pub y2 : F

-- A box with its score; `nms_single_class` goes by the index of both.
pub record Proposal (F : Type 0) : Type 0 where
  pub box : Box F
  pub score : F

module _ {F : Type 0} ⦃fl : Floats F⦄ where
  abbrev pub zero_float : F
  zero_float = fl.literal 0 1

  unfoldable pub box_area : Box F → F
  box_area b =
      fl.mul (max_float zero_float (fl.sub b.x2 b.x1)) (max_float zero_float (fl.sub b.y2 b.y1))

  unfoldable pub intersection : Box F → Box F → F
  intersection a b =
      fl.mul (max_float zero_float (fl.sub (min_float a.x2 b.x2) (max_float a.x1 b.x1)))
        (max_float zero_float (fl.sub (min_float a.y2 b.y2) (max_float a.y1 b.y1)))

  unfoldable pub iou : Box F → Box F → F
  unfolding box_area intersection
  iou a b =
      let inter = intersection a b in
      let union = fl.sub (fl.add (box_area a) (box_area b)) inter in
      if fl.lt zero_float union then fl.div inter union else zero_float

  -- `sorted(..., reverse=True)`: equal scores keep their order.
  unfoldable pub insert : Proposal F → List (Proposal F) → List (Proposal F)
  insert p [] = p ∷ []
  insert p (q ∷ qs) =
      let rest = insert p qs in if fl.lt q.score p.score then p ∷ q ∷ qs else q ∷ rest

  unfoldable pub insert_all : List (Proposal F) → List (Proposal F) → List (Proposal F)
  unfolding insert
  insert_all [] sorted = sorted
  insert_all (p ∷ ps) sorted = insert_all ps (insert p sorted)

  -- The comprehension that shortens `order`.
  abbrev pub is_apart : F → Proposal F → Proposal F → Bool
  is_apart threshold current p = fl.le (iou current.box p.box) threshold

  abbrev pub kept_first : Proposal F → Option (List (Proposal F)) → Option (List (Proposal F))
  kept_first p none = none
  kept_first p (some ps) = some (p ∷ ps)

  -- The loop `while order`; nothing if the rounds run out.
  unfoldable pub nms_loop : ℕ → F → List (Proposal F) → Option (List (Proposal F))
  unfolding iou
  nms_loop rounds threshold [] = some []
  nms_loop zero threshold (p ∷ ps) = none
  nms_loop (suc k) threshold (p ∷ ps) =
      kept_first p (nms_loop k threshold (keep (is_apart threshold p) ps))

  -- `nms_single_class`; every round takes one proposal out.
  unfoldable pub nms_single_class : F → List (Proposal F) → Option (List (Proposal F))
  unfolding insert_all nms_loop
  nms_single_class threshold ps = nms_loop (length ps) threshold (insert_all ps [])

  -- `max(0.0, min(float(limit), value))`
  abbrev pub clamp_to : ℕ → F → F
  clamp_to limit value = max_float zero_float (min_float (fl.of_int (pos limit)) value)

  -- The swap of two coordinates that are out of order.
  abbrev pub first_of : F → F → F
  first_of a b = if fl.lt b a then b else a

  abbrev pub second_of : F → F → F
  second_of a b = if fl.lt b a then a else b

  unfoldable pub clamp_box : ℕ → ℕ → Box F → Box F
  clamp_box width height b =
      let x1 = clamp_to width b.x1 in
      let y1 = clamp_to height b.y1 in
      let x2 = clamp_to width b.x2 in
      let y2 = clamp_to height b.y2 in
      record {
        x1 = first_of x1 x2;
        y1 = first_of y1 y2;
        x2 = second_of x1 x2;
        y2 = second_of y1 y2;
      }

  abbrev pub is_thin : Box F → Bool
  is_thin b =
      fl.lt (fl.sub b.x2 b.x1) (fl.of_int (pos 2)) || fl.lt (fl.sub b.y2 b.y1) (fl.of_int (pos 2))

  -- The loop that clamps the boxes and leaves out the thin ones.
  unfoldable pub filtered : ℕ → ℕ → List (Proposal F) → List (Proposal F)
  unfolding clamp_box
  filtered width height [] = []
  filtered width height (p ∷ ps) =
      let box = clamp_box width height p.box in
      let rest = filtered width height ps in
      if is_thin box then rest else record { box = box; score = p.score } ∷ rest

  abbrev pub suppressed : F → List (Proposal F) → Option (List (Proposal F))
  suppressed threshold [] = some []
  suppressed threshold (p ∷ ps) = nms_single_class threshold (p ∷ ps)

  -- The proposals of an image.
  unfoldable pub propose : ℕ → ℕ → F → List (Proposal F) → Option (List (Proposal F))
  unfolding filtered nms_single_class
  propose width height threshold ps = suppressed threshold (filtered width height ps)

pub data Status : Type 0 where
  no_detection one_box multiple_boxes : Status

abbrev pub status_of : ℕ → Status
status_of n = if eqb n 0 then no_detection else if eqb n 1 then one_box else multiple_boxes

-- A row of the manifest without an error.
pub record ManifestRow (F : Type 0) : Type 0 where
  pub status : Status
  pub num_boxes : ℕ
  pub best_score : Option F

module _ {F : Type 0} ⦃fl : Floats F⦄ where
  -- `max(filtered_scores)` where there is one.
  abbrev pub best_from : F → List (Proposal F) → F
  best_from m [] = m
  best_from m (p ∷ ps) = best_from (max_float m p.score) ps

  abbrev pub best_of : List (Proposal F) → Option F
  best_of [] = none
  best_of (p ∷ ps) = some (best_from p.score ps)

  unfoldable pub manifest_row : List (Proposal F) → ManifestRow F
  manifest_row ps = record {
    status = status_of (length ps);
    num_boxes = length ps;
    best_score = best_of ps;
  }

-- `xyxy_to_yolo` and the label lines.
module _ {F : Type 0} ⦃fl : Floats F⦄ (n : Numerals F) where
  abbrev pub proposal_line : ℕ → ℕ → Box F → Text
  proposal_line width height b =
      let w = fl.of_int (pos width) in
      let h = fl.of_int (pos height) in
      label_line n (pos 0) (fl.div (fl.div (fl.add b.x1 b.x2) (fl.literal 2 1)) w)
        (fl.div (fl.div (fl.add b.y1 b.y2) (fl.literal 2 1)) h) (fl.div (fl.sub b.x2 b.x1) w)
        (fl.div (fl.sub b.y2 b.y1) h)

  unfoldable pub label_text : ℕ → ℕ → List (Proposal F) → Text
  unfolding join_lines
  label_text width height ps = join_lines (map (λ p. proposal_line width height p.box) ps)
