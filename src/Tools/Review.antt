-- ===== src/Tools/Review.antt =====
-- The review tool, tools/review_mouse_annotations.py: the priority of an image, its entry in the
-- queue, and the loop of `main` over the queue. The order of the queue is left out.
pub mod Decided
use mousinator.Tools.Labels.{not_read, other_count, label_lines, read, read_line, Line, Numerals}
use mousinator.Prelude.Text.{strip, Text}
use mousinator.Prelude.Floats.{min_float, max_float, Floats}
use mousinator.Prelude.{
  not, length, ◌||◌, leb, ◌==◌, ◌&&◌, eqb, [], ◌-◌, if◌then◌else◌, get_elem?, if◌then◌else◌, some,
  none, ◌∷◌, String, Option, List, ℕ, zero, suc, Bool, true, false,
}

pub data Priority : Type 0 where
  no_box multi_box low_confidence large_box small_box normal : Priority

-- `priority_rank`
abbrev pub rank : Priority → ℕ
rank no_box = 0
rank multi_box = 1
rank low_confidence = 2
rank large_box = 3
rank small_box = 4
rank normal = 5

pub record ReviewItem (F : Type 0) : Type 0 where
  pub filename : String
  pub label_file : String
  pub num_boxes : ℕ
  pub best_score : Option F
  pub max_box_area : F
  pub min_box_area : F
  pub priority : Priority

-- The thresholds and switches among the arguments.
pub record Arguments (F : Type 0) : Type 0 where
  pub low_confidence_at : F
  pub large_box_at : F
  pub small_box_at : F
  pub flagged_only : Bool
  pub include_reviewed : Bool

-- A row of the manifest of the proposals, without the empty default of `label_file`.
pub record ManifestRow : Type 0 where
  pub filename : String
  pub label_file : String
  pub best_score : Text

abbrev pub consed {ℓ} : {A : Type ℓ} → A → Option (List A) → Option (List A)
consed x none = none
consed x (some xs) = some (x ∷ xs)

module _ {F : Type 0} ⦃fl : Floats F⦄ where
  -- `max(0.0, w) * max(0.0, h)` of a line of a label; nothing where the line raises.
  abbrev pub area_of : Line F → Option F
  area_of other_count = none
  area_of not_read = none
  area_of (read c xc yc w h) =
      some (fl.mul (max_float (fl.literal 0 1) w) (max_float (fl.literal 0 1) h))

  -- `max(areas)` and `min(areas)`, 0.0 of no areas.
  abbrev pub fold_float : (F → F → F) → F → List F → F
  fold_float f m [] = m
  fold_float f m (x ∷ xs) = fold_float f (f m x) xs

  abbrev pub extreme : (F → F → F) → List F → F
  extreme f [] = fl.literal 0 1
  extreme f (x ∷ xs) = fold_float f x xs

  abbrev pub is_below : Option F → F → Bool
  is_below none limit = false
  is_below (some score) limit = fl.lt score limit

  abbrev pub has_areas : List F → Bool
  has_areas [] = false
  has_areas (x ∷ xs) = true

  unfoldable pub classify_priority : Arguments F → ℕ → Option F → List F → Priority
  classify_priority args n score areas =
      if eqb n 0
      then no_box
      else if leb 2 n
      then multi_box
      else if is_below score args.low_confidence_at
      then low_confidence
      else if has_areas areas && fl.lt args.large_box_at (extreme max_float areas)
      then large_box
      else if has_areas areas && fl.lt (extreme min_float areas) args.small_box_at
      then small_box
      else normal

abbrev pub consed_if {ℓ} : {A : Type ℓ} → Option A → Option (List A) → Option (List A)
consed_if none xs = none
consed_if (some x) xs = consed x xs

module _ {F : Type 0} ⦃fl : Floats F⦄ (n : Numerals F) where
  -- The areas of the boxes that `parse_yolo_label` reads; nothing where it raises.
  unfoldable pub areas_of : List Text → Option (List F)
  unfolding read_line
  areas_of [] = some []
  areas_of (t ∷ ts) = consed_if (area_of (read_line n t)) (areas_of ts)

  -- The areas of a label file, if there is one.
  abbrev pub label_areas : Option Text → Option (List F)
  label_areas none = some []
  label_areas (some text) = areas_of (label_lines text)

  -- `best_score`, none where the text is empty or no number.
  abbrev pub read_score : Text → Option F
  read_score [] = none
  read_score (c ∷ t) = n.read_float (c ∷ t)

  abbrev pub item_of : Arguments F → ManifestRow → List F → ReviewItem F
  item_of args row areas =
      let score = read_score (strip row.best_score) in
      record {
        filename = row.filename;
        label_file = row.label_file;
        num_boxes = length areas;
        best_score = score;
        max_box_area = extreme max_float areas;
        min_box_area = extreme min_float areas;
        priority = classify_priority args (length areas) score areas;
      }

  -- Whether the item is left out: it is normal, or it has a decision already.
  abbrev pub is_left_out : Arguments F → Bool → ReviewItem F → Bool
  is_left_out args has_decision item =
      (args.flagged_only && eqb (rank item.priority) 5)
      || (has_decision && not args.include_reviewed)

  abbrev pub queued :
      Arguments F
      → Bool
      → ManifestRow
      → Option (List F)
      → Option (List (ReviewItem F))
      → Option (List (ReviewItem F))
  queued args has_decision row none rest = none
  queued args has_decision row (some areas) rest =
      let item = item_of args row areas in
      if is_left_out args has_decision item then rest else consed item rest

  -- The items of `build_queue` before they are sorted; nothing where a label file raises.
  unfoldable pub build_items :
      Arguments F
      → (String → Bool)
      → (String → Option Text)
      → (String → Bool)
      → List ManifestRow
      → Option (List (ReviewItem F))
  unfolding areas_of classify_priority
  build_items args has_image labels has_decision [] = some []
  build_items args has_image labels has_decision (row ∷ rows) =
      let rest = build_items args has_image labels has_decision rows in
      if has_image row.filename
      then queued args (has_decision row.filename) row (label_areas (labels row.label_file)) rest
      else rest

pub data Decision : Type 0 where
  accepted needs_correction : Decision

pub data Outcome : Type 0 where
  showing finished left : Outcome

-- `all_reviews` with the newest decision of a name first, and the status file on the disk.
pub record Session : Type 0 where
  pub all_reviews : List (String × Decision)
  pub written : List (String × Decision)
  pub index : ℕ
  pub outcome : Outcome

pub data Key : Type 0 where
  decides : Decision → Key
  back quit other : Key

abbrev pub find_decision : String → List (String × Decision) → Option Decision
find_decision name [] = none
find_decision name (r ∷ rs) = if r.0 == name then some r.1 else find_decision name rs

abbrev pub after {ℓ} : {A : Type ℓ} → ℕ → List A → List A
after zero xs = xs
after (suc i) [] = []
after (suc i) (x ∷ xs) = after i xs

-- The names of the queue, and whether the image and the label of a name load.
module _ (loads : String → Bool) (queue : List String) where
  -- The index of the next item that loads, from `i` on, whose items are given.
  unfoldable pub skip_failing : List String → ℕ → ℕ
  skip_failing [] i = i
  skip_failing (name ∷ names) i =
      let rest = skip_failing names (suc i) in if loads name then i else rest

  abbrev pub shown : Option String → ℕ → Session → Session
  shown none i s = record s { index = i; written = s.all_reviews; outcome = finished }
  shown (some name) i s = record s { index = i; outcome = showing }

  -- The head of the loop at the index `i`.
  abbrev pub show_from : ℕ → Session → Session
  show_from i s = let next = skip_failing (after i queue) i in shown (get_elem? queue next) next s

  abbrev pub decide : Decision → Option String → Session → Session
  decide d none s = s
  decide d (some name) s =
      let reviews = (name, d) ∷ s.all_reviews in
      show_from (suc s.index) (record s { all_reviews = reviews; written = reviews })

  abbrev pub on_key : Key → Session → Session
  on_key (decides d) s = decide d (get_elem? queue s.index) s
  on_key back s = show_from (s.index - 1) s
  on_key quit s = record s { written = s.all_reviews; outcome = left }
  on_key other s = s

  abbrev pub while_showing : Outcome → Key → Session → Session
  while_showing showing k s = on_key k s
  while_showing finished k s = s
  while_showing left k s = s

  unfoldable pub run_keys : List Key → Session → Session
  unfolding skip_failing
  run_keys [] s = s
  run_keys (k ∷ ks) s = run_keys ks (while_showing s.outcome k s)

  -- The loop of `main`, with the reviews that are there.
  unfoldable pub review : List (String × Decision) → List Key → Session
  unfolding run_keys
  review existing ks = run_keys ks (
      show_from 0
        (record { all_reviews = existing; written = existing; index = 0; outcome = showing }))
