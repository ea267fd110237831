-- ===== src/Tools/BoxEditor/Session.antt =====
-- `main` of tools/correct_mouse_boxes.py: the queue, the keys, the label files and the review status.
-- The directories are parameters, and label files go by the stem of their names.
use mousinator.Tools.BoxEditor.Boxes.{save_yolo}
use mousinator.Tools.Labels.{find_file, Numerals}
use mousinator.Prelude.Floats.{Floats}
use mousinator.Tools.BoxEditor.Editor.{open_image, step, Editor, Event}
use mousinator.Prelude.Text.{codes, Text, strip, eq_text}
use mousinator.Prelude.{
  [], ◌&&◌, ◌||◌, none, keep, get_elem?, some, if◌then◌else◌, ◌==◌, ◌∷◌, map, Option, String, List,
  ℕ, suc, ◌-◌, Bool, false,
}

pub record Row : Type 0 where
  pub filename : String
  pub decision : String
  pub reviewed : String

-- What `main` finds: the names in `image_index`, the size of each image, `Path(name).stem` and the
-- texts of the proposed label files by their stems.
pub record Folder : Type 0 where
  pub names : List String
  pub width : String → ℕ
  pub height : String → ℕ
  pub stem : String → String
  pub auto_labels : String → Option Text

-- Some row has the name.
abbrev pub has_name : String → List Row → Bool
has_name n [] = false
has_name n (r ∷ rs) = (r.filename == n) || has_name n rs

abbrev pub is_in : String → List String → Bool
is_in n [] = false
is_in n (m ∷ ms) = (m == n) || is_in n ms

-- The row that `row_by_filename` has for a name, the last one, gets the decision.
unfoldable pub mark : String → List Row → List Row
mark n [] = []
mark n (r ∷ rs) =
    let rest = mark n rs in
    if has_name n rs
    then r ∷ rest
    else (if r.filename == n then record r { decision = "corrected"; reviewed = "yes" } else r) ∷ rs

-- A row of `pending`.
abbrev pub is_pending : Folder → Row → Bool
is_pending folder r =
    eq_text (strip (codes r.decision)) (codes "needs_correction") && is_in r.filename folder.names

unfoldable pub pending : Folder → List Row → List String
pending folder rows = map (λ r. r.filename) (keep (is_pending folder) rows)

-- An image is shown; `main` returned, at the end of the queue or by Q; or an exception ended it.
pub data Outcome : Type 0 where
  showing finished left failed : Outcome

-- `rows` is `review_rows` and `written` the review status on the disk.
pub record Session (F : Type 0) : Type 0 where
  pub rows : List Row
  pub written : List Row
  pub corrected_labels : List (String × Text)
  pub index : ℕ
  pub editor : Editor F
  pub outcome : Outcome

-- A key, or an event of the editor.
pub data Key : Type 0 where
  edits : Event → Key
  space back quit : Key

module _ {F : Type 0} ⦃fl : Floats F⦄ (n : Numerals F) (folder : Folder) (queue : List String) where
  abbrev pub opened : Option (Editor F) → Session F → Session F
  opened none s = record s { outcome = failed }
  opened (some e) s = record s { editor = e; outcome = showing }

  abbrev pub show_name : Option String → Session F → Session F
  show_name none s = record s { written = s.rows; outcome = finished }
  show_name (some name) s =
      opened
        (open_image n (folder.width name) (folder.height name)
          (folder.auto_labels (folder.stem name)) (find_file (folder.stem name) s.corrected_labels)
          s.editor)
        s

  -- The head of the loop over `pending`.
  abbrev pub show_image : Session F → Session F
  show_image s = show_name (get_elem? queue s.index) s

  abbrev pub save_name : Option String → Session F → Session F
  save_name none s = s
  save_name (some name) s =
      let rows = mark name s.rows in
      show_image (record s {
        corrected_labels =
            (folder.stem name, save_yolo n s.editor.width s.editor.height s.editor.boxes)
            ∷ s.corrected_labels;
        rows = rows;
        written = rows;
        index = suc s.index;
      })

  abbrev pub on_key : Key → Session F → Session F
  on_key (edits v) s = record s { editor = step v s.editor }
  on_key space s = save_name (get_elem? queue s.index) s
  on_key back s = show_image (record s { index = s.index - 1 })
  on_key quit s = record s { written = s.rows; outcome = left }

  abbrev pub while_showing : Outcome → Key → Session F → Session F
  while_showing showing k s = on_key k s
  while_showing finished k s = s
  while_showing left k s = s
  while_showing failed k s = s

  unfoldable pub press : Key → Session F → Session F
  press k s = while_showing s.outcome k s

  unfoldable pub run_keys : List Key → Session F → Session F
  run_keys [] s = s
  run_keys (k ∷ ks) s = run_keys ks (press k s)

-- `main` on the rows of the review status and the corrected label files that are there.
unfoldable pub correct :
    {F : Type 0} ⦃fl : Floats F⦄
    → Numerals F
    → Folder
    → List Row
    → List (String × Text)
    → Editor F
    → List Key
    → Session F
correct n folder rows files e ks =
    let queue = pending folder rows in
    run_keys n folder queue ks (
      show_image n folder queue (record {
        rows = rows;
        written = rows;
        corrected_labels = files;
        index = 0;
        editor = e;
        outcome = showing;
      }))
