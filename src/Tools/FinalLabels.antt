-- ===== src/Tools/FinalLabels.antt =====
-- The builder of the final labels, tools/build_final_mouse_labels_v2.py: the loop of
-- `main` over the images. The directories and the CSV files are parameters.
pub mod Counting
pub mod Clean
use mousinator.Tools.LabelCheck.{validate_label_file, Fault, Validation}
use mousinator.Tools.Labels.{not_read, other_count, read_line, read, label_lines, Line, Numerals}
use mousinator.Prelude.Text.{strip, eq_text, codes, Text}
use mousinator.Prelude.Floats.{in_unit_range, Floats}
use mousinator.Prelude.{
  eqb_ℤ, ◌==◌, not, some, ◌++◌, [], none, ◌||◌, ltb, ◌∷◌, Option, ◌&&◌, pos, List, eqb, String,
  if◌then◌else◌, ℕ, suc, ◌+◌, Bool, true, false,
}

-- A row of the review status.
pub record Review : Type 0 where
  pub filename : String
  pub decision : String

-- The row that the dictionary of `read_review_status` has for a name: the last one.
abbrev pub find_review : String → List Review → Option Review
find_review n [] = none
find_review n (r ∷ rs) = elim (find_review n rs) [
  | none ↦ if r.filename == n then some r else none
  | some last ↦ some last
]

-- What `main` reads: the label files by stem, and the stems of the names.
pub record Folder : Type 0 where
  pub stem : String → String
  pub auto_labels : String → Option Text
  pub corrected_labels : String → Option Text

pub data Source : Type 0 where
  auto corrected : Source

-- The column `errors` of the report. An unresolved decision that is empty is written as `blank`.
pub data Reason : Type 0 where
  missing_review_decision : Reason
  unresolved_decision : Text → Reason
  label_faults : List Fault → Reason

pub data Status : Type 0 where
  error : Reason → Status
  ok_negative ok : ℕ → Status

pub record ReportRow : Type 0 where
  pub filename : String
  pub decision : Text
  pub label_source : Option Source
  pub status : Status

-- `counts`
pub record Counts : Type 0 where
  pub error : ℕ
  pub ok : ℕ
  pub auto : ℕ
  pub corrected : ℕ
  pub boxes : ℕ
  pub negative_images : ℕ
  pub multi_box_images : ℕ

-- The report, the counts and the copied label files, by stem, the newest first.
pub record Build : Type 0 where
  pub report_rows : List ReportRow
  pub counts : Counts
  pub labels_out : List (String × Text)

abbrev pub no_counts : Counts
no_counts = record {
  error = 0;
  ok = 0;
  auto = 0;
  corrected = 0;
  boxes = 0;
  negative_images = 0;
  multi_box_images = 0;
}

-- The source of the labels that a decision names.
abbrev pub source_of : Text → Option Source
source_of d =
    if eq_text d (codes "accepted")
    then some auto
    else if eq_text d (codes "corrected")
    then some corrected
    else none

-- `decision or 'blank'`
abbrev pub or_blank : Text → Text
or_blank [] = codes "blank"
or_blank (c ∷ d) = c ∷ d

abbrev pub file_of : Folder → Source → String → Option Text
file_of folder auto name = folder.auto_labels (folder.stem name)
file_of folder corrected name = folder.corrected_labels (folder.stem name)

abbrev pub failed : String → Text → Option Source → Reason → Build → Build
failed name d source reason b = record b {
  report_rows =
      b.report_rows
      ++ record { filename = name; decision = d; label_source = source; status = error reason }
        ∷ [];
  counts = record b.counts { error = suc b.counts.error };
}

abbrev pub is_auto : Source → Bool
is_auto auto = true
is_auto corrected = false

-- What the copy of a valid label file adds to the counts.
abbrev pub counted : Source → ℕ → Counts → Counts
counted source boxes c = record c {
  ok = suc c.ok;
  auto = if is_auto source then suc c.auto else c.auto;
  corrected = if is_auto source then c.corrected else suc c.corrected;
  boxes = c.boxes + boxes;
  negative_images = if eqb boxes 0 then suc c.negative_images else c.negative_images;
  multi_box_images = if ltb 1 boxes then suc c.multi_box_images else c.multi_box_images;
}

abbrev pub status_of : ℕ → Status
status_of boxes = if eqb boxes 0 then ok_negative boxes else ok boxes

-- A label file is copied if it is there and valid.
abbrev pub checked : Folder → String → Text → Source → Option Text → Validation → Build → Build
checked folder name d source none v b = failed name d (some source) (label_faults v.errors) b
checked folder name d source (some text) v b =
    if v.valid
    then record {
      report_rows =
          b.report_rows
          ++ record {
            filename = name;
            decision = d;
            label_source = some source;
            status = status_of v.num_boxes;
          }
            ∷ [];
      counts = counted source v.num_boxes b.counts;
      labels_out = (folder.stem name, text) ∷ b.labels_out;
    }
    else failed name d (some source) (label_faults v.errors) b

module _ {F : Type 0} ⦃fl : Floats F⦄ (n : Numerals F) (folder : Folder)
    (review : List Review) where
  abbrev pub sourced : String → Text → Option Source → Build → Build
  sourced name d none b = failed name d none (unresolved_decision (or_blank d)) b
  sourced name d (some source) b =
      let file = file_of folder source name in
      checked folder name d source file (validate_label_file n file) b

  abbrev pub resolved : String → Option Review → Build → Build
  resolved name none b = failed name [] none missing_review_decision b
  resolved name (some r) b = let d = strip (codes r.decision) in sourced name d (source_of d) b

  -- One round of the loop.
  unfoldable pub build_image : String → Build → Build
  unfolding validate_label_file
  build_image name b = resolved name (find_review name review) b

  unfoldable pub build_from : List String → Build → Build
  unfolding build_image
  build_from [] b = b
  build_from (name ∷ names) b = build_from names (build_image name b)

  -- The loop of `main`, which starts with an empty directory of labels.
  unfoldable pub build : List String → Build
  unfolding build_from
  build names = build_from names (record { report_rows = []; counts = no_counts; labels_out = [] })

-- `main` ends without `SystemExit(1)`.
abbrev pub passes : Build → Bool
passes b = eqb b.counts.error 0
