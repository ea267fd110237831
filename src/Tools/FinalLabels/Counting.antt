-- ===== src/Tools/FinalLabels/Counting.antt =====
-- The counts in the summary of tools/build_final_mouse_labels_v2.py.
use mousinator.Prelude.Floats.{Floats}
use mousinator.Tools.Labels.{Numerals}
use mousinator.Prelude.Text.{Text}
use mathlib.Core.Path.{subst, sym}
use mathlib.Core.List.{append-nil, append_assoc}
use mousinator.Tools.LabelCheck.{Validation, validate_label_file}
use mousinator.Tools.FinalLabels.{
  find_review, file_of, counted, status_of, label_faults, build_image, sourced, build, resolved,
  build_from, checked, Review, failed, Counts, Folder, Reason, Source, ok, Build, ok_negative,
  ReportRow, error, Status,
}
use mousinator.Prelude.{
  if_both, none, some, length-append, ap, ◌∙◌, ◌++◌, if◌then◌else◌, [], Option, false, length, true,
  map, ◌∷◌, Bool, String, List, ℕ, suc, ◌+◌, ◌≤◌, ◌≡◌, refl, arith,
}

-- The rows of the report with an error.
abbrev pub is_error : Status → Bool
is_error (error r) = true
is_error (ok_negative k) = false
is_error (ok k) = false

abbrev pub boxes_in : Status → ℕ
boxes_in (error r) = 0
boxes_in (ok_negative k) = k
boxes_in (ok k) = k

abbrev pub count_errors : List ReportRow → ℕ
count_errors [] = 0
count_errors (r ∷ rs) = (if is_error r.status then 1 else 0) + count_errors rs

abbrev pub total_boxes : List ReportRow → ℕ
total_boxes [] = 0
total_boxes (r ∷ rs) = boxes_in r.status + total_boxes rs

abbrev pub filenames : List ReportRow → List String
filenames rs = map (λ r. r.filename) rs

-- The report has one row for each name, in order, and the counts are what the rows say.
pub record IsBalanced (names : List String) (b : Build) : Type 0 where
  pub one_row_each : filenames b.report_rows ≡ names
  pub errors : b.counts.error ≡ count_errors b.report_rows
  pub sum : b.counts.error + b.counts.ok ≡ length names
  pub sources : b.counts.auto + b.counts.corrected ≡ b.counts.ok
  pub boxes : b.counts.boxes ≡ total_boxes b.report_rows
  pub kinds : b.counts.negative_images + b.counts.multi_box_images ≤ b.counts.ok
  pub copies : length b.labels_out ≡ b.counts.ok

count_errors-append :
    (rs ss : List ReportRow) → count_errors (rs ++ ss) ≡ count_errors rs + count_errors ss
count_errors-append [] ss = omega arith
count_errors-append (r ∷ rs) ss = omega (arith, count_errors-append rs ss)

total_boxes-append :
    (rs ss : List ReportRow) → total_boxes (rs ++ ss) ≡ total_boxes rs + total_boxes ss
total_boxes-append [] ss = omega arith
total_boxes-append (r ∷ rs) ss = omega (arith, total_boxes-append rs ss)

filenames-append : (rs ss : List ReportRow) → filenames (rs ++ ss) ≡ filenames rs ++ filenames ss
filenames-append [] ss = refl
filenames-append (r ∷ rs) ss = ap (λ l. r.filename ∷ l) (filenames-append rs ss)

-- What holds after a row for the name `name` was appended, with the counts `c`.
appended-IsBalanced :
    (names : List String) (name : String) (row : ReportRow) (c : Counts) (b : Build)
    (files : List (String × Text))
    → row.filename ≡ name
    → c.error ≡ b.counts.error + (if is_error row.status then 1 else 0)
    → c.error + c.ok ≡ suc (b.counts.error + b.counts.ok)
    → c.auto + c.corrected ≡ c.ok
    → c.boxes ≡ b.counts.boxes + boxes_in row.status
    → c.negative_images + c.multi_box_images ≤ c.ok
    → length files ≡ c.ok
    → IsBalanced names b
    → IsBalanced
        (names ++ name ∷ [])
        (record { report_rows = b.report_rows ++ row ∷ []; counts = c; labels_out = files })
appended-IsBalanced names name row c b files same e s a k m f v = record {
  one_row_each =
      filenames-append b.report_rows (row ∷ [])
      ∙ (ap (λ l. l ++ row.filename ∷ []) v.one_row_each ∙ ap (λ x. names ++ x ∷ []) same);
  errors = omega (arith, v.errors, e, count_errors-append b.report_rows (row ∷ []));
  sum = omega (arith, v.sum, s, length-append names (name ∷ []));
  sources = a;
  boxes = omega (arith, v.boxes, k, total_boxes-append b.report_rows (row ∷ []));
  kinds = m;
  copies = f;
}

failed-IsBalanced :
    (names : List String) (name : String) (d : Text) (source : Option Source) (r : Reason)
    (b : Build)
    → IsBalanced names b
    → IsBalanced (names ++ name ∷ []) (failed name d source r b)
failed-IsBalanced names name d source r b v =
    appended-IsBalanced names name
      (record { filename = name; decision = d; label_source = source; status = error r })
      (record b.counts { error = suc b.counts.error }) b b.labels_out refl (omega arith)
      (omega arith) v.sources (omega arith) v.kinds v.copies v

checked-IsBalanced :
    (folder : Folder) (names : List String) (name : String) (d : Text) (source : Source)
    (file : Option Text) (check : Validation) (b : Build)
    → IsBalanced names b
    → IsBalanced (names ++ name ∷ []) (checked folder name d source file check b)
checked-IsBalanced folder names name d source none check b v =
    failed-IsBalanced names name d (some source) _ b v
checked-IsBalanced folder names name d source (some text) check b v =
    if_both (IsBalanced (names ++ name ∷ [])) check.valid
      {y = failed name d (some source) (label_faults check.errors) b}
      (appended-IsBalanced names name
        (record {
          filename = name;
          decision = d;
          label_source = some source;
          status = status_of check.num_boxes;
        })
        (counted source check.num_boxes b.counts) b ((folder.stem name, text) ∷ b.labels_out) refl
        (ground (arith)) (omega arith) (ground (arith, v.sources)) (ground arith)
        (ground (arith, v.kinds)) (omega (arith, v.copies)) v)
      (failed-IsBalanced names name d (some source) _ b v)

module _ {F : Type 0} ⦃fl : Floats F⦄ (n : Numerals F) (folder : Folder)
    (review : List Review) where
  sourced-IsBalanced :
      (names : List String) (name : String) (d : Text) (o : Option Source) (b : Build)
      → IsBalanced names b
      → IsBalanced (names ++ name ∷ []) (sourced n folder review name d o b)
  sourced-IsBalanced names name d none b v = failed-IsBalanced names name d none _ b v
  sourced-IsBalanced names name d (some source) b v =
      let file = file_of folder source name in
      checked-IsBalanced folder names name d source file (validate_label_file n file) b v

  resolved-IsBalanced :
      (names : List String) (name : String) (o : Option Review) (b : Build)
      → IsBalanced names b
      → IsBalanced (names ++ name ∷ []) (resolved n folder review name o b)
  resolved-IsBalanced names name none b v = failed-IsBalanced names name [] none _ b v
  resolved-IsBalanced names name (some r) b v = sourced-IsBalanced names name _ _ b v

  build_from-IsBalanced :
      (front names : List String) (b : Build)
      → IsBalanced front b
      → IsBalanced (front ++ names) (build_from n folder review names b)
  unfolding build_from build_image
  build_from-IsBalanced front [] b v = subst (λ l. IsBalanced l b) (sym (append-nil front)) v
  build_from-IsBalanced front (name ∷ names) b v =
      subst (λ l. IsBalanced l (build_from n folder review (name ∷ names) b))
        (append_assoc front (name ∷ []) names)
        (build_from-IsBalanced (front ++ name ∷ []) names (build_image n folder review name b)
          (resolved-IsBalanced front name (find_review name review) b v))

  -- Whatever the review status and the label files say: the report has one row for each image, in
  -- order; the errors and the copied labels together are the images; the counts of errors and of boxes
  -- are those of the report; every copy is counted as accepted or corrected, at most once as
  -- negative or with several boxes, and stands for one label file.
  pub build-IsBalanced : (names : List String) → IsBalanced names (build n folder review names)
  unfolding build
  build-IsBalanced names = build_from-IsBalanced [] names _ (record {
    one_row_each = refl;
    errors = refl;
    sum = refl;
    sources = refl;
    boxes = refl;
    kinds = omega arith;
    copies = refl;
  })
