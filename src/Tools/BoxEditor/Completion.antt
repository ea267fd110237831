-- ===== src/Tools/BoxEditor/Completion.antt =====
-- What the review status and the label files hold when the queue of tools/correct_mouse_boxes.py is
-- at its end.
use mousinator.Tools.BoxEditor.Editor.{Editor}
use mousinator.Tools.Labels.{find_file, Numerals}
use mathlib.Core.Path.{subst}
use mousinator.Prelude.Floats.{Floats}
use mousinator.Prelude.Text.{Text}
use mousinator.Tools.BoxEditor.Session.{
  correct, is_pending, quit, back, failed, left, space, press, save_name, on_key, while_showing,
  Key, Outcome, run_keys, showing, pending, opened, finished, show_name, edits, Session, Folder,
  has_name, Row, mark,
}
use mousinator.Prelude.{
  get_elem?-none-later, sym, ltb, none, some, Option, get_elem?, is_some, [], inr, ◌&&◌,
  if◌then◌else◌, inl, false, Bool-cases, eq_iff, Bool, ◌∷◌, true, List, ◌==◌, String, ℕ, zero, suc,
  ◌-◌, ◌<◌, ◌≡◌, refl, arith,
}

-- The row that stands for the name says that it is corrected and reviewed.
abbrev pub is_corrected : String → List Row → Bool
is_corrected n [] = false
is_corrected n (r ∷ rs) =
    if has_name n rs
    then is_corrected n rs
    else (r.filename == n) && (r.decision == "corrected") && (r.reviewed == "yes")

==-refl : (n : String) → (n == n) ≡ true
==-refl n = (eq_iff n n).1 refl

has_name-mark : (n m : String) (rs : List Row) → has_name n (mark m rs) ≡ has_name n rs
unfolding mark
has_name-mark n m [] = refl
has_name-mark n m (r ∷ rs) = elim (Bool-cases (has_name m rs)) [
  | inl later ↦ simp (later, has_name-mark n m rs) refl
  | inr last ↦ simp last (elim (Bool-cases (r.filename == m)) [
    | inl same ↦ simp same refl
    | inr other ↦ simp other refl
  ])
]

-- A mark does not undo another.
is_corrected-mark :
    (n m : String) (rs : List Row) → is_corrected n rs ≡ true → is_corrected n (mark m rs) ≡ true
unfolding mark
is_corrected-mark n m [] h = absurd (cc)
is_corrected-mark n m (r ∷ rs) h = elim (Bool-cases (has_name m rs)) [
  | inl later ↦ simp (later, has_name-mark n m rs) (ground (arith, is_corrected-mark n m rs))
  | inr last ↦ simp last (elim (Bool-cases (r.filename == m)) [
    | inl same ↦ simp same (ground arith)
    | inr other ↦ simp other h
  ])
]

mark-is_corrected :
    (n : String) (rs : List Row) → has_name n rs ≡ true → is_corrected n (mark n rs) ≡ true
unfolding mark
mark-is_corrected n [] h = absurd (cc)
mark-is_corrected n (r ∷ rs) h = elim (Bool-cases (has_name n rs)) [
  | inl later ↦ simp (later, has_name-mark n n rs) (mark-is_corrected n rs later)
  | inr last ↦ simp last (elim (Bool-cases (r.filename == n)) [
    | inl same ↦ simp same refl
    | inr other ↦ absurd (ground arith)
  ])
]

find_file-write :
    (n m : String) (text : Text) (files : List (String × Text))
    → is_some (find_file n files) ≡ true
    → is_some (find_file n ((m, text) ∷ files)) ≡ true
find_file-write n m text files h = elim (Bool-cases (m == n)) [
  | inl same ↦ simp same refl
  | inr other ↦ simp other h
]

write-find_file :
    (n : String) (text : Text) (files : List (String × Text))
    → is_some (find_file n ((n, text) ∷ files)) ≡ true
write-find_file n text files = simp (==-refl n) refl

-- The name is marked and has a label file.
abbrev pub IsSaved : Folder → String → List Row → List (String × Text) → Type 0
IsSaved folder name rows files =
    (is_corrected name rows ≡ true) × (is_some (find_file (folder.stem name) files) ≡ true)

-- Every name of the queue before the one that is shown has been saved, and what is on the disk are
-- the rows. All names of the queue have rows.
pub record IsUpToDate {F : Type 0} (folder : Folder) (queue : List String) (s : Session F)
    : Type 0 where
  pub has_rows :
      (i : ℕ) (name : String) → get_elem? queue i ≡ some name → has_name name s.rows ≡ true
  pub saved :
      (i : ℕ) (name : String)
      → i < s.index
      → get_elem? queue i ≡ some name
      → IsSaved folder name s.rows s.corrected_labels
  pub on_disk : s.written ≡ s.rows
  pub at_end : s.outcome ≡ finished → get_elem? queue s.index ≡ none

module _ {F : Type 0} ⦃fl : Floats F⦄ (n : Numerals F) (folder : Folder) (queue : List String) where
  opened-IsUpToDate :
      (o : Option (Editor F)) (s : Session F)
      → IsUpToDate folder queue s
      → IsUpToDate folder queue (opened n folder queue o s)
  opened-IsUpToDate none s v = record {
    has_rows = v.has_rows;
    saved = v.saved;
    on_disk = v.on_disk;
    at_end = λ e. absurd (cc);
  }
  opened-IsUpToDate (some e) s v = record {
    has_rows = v.has_rows;
    saved = v.saved;
    on_disk = v.on_disk;
    at_end = λ e. absurd (cc);
  }

  show_name-IsUpToDate :
      (o : Option String) (s : Session F)
      → get_elem? queue s.index ≡ o
      → IsUpToDate folder queue s
      → IsUpToDate folder queue (show_name n folder queue o s)
  show_name-IsUpToDate none s e v = record {
    has_rows = v.has_rows;
    saved = v.saved;
    on_disk = refl;
    at_end = λ _. e;
  }
  show_name-IsUpToDate (some name) s e v = opened-IsUpToDate _ s v

  -- The session with the marked rows and the written label file, before the next image is shown.
  written-IsUpToDate :
      (name : String) (text : Text) (s : Session F)
      → get_elem? queue s.index ≡ some name
      → s.outcome ≡ showing
      → IsUpToDate folder queue s
      → IsUpToDate folder queue (record s {
        corrected_labels = (folder.stem name, text) ∷ s.corrected_labels;
        rows = mark name s.rows;
        written = mark name s.rows;
        index = suc s.index;
      })
  written-IsUpToDate name text s here shown v = record {
    has_rows = λ i m e. rw (has_name-mark m name s.rows) (v.has_rows i m e);
    saved = λ i m less e. elim (Bool-cases (ltb i s.index)) [
      | inl before ↦ (
        is_corrected-mark m name s.rows (v.saved i m (ground arith) e).0,
        find_file-write (folder.stem m) (folder.stem name) text s.corrected_labels
            (v.saved i m (ground arith) e).1,
      )
      | inr at ↦
          let same : name ≡ m = ground (arith, here, e) in
          subst
            (λ k.
              IsSaved folder k (mark name s.rows) ((folder.stem name, text) ∷ s.corrected_labels))
            same
            (
              mark-is_corrected name s.rows (v.has_rows s.index name here),
              write-find_file (folder.stem name) text s.corrected_labels,
            )
    ];
    on_disk = refl;
    at_end = λ e. absurd (cc);
  }

  save_name-IsUpToDate :
      (o : Option String) (s : Session F)
      → get_elem? queue s.index ≡ o
      → s.outcome ≡ showing
      → IsUpToDate folder queue s
      → IsUpToDate folder queue (save_name n folder queue o s)
  save_name-IsUpToDate none s e shown v = v
  save_name-IsUpToDate (some name) s e shown v =
      show_name-IsUpToDate _ _ refl (written-IsUpToDate name _ s e shown v)

  on_key-IsUpToDate :
      (k : Key) (s : Session F)
      → s.outcome ≡ showing
      → IsUpToDate folder queue s
      → IsUpToDate folder queue (on_key n folder queue k s)
  on_key-IsUpToDate (edits t) s shown v = record {
    has_rows = v.has_rows;
    saved = v.saved;
    on_disk = v.on_disk;
    at_end = v.at_end;
  }
  on_key-IsUpToDate space s shown v = save_name-IsUpToDate _ s refl shown v
  on_key-IsUpToDate back s shown v =
      show_name-IsUpToDate _ (record s { index = s.index - 1 }) refl
        (record {
          has_rows = v.has_rows;
          saved = λ i m less e. v.saved i m (omega (arith, less)) e;
          on_disk = v.on_disk;
          at_end = λ e. absurd (cc);
        })
  on_key-IsUpToDate quit s shown v = record {
    has_rows = v.has_rows;
    saved = v.saved;
    on_disk = refl;
    at_end = λ e. absurd (cc);
  }

  while_showing-IsUpToDate :
      (o : Outcome) (k : Key) (s : Session F)
      → s.outcome ≡ o
      → IsUpToDate folder queue s
      → IsUpToDate folder queue (while_showing n folder queue o k s)
  while_showing-IsUpToDate showing k s e v = on_key-IsUpToDate k s e v
  while_showing-IsUpToDate finished k s e v = v
  while_showing-IsUpToDate left k s e v = v
  while_showing-IsUpToDate failed k s e v = v

  run_keys-IsUpToDate :
      (ks : List Key) (s : Session F)
      → IsUpToDate folder queue s
      → IsUpToDate folder queue (run_keys n folder queue ks s)
  unfolding run_keys press
  run_keys-IsUpToDate [] s v = v
  run_keys-IsUpToDate (k ∷ ks) s v =
      run_keys-IsUpToDate ks _ (while_showing-IsUpToDate s.outcome k s refl v)

kept-has_name :
    (r : Row) (rs : List Row) (names : List String) (i : ℕ) (name : String)
    → ((k : ℕ) (m : String) → get_elem? names k ≡ some m → has_name m rs ≡ true)
    → get_elem? (r.filename ∷ names) i ≡ some name
    → has_name name (r ∷ rs) ≡ true
kept-has_name r rs names zero name later e = ground (arith, ==-refl name, e)
kept-has_name r rs names (suc i) name later e = ground (arith, later i name e)

-- Every name in the queue has a row.
pending-has_name :
    (folder : Folder) (rows : List Row) (i : ℕ) (name : String)
    → get_elem? (pending folder rows) i ≡ some name
    → has_name name rows ≡ true
unfolding pending
pending-has_name folder [] i name e = absurd (cc)
pending-has_name folder (r ∷ rs) i name e = elim (Bool-cases (is_pending folder r)) [
  | inl in_queue ↦ kept-has_name r rs _ i name (pending-has_name folder rs) (simp in_queue at e)
  | inr out ↦ ground (arith, pending-has_name folder rs i name (simp out at e))
]

module _ {F : Type 0} ⦃fl : Floats F⦄ (n : Numerals F) (folder : Folder) where
  -- Once the queue is at its end, whatever keys were pressed and whatever label files were there
  -- before, every image that was in the queue is marked as corrected and reviewed in the status file
  -- and has a corrected label file.
  pub correct-IsSaved :
      (rows : List Row) (files : List (String × Text)) (e : Editor F) (ks : List Key) (i : ℕ)
      (name : String)
      → (correct n folder rows files e ks).outcome ≡ finished
      → get_elem? (pending folder rows) i ≡ some name
      → IsSaved folder name
          (correct n folder rows files e ks).written
          (correct n folder rows files e ks).corrected_labels
  unfolding correct
  correct-IsSaved rows files e ks i name over there =
      let queue = pending folder rows in
      let start : Session F = record {
        rows = rows;
        written = rows;
        corrected_labels = files;
        index = 0;
        editor = e;
        outcome = showing;
      } in
      let v = run_keys-IsUpToDate n folder queue ks _ (
        show_name-IsUpToDate n folder queue _ start refl (record {
          has_rows = λ k m at. pending-has_name folder rows k m at;
          saved = λ k m less at. absurd (omega (arith, less));
          on_disk = refl;
          at_end = λ k. absurd (cc);
        })) in
      subst (λ r. IsSaved folder name r (correct n folder rows files e ks).corrected_labels)
        (sym v.on_disk)
        (v.saved i name (get_elem?-none-later queue i _ name (v.at_end over) there) there)
