-- ===== src/Tools/FinalLabels/Clean.antt =====
-- What tools/build_final_mouse_labels_v2.py copies.
use mousinator.Tools.FinalLabels.{
  find_review, failed, file_of, source_of, passes, build_image, build_from, build, resolved,
  sourced, checked, Review, Source, Build, Folder,
}
use mousinator.Prelude.Text.{codes, strip, Text}
use mousinator.Tools.LabelCheck.{
  is_outside, in_half_open_range, lines_faults, fault_if, validate_label_file, line_faults, Fault,
  is_empty,
}
use mousinator.Tools.Labels.{
  label_lines, read_line, not_read, other_count, find_file, read, Numerals, Line,
}
use mousinator.Prelude.Floats.{in_unit_range, Floats}
use mathlib.Core.Path.{subst}
use mousinator.Prelude.{
  eq_of_parts, none, eqb_ℤ, eq_iff, Option, ℤ, sym, inr, inl, ◌==◌, ◌⊎◌, [], Bool-cases, pos, All,
  some, not, ◌∷◌, false, true, String, ◌++◌, Bool, List, ℕ, suc, ◌≡◌, refl, arith,
}

-- The line has the class 0 and a box whose centre is in the image, whose sides are positive and at
-- most the image's, and which leaves the image by the tolerance at most.
abbrev pub IsCleanLine : {F : Type 0} ⦃fl : Floats F⦄ → Line F → Type 0
IsCleanLine other_count = ⊥
IsCleanLine not_read = ⊥
IsCleanLine (read c xc yc bw bh) =
    (c ≡ pos 0)
    × (in_unit_range xc ≡ true)
    × (in_unit_range yc ≡ true)
    × (in_half_open_range bw ≡ true)
    × (in_half_open_range bh ≡ true)
    × (is_outside xc bw ≡ false)
    × (is_outside yc bh ≡ false)

abbrev pub IsClean : {F : Type 0} ⦃fl : Floats F⦄ → Numerals F → Text → Type 0
IsClean n text = All (λ t. IsCleanLine (read_line n t)) (label_lines text)

-- There is a copied label file under the stem, and it is clean.
abbrev pub HasCleanLabel :
    {F : Type 0} ⦃fl : Floats F⦄ → Numerals F → List (String × Text) → String → Type 0
HasCleanLabel n files stem = (text : Text) × (find_file stem files ≡ some text) × IsClean n text

is_empty-append {ℓ} :
    {A : Type ℓ} (xs ys : List A)
    → is_empty (xs ++ ys) ≡ true
    → (is_empty xs ≡ true) × (is_empty ys ≡ true)
is_empty-append [] ys e = (refl, e)
is_empty-append (x ∷ xs) ys e = absurd (cc)

is_empty-fault_if : (b : Bool) (f : Fault) → is_empty (fault_if (not b) f) ≡ true → b ≡ true
is_empty-fault_if true f e = refl
is_empty-fault_if false f e = absurd (cc)

is_empty-fault : (b : Bool) (f : Fault) → is_empty (fault_if b f) ≡ true → b ≡ false
is_empty-fault true f e = absurd (cc)
is_empty-fault false f e = refl

is_class_zero : (c : ℤ) → eqb_ℤ c (pos 0) ≡ true → c ≡ pos 0
is_class_zero c e = eq_of_parts c (pos 0) (ground arith)

module _ {F : Type 0} ⦃fl : Floats F⦄ where
  line-IsClean : (i : ℕ) (line : Line F) → is_empty (line_faults i line) ≡ true → IsCleanLine line
  unfolding line_faults
  line-IsClean i other_count e = absurd (cc)
  line-IsClean i not_read e = absurd (cc)
  line-IsClean i (read c xc yc bw bh) e =
      let (r1, y_in) = is_empty-append _ _ e in
      let (r2, x_in) = is_empty-append _ _ r1 in
      let (r3, h) = is_empty-append _ _ r2 in
      let (r4, w) = is_empty-append _ _ r3 in
      let (r5, y) = is_empty-append _ _ r4 in
      let (class, x) = is_empty-append _ _ r5 in
      (
        is_class_zero c (is_empty-fault_if _ _ class),
        is_empty-fault_if _ _ x,
        is_empty-fault_if _ _ y,
        is_empty-fault_if _ _ w,
        is_empty-fault_if _ _ h,
        is_empty-fault _ _ x_in,
        is_empty-fault _ _ y_in,
      )

module _ {F : Type 0} ⦃fl : Floats F⦄ (n : Numerals F) where
  lines-AreClean :
      (i : ℕ) (ts : List Text)
      → is_empty (lines_faults n i ts) ≡ true
      → All (λ t. IsCleanLine (read_line n t)) ts
  unfolding lines_faults
  lines-AreClean i [] e = tt
  lines-AreClean i (t ∷ ts) e =
      let (first, rest) = is_empty-append (line_faults i (read_line n t)) _ e in
      (line-IsClean i (read_line n t) first, lines-AreClean (suc i) ts rest)

  -- A label file that `validate_label_file` finds valid is clean.
  validate_label_file-IsClean :
      (text : Text) → (validate_label_file n (some text)).valid ≡ true → IsClean n text
  unfolding validate_label_file
  validate_label_file-IsClean text e = lines-AreClean 1 (label_lines text) e

  HasCleanLabel-copy :
      (s t : String) (text : Text) (files : List (String × Text))
      → IsClean n text
      → HasCleanLabel n files s
      → HasCleanLabel n ((t, text) ∷ files) s
  HasCleanLabel-copy s t text files clean (old, found, old_clean) = elim (Bool-cases (t == s)) [
    | inl same ↦ (text, simp same refl, clean)
    | inr other ↦ (old, simp other found, old_clean)
  ]

  -- What a round of the loop does for an image: it counts an error and copies nothing, or it copies a
  -- clean label file and counts no error.
  abbrev pub Effect : Folder → String → Build → Build → Type 0
  Effect folder name b d =
      (d.counts.error ≡ suc b.counts.error)
      ⊎ ((text : Text) × IsClean n text
          × (d.labels_out ≡ (folder.stem name, text) ∷ b.labels_out)
          × (d.counts.error ≡ b.counts.error))

  checked-Effect :
      (folder : Folder) (name : String) (d : Text) (source : Source) (file : Option Text)
      (b : Build)
      → Effect folder name b (checked folder name d source file (validate_label_file n file) b)
  checked-Effect folder name d source none b = inl refl
  checked-Effect folder name d source (some text) b =
      elim (Bool-cases (validate_label_file n (some text)).valid) [
        | inl valid ↦ simp valid (inr (text, validate_label_file-IsClean text valid, refl, refl))
        | inr invalid ↦ simp invalid (inl refl)
      ]

  find_file-own :
      (s : String) (text : Text) (files : List (String × Text))
      → find_file s ((s, text) ∷ files) ≡ some text
  find_file-own s text files = simp ((eq_iff s s).1 refl) refl

  module _ (folder : Folder) (review : List Review) where
    sourced-Effect :
        (name : String) (d : Text) (o : Option Source) (b : Build)
        → Effect folder name b (sourced n folder review name d o b)
    sourced-Effect name d none b = inl refl
    sourced-Effect name d (some source) b =
        checked-Effect folder name d source (file_of folder source name) b

    resolved-Effect :
        (name : String) (o : Option Review) (b : Build)
        → Effect folder name b (resolved n folder review name o b)
    resolved-Effect name none b = inl refl
    resolved-Effect name (some r) b = sourced-Effect name _ (source_of (strip (codes r.decision))) b

    build_from-HasCleanLabel :
        (names : List String) (b : Build)
        → (build_from n folder review names b).counts.error ≡ 0
        → (b.counts.error ≡ 0)
          × ((s : String)
              → HasCleanLabel n b.labels_out s
              → HasCleanLabel n (build_from n folder review names b).labels_out s)
          × All
              (λ name.
                HasCleanLabel n (build_from n folder review names b).labels_out (folder.stem name))
              names
    unfolding build_from build_image
    build_from-HasCleanLabel [] b e = (e, (λ s h. h), tt)
    build_from-HasCleanLabel (name ∷ names) b e =
        let (no_error, keeps, later) =
          build_from-HasCleanLabel names (build_image n folder review name b) e in
        elim (resolved-Effect name (find_review name review) b) [
          | inl failed ↦ absurd (omega (arith, failed, no_error))
          | inr (text, clean, out, same) ↦ (
            omega (arith, same, no_error),
            (λ s h. keeps s (
                subst (λ l. HasCleanLabel n l s) (sym out)
                  (HasCleanLabel-copy s (folder.stem name) text b.labels_out clean h))),
            (
              keeps (folder.stem name) (
                  subst (λ l. HasCleanLabel n l (folder.stem name)) (sym out)
                    (text, find_file-own (folder.stem name) text b.labels_out, clean)),
              later,
            ),
          )
        ]

    -- If no error is counted, every image has a copied label file under its stem, and each line of
    -- that file has the class 0, a centre in the image, sides that are positive and at most the
    -- image's, and edges that leave the image by the tolerance at most; also where the names of two
    -- images have one stem.
    pub build-HasCleanLabel :
        (names : List String)
        → passes (build n folder review names) ≡ true
        → All
            (λ name. HasCleanLabel n (build n folder review names).labels_out (folder.stem name))
            names
    unfolding build
    build-HasCleanLabel names e = (build_from-HasCleanLabel names _ (ground arith)).2
