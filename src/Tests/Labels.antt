-- ===== src/Tests/Labels.antt =====
-- The theorems on the final labels at concrete inputs; label files count thousandths.
use mousinator.Tools.FinalLabels.Clean.{build-HasCleanLabel, HasCleanLabel}
use mousinator.Tools.Labels.{split_words, read_line, drop_returns, pieces, split_lines, label_lines}
use mousinator.Tools.LabelCheck.{
  is_outside, line_faults, count_boxes, lines_faults, validate_label_file,
}
use mousinator.Prelude.Text.{digits_value, int_value, strip_left, strip, codes}
use mousinator.Tools.FinalLabels.Counting.{build-IsBalanced, IsBalanced}
use mousinator.Tools.FinalLabels.{Folder, build_image, build_from, Review, build}
use mousinator.Prelude.{All, ◌*ℤ◌, ◌+ℤ◌, ◌-ℤ◌, refl, some, List, [], ◌∷◌}
use mousinator.Tests.Fixed.{fixed}
use mousinator.Tests.Tools.{numerals}

abbrev reviewed : List Review
reviewed =
    record { filename = "a"; decision = "accepted" }
    ∷ record { filename = "b"; decision = "corrected" }
    ∷ []

abbrev label_folder : Folder
label_folder = record {
  stem = λ n. n;
  auto_labels = λ n. some (codes "0 500 500 400 400");
  corrected_labels = λ n. some [];
}

build-HasCleanLabel_example :
    All
      (λ name.
        HasCleanLabel numerals
          (build numerals label_folder reviewed ("a" ∷ "b" ∷ [])).labels_out
          (label_folder.stem name))
      ("a" ∷ "b" ∷ [])
unfolding build build_from build_image validate_label_file lines_faults count_boxes line_faults
    is_outside strip strip_left label_lines split_lines pieces drop_returns read_line split_words
    int_value digits_value ◌-ℤ◌ ◌+ℤ◌ ◌*ℤ◌
build-HasCleanLabel_example =
    build-HasCleanLabel numerals label_folder reviewed ("a" ∷ "b" ∷ []) refl

-- The image "c" was not reviewed.
build-IsBalanced_example :
    IsBalanced ("a" ∷ "c" ∷ []) (build numerals label_folder reviewed ("a" ∷ "c" ∷ []))
build-IsBalanced_example = build-IsBalanced numerals label_folder reviewed ("a" ∷ "c" ∷ [])
