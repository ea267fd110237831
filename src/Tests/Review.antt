-- ===== src/Tests/Review.antt =====
-- The theorem on the review of proposals at a concrete input.
use mousinator.Tools.Review.Decided.{review-IsDecided, IsDecided}
use mousinator.Tools.Review.{
  Key, run_keys, back, other, needs_correction, accepted, skip_failing, decides, review,
}
use mousinator.Prelude.{◌≡◌, ◌==◌, not, Bool, refl, String, List, [], ◌∷◌}

abbrev names : List String
names = "a" ∷ "broken" ∷ "b" ∷ []

abbrev loads : String → Bool
loads name = not (name == "broken")

-- A decides nothing here: the image before the third does not load, so that it leads back to it.
abbrev keys : List Key
keys = decides accepted ∷ back ∷ back ∷ decides needs_correction ∷ other ∷ decides accepted ∷ []

review-IsDecided_example : IsDecided loads (review loads names [] keys).written "a"
unfolding review run_keys skip_failing
review-IsDecided_example = review-IsDecided loads names [] keys 0 "a" refl refl

written_test : (review loads names [] keys).written ≡ ("b", needs_correction) ∷ ("a", accepted) ∷ []
unfolding review run_keys skip_failing
written_test = refl
