-- ===== src/Tests/CleanUp.antt =====
-- The theorems on the clean-up of positives at concrete inputs.
use mousinator.Tools.CleanUp.Grouping.{group_near-label}
use mousinator.Tools.CleanUp.Labelling.{relabel_all, group_by_label}
use mousinator.Tools.CleanUp.Duplicates.{scan-IsSound, IsSound}
use mousinator.Tools.CleanUp.Scan.{
  keep_flagged, final_status, hamming_bits, hamming, pairs_with, near_pairs, finalize, scan_image,
  scan_from, scan, ImageFile, clean_up,
}
use mousinator.Tools.CleanUp.UnionFind.{
  add_to, group_from, compress, root_of, find, union, union_all, group_near,
}
use mousinator.Prelude.{◌≡◌, ℕ, refl, String, false, some, List, [], ◌∷◌}

-- The third image joins the group of the first two.
abbrev near : List (String × String)
near = ("a", "b") ∷ ("c", "b") ∷ []

group_near-label_example :
    group_near ("a" ∷ "b" ∷ "c" ∷ "d" ∷ []) near
    ≡ some (group_by_label (relabel_all near (λ x. x)) ("a" ∷ "b" ∷ "c" ∷ "d" ∷ []) [])
group_near-label_example = group_near-label ("a" ∷ "b" ∷ "c" ∷ "d" ∷ []) near

group_test :
    group_near ("a" ∷ "b" ∷ "c" ∷ "d" ∷ []) near
    ≡ some (("c", "a" ∷ "b" ∷ "c" ∷ []) ∷ ("d", "d" ∷ []) ∷ [])
unfolding group_near union_all union find root_of compress group_from add_to
group_test = refl

abbrev image : String → String → ℕ → ImageFile
image name sha phash = record {
  name = name;
  size = some (640, 480);
  sha = some sha;
  phash = some phash;
}

-- The second image is the first one under another name.
abbrev images : List ImageFile
images = image "a" "00" 3 ∷ image "b" "00" 3 ∷ image "c" "11" 7 ∷ []

scan-IsSound_example : IsSound (scan 200 (λ w h. false) images)
scan-IsSound_example = scan-IsSound 200 (λ w h. false) images (refl, (refl, (refl, tt)))

-- The two images that are kept are near duplicates.
clean_up_test :
    clean_up 200 (λ w h. false) 4 images ≡ some (("a", keep_flagged) ∷ ("c", keep_flagged) ∷ [])
unfolding clean_up scan scan_from scan_image finalize near_pairs pairs_with hamming hamming_bits
    final_status group_near union_all union find root_of compress group_from add_to
clean_up_test = refl
