-- ===== src/Tests/AutoLabel.antt =====
-- The theorem on the suppression of proposals at a concrete input; floats count thousandths.
use mousinator.Tools.AutoLabel.Suppressed.{propose-IsProposed, IsProposal}
use mousinator.Tools.AutoLabel.{
  intersection, box_area, iou, nms_loop, insert, insert_all, nms_single_class, clamp_box, filtered,
  propose, Proposal,
}
use mousinator.Prelude.{◌*ℤ◌, ◌+ℤ◌, ◌-ℤ◌, some, ◌≡◌, ◌*◌, ℕ, refl, List, [], ◌∷◌, ℤ, pos}
use mousinator.Tests.Fixed.{fixed}

abbrev proposal : ℕ → ℕ → ℕ → Proposal ℤ
proposal left right score = record {
  box = record { x1 = pos (left * 1000); y1 = pos 0; x2 = pos (right * 1000); y2 = pos 10000 };
  score = pos score;
}

-- The second box overlaps the first, and the fourth is too thin.
abbrev proposals : List (Proposal ℤ)
proposals = proposal 0 10 900 ∷ proposal 1 11 950 ∷ proposal 50 60 400 ∷ proposal 70 71 990 ∷ []

propose-IsProposed_example :
    (kept : List (Proposal ℤ)) × (propose 100 100 (pos 500) proposals ≡ some kept)
    × IsProposal 100 100 (pos 500) proposals kept
propose-IsProposed_example = propose-IsProposed 100 100 (pos 500) proposals

propose_test :
    propose 100 100 (pos 500) proposals ≡ some (proposal 1 11 950 ∷ proposal 50 60 400 ∷ [])
unfolding propose filtered clamp_box nms_single_class insert_all insert nms_loop iou box_area
    intersection ◌-ℤ◌ ◌+ℤ◌ ◌*ℤ◌
propose_test = refl
