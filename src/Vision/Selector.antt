-- ===== src/Vision/Selector.antt =====
-- The target selection of host/vision/target_selector.py.
pub mod Best
use mousinator.Prelude.{
  String, Bool, ◌&&◌, not, Option, none, some, List, [], ◌∷◌, keep, if◌then◌else◌, ◌==◌,
}
use mousinator.Prelude.Floats.{Floats, in_unit_range}
use mousinator.Prelude.Exec.{Exn, value_error, Result, ok, err}
use mousinator.Vision.Detection.{Detection}

pub record TargetSelector (F : Type 0) : Type 0 where
  pub target_class : String
  pub confidence_threshold : F

module _ {F : Type 0} ⦃fl : Floats F⦄ where
  -- The constructor with its `__post_init__`.
  unfoldable pub target_selector : String → F → Result (TargetSelector F)
  target_selector target_class threshold =
      if target_class == ""
      then err (record { kind = value_error; message = "target class must not be empty" })
      else if not (in_unit_range threshold)
      then err (record {
        kind = value_error;
        message = "confidence threshold must be in the range 0..1";
      })
      else ok (record { target_class = target_class; confidence_threshold = threshold })

  -- The condition of the generator `eligible`.
  abbrev pub is_eligible : TargetSelector F → Detection F → Bool
  is_eligible s d = (d.class_name == s.target_class) && fl.le s.confidence_threshold d.confidence

  -- Python's `max` by the confidence: a later item replaces the best one only if it is greater.
  unfoldable pub max_confidence : Option (Detection F) → List (Detection F) → Option (Detection F)
  max_confidence best [] = best
  max_confidence none (d ∷ ds) = max_confidence (some d) ds
  max_confidence (some b) (d ∷ ds) =
      max_confidence (some (if fl.lt b.confidence d.confidence then d else b)) ds

  unfoldable pub select : TargetSelector F → List (Detection F) → Option (Detection F)
  select s detections = max_confidence none (keep (is_eligible s) detections)
