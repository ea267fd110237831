-- ===== src/Vision/Detection.antt =====
-- The dataclass `Detection` of host/vision/detector.py.
use mousinator.Prelude.{String, Option, ℤ}
use mousinator.Prelude.Floats.{Floats}

pub record Detection (F : Type 0) : Type 0 where
  pub class_id : ℤ
  pub class_name : String
  pub confidence : F
  pub x1 : F
  pub y1 : F
  pub x2 : F
  pub y2 : F
  pub tracking_id : Option ℤ

module _ {F : Type 0} ⦃fl : Floats F⦄ where
  unfoldable pub center_x : Detection F → F
  center_x d = fl.div (fl.add d.x1 d.x2) (fl.literal 2 1)

  unfoldable pub center_y : Detection F → F
  center_y d = fl.div (fl.add d.y1 d.y2) (fl.literal 2 1)
