-- ===== src/Vision/Detector.antt =====
-- The model adapter of host/vision/detector.py. The Ultralytics model, OpenCV and NumPy are
-- parameters: what `predict` returns is given as its lists of rows.
pub mod InFrame
use mousinator.Prelude.{
  ℕ, suc, ◌+◌, Done, String, Bool, true, false, ◌||◌, not, Option, none, some, List, [], ◌∷◌, map,
  ℤ, pos, ltb_ℤ, leb_ℤ, eqb_ℤ, get_elem?, if◌then◌else◌, ◌==◌,
}
use mousinator.Prelude.Floats.{Floats, in_unit_range, max_float, min_float}
use mousinator.Prelude.Exec.{
  value_error, runtime_error, detector_configuration, detector_initialization, other, Exn, Result,
  ok, err, bind_result, or_err,
}
use mousinator.Vision.Detection.{Detection}

-- The `boxes` of a result; a missing attribute is an empty list, or nothing for `id`.
pub record Boxes (F : Type 0) : Type 0 where
  pub xyxy : List (List F)
  pub conf : List F
  pub cls : List F
  pub ids : Option (List F)

-- The `names` of a model, before `_normalize_names`; keys are what `int` makes of them.
pub data RawNames : Type 0 where
  mapping : List (ℤ × String) → RawNames
  sequence : List String → RawNames
  neither : RawNames

-- A loaded model: its names, and what `predict` makes of a frame's size, the confidence and the
-- inference size, nothing where there are no results or no boxes.
pub record Model (F : Type 0) : Type 0 where
  pub names : RawNames
  pub predict : ℤ → ℤ → F → ℤ → Result (Option (Boxes F))

pub record YoloDetector (F : Type 0) : Type 0 where
  pub model : Model F
  pub confidence : F
  pub inference_size : ℤ
  pub class_names : List (ℤ × String)

-- `self.class_names.get(class_id)`
abbrev pub lookup_name : ℤ → List (ℤ × String) → Option String
lookup_name k [] = none
lookup_name k ((j, v) ∷ m) = if eqb_ℤ k j then some v else lookup_name k m

-- A dictionary takes the last value of a key and keeps the key's place.
unfoldable pub insert_name : ℤ → String → List (ℤ × String) → List (ℤ × String)
insert_name k v [] = (k, v) ∷ []
insert_name k v ((j, w) ∷ m) = if eqb_ℤ k j then (j, v) ∷ m else (j, w) ∷ insert_name k v m

unfoldable pub collect_names : List (ℤ × String) → List (ℤ × String) → List (ℤ × String)
unfolding insert_name
collect_names acc [] = acc
collect_names acc ((k, v) ∷ m) = collect_names (insert_name k v acc) m

unfoldable pub enumerate_names : ℕ → List String → List (ℤ × String)
enumerate_names i [] = []
enumerate_names i (v ∷ vs) = (pos i, v) ∷ enumerate_names (suc i) vs

unfoldable pub normalize_names : RawNames → List (ℤ × String)
unfolding collect_names enumerate_names
normalize_names (mapping m) = collect_names [] m
normalize_names (sequence vs) = enumerate_names 0 vs
normalize_names neither = []

abbrev pub has_name : String → List (ℤ × String) → Bool
has_name name [] = false
has_name name ((k, v) ∷ m) = (name == v) || has_name name m

abbrev configuration_error : String → Exn
configuration_error m = record { kind = detector_configuration; message = m }

-- An exception of the loader, other than the one that passes through.
abbrev load_error : Exn → Exn
load_error e = elim e.kind [
  | detector_configuration ↦ e
  | _ ↦ record { kind = detector_initialization; message = "failed to load YOLO model" }
]

-- What `int` and `round` raise at a value that is not finite, and a list at an index out of range.
abbrev pub conversion_error : Exn
conversion_error = record { kind = other; message = "cannot convert float to integer" }

abbrev pub index_error : Exn
index_error = record { kind = other; message = "index is out of bounds" }

abbrev pub unknown_class : Exn
unknown_class = record { kind = runtime_error; message = "YOLO returned unknown class id" }

-- `max(1, n)`
abbrev pub at_least_one : ℤ → ℤ
at_least_one n = if ltb_ℤ (pos 1) n then n else pos 1

module _ {F : Type 0} ⦃fl : Floats F⦄ where
  abbrev named : F → ℤ → Model F → List (ℤ × String) → Result (YoloDetector F)
  named confidence size model [] = err (record {
    kind = detector_initialization;
    message = "YOLO model exposes no class-name mapping";
  })
  named confidence size model (x ∷ xs) = ok (record {
    model = model;
    confidence = confidence;
    inference_size = size;
    class_names = x ∷ xs;
  })

  abbrev loaded : F → ℤ → Result (Model F) → Result (YoloDetector F)
  loaded confidence size (err e) = err (load_error e)
  loaded confidence size (ok model) = named confidence size model (normalize_names model.names)

  -- The constructor: whether the model file exists, and what the loader makes of it.
  unfoldable pub yolo_detector : Bool → Result (Model F) → F → ℤ → Result (YoloDetector F)
  unfolding normalize_names
  yolo_detector exists loader confidence size =
      if not (in_unit_range confidence)
      then err (configuration_error "confidence must be in the range 0..1")
      else if leb_ℤ size (pos 0)
      then err (configuration_error "inference size must be positive")
      else if not exists
      then err (configuration_error "YOLO model does not exist")
      else loaded confidence size loader

  unfoldable pub validate_target_class : YoloDetector F → String → Result Done
  validate_target_class d target_class =
      if has_name target_class d.class_names
      then ok tt
      else err (configuration_error "target class is not present in the model")

  -- `_clamp`
  unfoldable pub clamp : F → F → F → F
  clamp value minimum maximum = min_float maximum (max_float minimum value)

  abbrev pub sized : ℤ → ℤ → ℤ → ℤ → ℤ × ℤ × F × F
  sized width height w h =
      (w, h, fl.div (fl.of_int width) (fl.of_int w), fl.div (fl.of_int height) (fl.of_int h))

  -- `max(1, round(side * resize_scale))`
  abbrev pub resized : ℤ → F → Result ℤ
  resized side scale =
      bind_result (or_err (fl.round (fl.mul (fl.of_int side) scale)) conversion_error)
        (λ n. ok (at_least_one n))

  -- `_prepare_frame`: the size of the frame that the model gets, and the factors back.
  unfoldable pub prepare_frame : ℤ → ℤ → ℤ → Result (ℤ × ℤ × F × F)
  prepare_frame width height size =
      let largest = if ltb_ℤ width height then height else width in
      let scale = fl.div (fl.of_int size) (fl.of_int largest) in
      if ltb_ℤ size largest
      then bind_result (resized width scale)
          (λ w. bind_result (resized height scale) (λ h. ok (sized width height w h)))
      else ok (sized width height width height)

  -- The detection of one row of coordinates in a frame of the given size.
  abbrev pub boxed :
      F → F → ℤ → ℤ → ℤ → String → F → Result (Option ℤ) → List F → Result (Option (Detection F))
  boxed scale_x scale_y width height class_id name confidence id (x1 ∷ y1 ∷ x2 ∷ y2 ∷ _) =
      let right = fl.of_int width in
      let bottom = fl.of_int height in
      bind_result id (λ id. ok (
        some (record {
          class_id = class_id;
          class_name = name;
          confidence = confidence;
          x1 = clamp (fl.mul x1 scale_x) (fl.literal 0 1) right;
          y1 = clamp (fl.mul y1 scale_y) (fl.literal 0 1) bottom;
          x2 = clamp (fl.mul x2 scale_x) (fl.literal 0 1) right;
          y2 = clamp (fl.mul y2 scale_y) (fl.literal 0 1) bottom;
          tracking_id = id;
        })))
  boxed scale_x scale_y width height class_id name confidence id _ =
      err (record { kind = value_error; message = "not enough values to unpack" })

  -- The tracking id at an index, where there are any.
  abbrev pub id_at : ℕ → Option (List F) → Result (Option ℤ)
  id_at i none = ok none
  id_at i (some ids) =
      bind_result (or_err (get_elem? ids i) index_error)
        (λ t. bind_result (or_err (fl.to_int t) conversion_error) (λ n. ok (some n)))

  -- The body of the loop behind the test of the confidence.
  abbrev pub classified :
      YoloDetector F → Boxes F → F → F → ℤ → ℤ → ℕ → List F → F → Result (Option (Detection F))
  classified d boxes scale_x scale_y width height i row confidence =
      bind_result (or_err (get_elem? boxes.cls i) index_error) (λ cls.
        bind_result (or_err (fl.to_int cls) conversion_error) (λ class_id.
          bind_result (or_err (lookup_name class_id d.class_names) unknown_class) (λ name.
            boxed scale_x scale_y width height class_id name confidence (id_at i boxes.ids) row)))

  -- The body of the loop for one row: nothing if the confidence is too low.
  unfoldable pub detect_row :
      YoloDetector F → Boxes F → F → F → ℤ → ℤ → ℕ → List F → Result (Option (Detection F))
  unfolding clamp
  detect_row d boxes scale_x scale_y width height i row =
      bind_result (or_err (get_elem? boxes.conf i) index_error) (λ confidence.
        if fl.lt confidence d.confidence
        then ok none
        else classified d boxes scale_x scale_y width height i row confidence)

  abbrev pub prepend : Option (Detection F) → List (Detection F) → List (Detection F)
  prepend none ds = ds
  prepend (some d) ds = d ∷ ds

  unfoldable pub detect_rows :
      YoloDetector F → Boxes F → F → F → ℤ → ℤ → ℕ → List (List F) → Result (List (Detection F))
  detect_rows d boxes scale_x scale_y width height i [] = ok []
  detect_rows d boxes scale_x scale_y width height i (row ∷ rows) =
      bind_result (detect_row d boxes scale_x scale_y width height i row) (λ found.
        bind_result (detect_rows d boxes scale_x scale_y width height (suc i) rows)
          (λ rest. ok (prepend found rest)))

  abbrev pub detect_boxes :
      YoloDetector F → F → F → ℤ → ℤ → Option (Boxes F) → Result (List (Detection F))
  detect_boxes d scale_x scale_y width height none = ok []
  detect_boxes d scale_x scale_y width height (some boxes) =
      detect_rows d boxes scale_x scale_y width height 0 boxes.xyxy

  -- What `predict` raises is reported as one kind of error.
  abbrev pub inference : Result (Option (Boxes F)) → Result (Option (Boxes F))
  inference (ok boxes) = ok boxes
  inference (err e) = err (record { kind = runtime_error; message = "YOLO inference failed" })

  abbrev pub detect_frame : YoloDetector F → ℤ → ℤ → Result (List (Detection F))
  detect_frame d height width =
      if leb_ℤ width (pos 0) || leb_ℤ height (pos 0)
      then err (record { kind = value_error; message = "YOLO input dimensions must be positive" })
      else bind_result (prepare_frame width height d.inference_size) (λ p.
        bind_result (inference (d.model.predict p.0 p.1 d.confidence d.inference_size))
          (λ boxes. detect_boxes d p.2 p.3 width height boxes))

  abbrev bad_shape : Result (List (Detection F))
  bad_shape = err (record {
    kind = value_error;
    message = "YOLO input must be an RGB image with three channels";
  })

  -- `detect`, of a frame with the given shape.
  unfoldable pub detect : YoloDetector F → List ℤ → Result (List (Detection F))
  unfolding prepare_frame detect_rows
  detect d (height ∷ width ∷ channels ∷ []) =
      if eqb_ℤ channels (pos 3) then detect_frame d height width else bad_shape
  detect d _ = bad_shape
