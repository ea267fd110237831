-- ===== src/Vision/Detector/InFrame.antt =====
-- The detections that `YoloDetector.detect` returns lie in the frame, are confident enough and carry
-- the name that the model has for their class.
use mousinator.Prelude.{
  ℕ, suc, ◌≡◌, refl, String, true, false, Option, none, some, List, [], ◌∷◌, ℤ, pos, arith, All,
  Bool-cases, inl, inr, get_elem?, leb_ℤ, ◌||◌, ap, ◌∙◌,
}
use mathlib.Core.Path.{subst}
use mousinator.Prelude.Floats.{Floats, IsOrdered}
use mousinator.Prelude.Exec.{
  Result, ok, err, or_err, bind_result-eq-ok, or_err-eq-ok, ok_injective, if_err-eq-ok,
  ok_some_injective, ok_none-ne-ok_some,
}
use mousinator.Vision.Detection.{Detection}
use mousinator.Vision.Detector.{
  YoloDetector, Boxes, lookup_name, clamp, boxed, detect_row, prepend, detect_rows, detect, id_at,
  classified, index_error, conversion_error, unknown_class, prepare_frame, inference, detect_boxes,
}

module _ {F : Type 0} ⦃fl : Floats F⦄ where
  -- `0.0 <= x <= side`
  abbrev pub Within : ℕ → F → Type 0
  Within side x = (fl.le (fl.literal 0 1) x ≡ true) × (fl.le x (fl.of_int (pos side)) ≡ true)

  pub record IsInFrame (d : YoloDetector F) (width height : ℕ) (x : Detection F) : Type 0 where
    pub left : Within width x.x1
    pub right : Within width x.x2
    pub top : Within height x.y1
    pub bottom : Within height x.y2
    pub confident : fl.lt x.confidence d.confidence ≡ false
    pub is_named : lookup_name x.class_id d.class_names ≡ some x.class_name

module _ {F : Type 0} ⦃fl : Floats F⦄ (laws : IsOrdered fl) where
  -- Whatever the value is, also if it is not a number.
  clamp-Within : (v : F) (n : ℕ) → Within n (clamp v (fl.literal 0 1) (fl.of_int (pos n)))
  unfolding clamp
  clamp-Within v n = ground (
    arith,
    laws.zero-le-of_int n,
    laws.zero-le-of_int 0,
    laws.le-number (fl.literal 0 1) (fl.of_int (pos n)),
    laws.lt-le (fl.literal 0 1) v,
    laws.lt-le (fl.literal 0 1) (fl.literal 0 1),
    laws.lt-le (fl.of_int (pos n)) (fl.of_int (pos n)),
    laws.lt-le v (fl.of_int (pos n)),
    laws.lt-le (fl.literal 0 1) (fl.of_int (pos n)),
    laws.le-not-lt (fl.literal 0 1) (fl.literal 0 1),
    laws.le-not-lt (fl.of_int (pos n)) (fl.of_int (pos n)),
  )

  module _ (d : YoloDetector F) (sx sy : F) (width height : ℕ) where
    -- A row that passes every step.
    boxed-IsInFrame :
        (k : ℤ) (name : String) (confidence : F) (id : Result (Option ℤ)) (row : List F)
        (x : Detection F)
        → fl.lt confidence d.confidence ≡ false
        → lookup_name k d.class_names ≡ some name
        → boxed sx sy (pos width) (pos height) k name confidence id row ≡ ok (some x)
        → IsInFrame d width height x
    boxed-IsInFrame k name confidence id [] x high named h = absurd (cc)
    boxed-IsInFrame k name confidence id (a ∷ []) x high named h = absurd (cc)
    boxed-IsInFrame k name confidence id (a ∷ b ∷ []) x high named h = absurd (cc)
    boxed-IsInFrame k name confidence id (a ∷ b ∷ c ∷ []) x high named h = absurd (cc)
    boxed-IsInFrame k name confidence (err e) (a ∷ b ∷ c ∷ e' ∷ r) x high named h = absurd (cc)
    boxed-IsInFrame k name confidence (ok id) (a ∷ b ∷ c ∷ e ∷ r) x high named h =
        subst (IsInFrame d width height) (ok_some_injective h) (record {
          left = clamp-Within (fl.mul a sx) width;
          right = clamp-Within (fl.mul c sx) width;
          top = clamp-Within (fl.mul b sy) height;
          bottom = clamp-Within (fl.mul e sy) height;
          confident = high;
          is_named = named;
        })

    -- The steps behind the test of the confidence.
    named_row :
        (boxes : Boxes F) (i : ℕ) (row : List F) (x : Detection F) (confidence : F)
        → fl.lt confidence d.confidence ≡ false
        → classified d boxes sx sy (pos width) (pos height) i row confidence ≡ ok (some x)
        → IsInFrame d width height x
    named_row boxes i row x confidence high h =
        let (cls, _, h₁) = bind_result-eq-ok (or_err (get_elem? boxes.cls i) index_error) _ h in
        let (k, _, h₂) = bind_result-eq-ok (or_err (fl.to_int cls) conversion_error) _ h₁ in
        let (name, found, h₃) =
          bind_result-eq-ok (or_err (lookup_name k d.class_names) unknown_class) _ h₂ in
        boxed-IsInFrame k name confidence (id_at i boxes.ids) row x high
          (or_err-eq-ok (lookup_name k d.class_names) unknown_class found) h₃

    prepend-All :
        {P : Detection F → Type 0} (o : Option (Detection F)) (ds : List (Detection F))
        → ((x : Detection F) → o ≡ some x → P x)
        → All P ds
        → All P (prepend o ds)
    prepend-All none ds f h = h
    prepend-All (some x) ds f h = (f x refl, h)

    detect_row-IsInFrame :
        (boxes : Boxes F) (i : ℕ) (row : List F) (x : Detection F)
        → detect_row d boxes sx sy (pos width) (pos height) i row ≡ ok (some x)
        → IsInFrame d width height x
    unfolding detect_row
    detect_row-IsInFrame boxes i row x h =
        let (confidence, at, rest) =
          bind_result-eq-ok (or_err (get_elem? boxes.conf i) index_error) _ h in
        elim (Bool-cases (fl.lt confidence d.confidence)) [
          | inl low ↦ absurd (ok_none-ne-ok_some (rw low at rest))
          | inr high ↦ named_row boxes i row x confidence high (rw high at rest)
        ]

    detect_rows-IsInFrame :
        (boxes : Boxes F) (i : ℕ) (rows : List (List F)) (xs : List (Detection F))
        → detect_rows d boxes sx sy (pos width) (pos height) i rows ≡ ok xs
        → All (IsInFrame d width height) xs
    unfolding detect_rows
    detect_rows-IsInFrame boxes i [] xs h =
        subst (All (IsInFrame d width height)) (ok_injective h) tt
    detect_rows-IsInFrame boxes i (row ∷ rows) xs h =
        let (found, one, more) =
          bind_result-eq-ok (detect_row d boxes sx sy (pos width) (pos height) i row) _ h in
        let (rest, others, all) =
          bind_result-eq-ok (detect_rows d boxes sx sy (pos width) (pos height) (suc i) rows) _
            more in
        subst (All (IsInFrame d width height)) (ok_injective all) (
          prepend-All found rest (λ x e. detect_row-IsInFrame boxes i row x (one ∙ ap ok e))
            (detect_rows-IsInFrame boxes (suc i) rows rest others))

  boxes-IsInFrame :
      (d : YoloDetector F) (sx sy : F) (width height : ℕ) (boxes : Option (Boxes F))
      (xs : List (Detection F))
      → detect_boxes d sx sy (pos width) (pos height) boxes ≡ ok xs
      → All (IsInFrame d width height) xs
  boxes-IsInFrame d sx sy width height none xs h =
      subst (All (IsInFrame d width height)) (ok_injective h) tt
  boxes-IsInFrame d sx sy width height (some boxes) xs h =
      detect_rows-IsInFrame d sx sy width height boxes 0 boxes.xyxy xs h

  -- Whatever the model returns, each detection of a frame lies in the frame, its confidence is not
  -- below the threshold, and it has the model's name for its class.
  pub detect-IsInFrame :
      (d : YoloDetector F) (width height : ℕ) (xs : List (Detection F))
      → detect d (pos height ∷ pos width ∷ pos 3 ∷ []) ≡ ok xs
      → All (IsInFrame d width height) xs
  unfolding detect
  detect-IsInFrame d width height xs h =
      let valid = if_err-eq-ok (leb_ℤ (pos width) (pos 0) || leb_ℤ (pos height) (pos 0)) _ _ h in
      let (p, _, predicted) =
        bind_result-eq-ok (prepare_frame (pos width) (pos height) d.inference_size) _ valid in
      let (boxes, _, found) =
        bind_result-eq-ok (inference (d.model.predict p.0 p.1 d.confidence d.inference_size)) _
          predicted in
      boxes-IsInFrame d p.2 p.3 width height boxes xs found
