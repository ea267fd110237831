-- ===== src/Camera/Buffer/Delivery.antt =====
-- What a consumer of the buffer of host/camera/picamera2_backend.py receives.
use mousinator.Prelude.{
  ℕ, ◌≤◌, ◌<◌, ◌≡◌, refl, ap, ◌⊎◌, inl, inr, ltb, true, Option, none, some, List, [], ◌∷◌, ◌++◌,
  is_some, arith, Bool-cases, if_both,
}
use mousinator.Camera.Buffer.{
  JpegFrameBuffer, Call, writes, activates, deactivates, shuts_down, perform, perform_all, is_ready,
  numbered, delivered, wait_for_frame,
}

module _ {B : Type 0} where
  -- There is a frame if one was counted.
  abbrev pub IsCounted : JpegFrameBuffer B → Type 0
  IsCounted b = ltb 0 b.sequence ≡ is_some b.frame

  perform-IsCounted : (c : Call B) (b : JpegFrameBuffer B) → IsCounted b → IsCounted (perform c b)
  unfolding perform
  perform-IsCounted (writes f) b h = if_both IsCounted b.active (ground arith) h
  perform-IsCounted activates b h = h
  perform-IsCounted deactivates b h = h
  perform-IsCounted shuts_down b h = h

  -- How a wait for a frame after the number `after` ended: with the newest frame at some point of the
  -- wait, whose number is greater; or with none, as there was no such frame up to the end of the wait
  -- or up to a point where the buffer was closed.
  abbrev pub Delivers : ℕ → List (Call B) → JpegFrameBuffer B → Option (ℕ × B) → Type 0
  Delivers after cs b (some (n, f)) =
      (before : List (Call B)) × (rest : List (Call B)) × (cs ≡ before ++ rest)
      × (after < n)
      × ((perform_all before b).sequence ≡ n)
      × ((perform_all before b).frame ≡ some f)
  Delivers after cs b none =
      (before : List (Call B)) × (rest : List (Call B)) × (cs ≡ before ++ rest)
      × ((perform_all before b).sequence ≤ after)
      × ((rest ≡ []) ⊎ ((perform_all before b).closed ≡ true))

  Delivers-later :
      (after : ℕ) (c : Call B) (cs : List (Call B)) (b : JpegFrameBuffer B) (r : Option (ℕ × B))
      → Delivers after cs (perform c b) r
      → Delivers after (c ∷ cs) b r
  unfolding perform_all
  Delivers-later after c cs b none (before, rest, split, old, over) =
      (c ∷ before, rest, ap (λ l. c ∷ l) split, old, over)
  Delivers-later after c cs b (some (n, f)) (before, rest, split, newer, number, frame) =
      (c ∷ before, rest, ap (λ l. c ∷ l) split, newer, number, frame)

  numbered-Delivers :
      (after : ℕ) (cs : List (Call B)) (b : JpegFrameBuffer B) (o : Option B)
      → b.frame ≡ o
      → IsCounted b
      → after < b.sequence
      → Delivers after cs b (numbered b.sequence o)
  unfolding perform_all
  numbered-Delivers after cs b (some f) e counted newer = ([], cs, refl, newer, refl, e)
  numbered-Delivers after cs b none e counted newer = absurd (ground arith)

  -- The wait that ends here.
  ends-Delivers :
      (after : ℕ) (cs : List (Call B)) (b : JpegFrameBuffer B)
      → IsCounted b
      → (cs ≡ []) ⊎ (is_ready after b ≡ true)
      → Delivers after cs b (delivered after b)
  unfolding perform_all
  ends-Delivers after cs b counted over = elim (Bool-cases (ltb after b.sequence)) [
    | inl newer ↦ simp newer (numbered-Delivers after cs b b.frame refl counted (ground arith))
    | inr old ↦ simp old ([], cs, refl, ground arith, ground arith)
  ]

  -- A wait for a frame delivers, of a buffer in which a frame was counted if there is one, the newest
  -- frame at some point of the wait, under a number greater than the one asked for; and nothing only
  -- if up to the timeout, or up to a point where the buffer was closed, there was no such frame.
  pub wait_for_frame-Delivers :
      (after : ℕ) (cs : List (Call B)) (b : JpegFrameBuffer B)
      → IsCounted b
      → Delivers after cs b (wait_for_frame after cs b)
  unfolding wait_for_frame
  wait_for_frame-Delivers after [] b counted = ends-Delivers after [] b counted (inl refl)
  wait_for_frame-Delivers after (c ∷ cs) b counted = elim (Bool-cases (is_ready after b)) [
    | inl ready ↦ simp ready (ends-Delivers after (c ∷ cs) b counted (inr ready))
    | inr busy ↦ simp busy (
        Delivers-later after c cs b _
          (wait_for_frame-Delivers after cs (perform c b) (perform-IsCounted c b counted)))
  ]
