-- ===== src/Server/Streaming.antt =====
-- The order of the frames in the MJPEG stream of host/camera/stream_server.py.
use mousinator.Server.{yielded, Round, mjpeg_frames}
use mousinator.Camera.Buffer.{
  perform, is_ready, perform_all, Call, delivered, numbered, wait_for_frame, JpegFrameBuffer,
}
use mousinator.Prelude.{
  inr, inl, ltb, if_both, Bool-cases, none, [], ◌∷◌, some, Bool, Option, List, ℕ, ◌<◌, true, false,
  arith,
}

-- The numbers go up, the first from above `n`.
abbrev pub GoUp : {B : Type 0} → ℕ → List (ℕ × B) → Type 0
GoUp n [] = Unit
GoUp n (f ∷ fs) = (n < f.0) × GoUp f.0 fs

module _ {B : Type 0} where
  -- A frame that a wait gives has a greater number than the one it was asked for.
  abbrev IsNewer : ℕ → Option (ℕ × B) → Type 0
  IsNewer n none = Unit
  IsNewer n (some f) = n < f.0

  numbered-IsNewer : (n k : ℕ) (o : Option B) → n < k → IsNewer n (numbered k o)
  numbered-IsNewer n k none h = tt
  numbered-IsNewer n k (some f) h = h

  delivered-IsNewer : (n : ℕ) (b : JpegFrameBuffer B) → IsNewer n (delivered n b)
  delivered-IsNewer n b = elim (Bool-cases (ltb n b.sequence)) [
    | inl newer ↦ simp newer (numbered-IsNewer n b.sequence b.frame (ground arith))
    | inr older ↦ simp older tt
  ]

  wait_for_frame-IsNewer :
      (n : ℕ) (cs : List (Call B)) (b : JpegFrameBuffer B) → IsNewer n (wait_for_frame n cs b)
  unfolding wait_for_frame
  wait_for_frame-IsNewer n [] b = delivered-IsNewer n b
  wait_for_frame-IsNewer n (c ∷ cs) b =
      if_both (IsNewer n) (is_ready n b) (delivered-IsNewer n b)
        (wait_for_frame-IsNewer n cs (perform c b))

  yielded-GoUp :
      (o : Option (ℕ × B)) (running : Bool) (n : ℕ) (later : ℕ → List (ℕ × B))
      → IsNewer n o
      → ((k : ℕ) → GoUp k (later k))
      → GoUp n (yielded o running n later)
  yielded-GoUp none true n later h up = up n
  yielded-GoUp none false n later h up = tt
  yielded-GoUp (some f) running n later h up = (h, up f.0)

  -- Whatever reaches the frame buffer meanwhile, the frames of a stream have ever greater numbers, so
  -- that no frame is sent twice or after a newer one.
  pub mjpeg_frames-GoUp :
      (rs : List (Round B)) (b : JpegFrameBuffer B) (n : ℕ) → GoUp n (mjpeg_frames rs b n)
  unfolding mjpeg_frames
  mjpeg_frames-GoUp [] b n = tt
  mjpeg_frames-GoUp (r ∷ rs) b n = if_both (GoUp n) r.unavailable {x = []} tt (
      yielded-GoUp (wait_for_frame n r.calls b) r.camera_running n
        (mjpeg_frames rs (perform_all r.calls b)) (wait_for_frame-IsNewer n r.calls b)
        (λ k. mjpeg_frames-GoUp rs (perform_all r.calls b) k))
