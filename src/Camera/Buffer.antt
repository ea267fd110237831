-- ===== src/Camera/Buffer.antt =====
-- The class `JpegFrameBuffer` of host/camera/picamera2_backend.py: the frames of the stream encoder,
-- of the type `B`, for any number of consumers. Every method holds the lock of the condition.
pub mod Delivery
use mousinator.Prelude.{
  ℕ, suc, ltb, Bool, true, false, ◌||◌, Option, none, some, List, [], ◌∷◌, if◌then◌else◌,
}

pub record JpegFrameBuffer (B : Type 0) : Type 0 where
  pub sequence : ℕ
  pub frame : Option B
  pub active : Bool
  pub closed : Bool

abbrev pub jpeg_frame_buffer : {B : Type 0} → JpegFrameBuffer B
jpeg_frame_buffer = record { sequence = 0; frame = none; active = false; closed = false }

-- The calls of other threads that reach the buffer while a consumer waits.
pub data Call (B : Type 0) : Type 0 where
  writes : B → Call B
  activates deactivates shuts_down : Call B

module _ {B : Type 0} where
  -- `write`; a frame is dropped while the buffer is not active.
  unfoldable pub write : B → JpegFrameBuffer B → JpegFrameBuffer B
  write f b = if b.active then record b { frame = some f; sequence = suc b.sequence } else b

  unfoldable pub activate : JpegFrameBuffer B → JpegFrameBuffer B
  activate b = record b { closed = false; active = true }

  unfoldable pub deactivate : JpegFrameBuffer B → JpegFrameBuffer B
  deactivate b = record b { active = false }

  unfoldable pub shutdown : JpegFrameBuffer B → JpegFrameBuffer B
  shutdown b = record b { active = false; closed = true }

  unfoldable pub perform : Call B → JpegFrameBuffer B → JpegFrameBuffer B
  unfolding write activate deactivate shutdown
  perform (writes f) b = write f b
  perform activates b = activate b
  perform deactivates b = deactivate b
  perform shuts_down b = shutdown b

  unfoldable pub perform_all : List (Call B) → JpegFrameBuffer B → JpegFrameBuffer B
  unfolding perform
  perform_all [] b = b
  perform_all (c ∷ cs) b = perform_all cs (perform c b)

  -- What the wait of `wait_for_frame` waits for.
  abbrev pub is_ready : ℕ → JpegFrameBuffer B → Bool
  is_ready after b = ltb after b.sequence || b.closed

  abbrev pub numbered : ℕ → Option B → Option (ℕ × B)
  numbered n none = none
  numbered n (some f) = some (n, f)

  -- What `wait_for_frame` returns once its wait is over, also by its timeout.
  abbrev pub delivered : ℕ → JpegFrameBuffer B → Option (ℕ × B)
  delivered after b = if ltb after b.sequence then numbered b.sequence b.frame else none

  -- `wait_for_frame` with the calls that come before its timeout.
  unfoldable pub wait_for_frame : ℕ → List (Call B) → JpegFrameBuffer B → Option (ℕ × B)
  unfolding perform
  wait_for_frame after [] b = delivered after b
  wait_for_frame after (c ∷ cs) b =
      let later = wait_for_frame after cs (perform c b) in
      if is_ready after b then delivered after b else later
