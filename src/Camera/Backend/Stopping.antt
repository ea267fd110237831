-- ===== src/Camera/Backend/Stopping.antt =====
-- Sequences of calls on the backend of host/camera/picamera2_backend.py, and its stop.
use mousinator.Camera.Backend.Validity.{
  start_recording-IsValid, stop_recording-IsValid, capture_sensor_native-IsValid, get_frame-IsValid,
  IsIdle-IsValid, start-IsValid, stop-IsIdle, IsValid, IsIdle,
}
use mousinator.Camera.Backend.{
  start_recording, closes, stop_stream_encoder, capture_sensor_native, stop_recording, get_frame,
  stop, Call, start, picamera2_backend, Backend, Picamera2,
}
use mousinator.Camera.Buffer.{deactivate, shutdown}
use mousinator.Prelude.{
  none, false, Option, ◌∷◌, some, inr, ◌⊎◌, inl, Bool-cases, [], List, true, ◌≡◌, refl, arith,
}

-- The methods that a client calls.
pub data Operation (P : Type 0) : Type 0 where
  start_camera stop_camera take_frame take_native end_record : Operation P
  begin_record : P → Operation P

module _ {A M P B W : Type 0} (cam : Picamera2 A M P W) where
  -- The state after a call, which may have raised.
  unfoldable pub step : Operation P → Backend B W → Backend B W
  unfolding start stop get_frame capture_sensor_native stop_recording start_recording
  step start_camera s = (start cam s).1
  step stop_camera s = (stop cam s).1
  step take_frame s = (get_frame cam s).1
  step take_native s = (capture_sensor_native cam s).1
  step end_record s = (stop_recording cam s).1
  step (begin_record path) s = (start_recording cam path s).1

  unfoldable pub run : List (Operation P) → Backend B W → Backend B W
  unfolding step
  run [] s = s
  run (o ∷ os) s = run os (step o s)

  step-IsValid : (o : Operation P) (s : Backend B W) → IsValid s → IsValid (step o s)
  unfolding step
  step-IsValid start_camera s v = start-IsValid cam s v
  step-IsValid stop_camera s v = IsIdle-IsValid cam _ (stop-IsIdle cam s v)
  step-IsValid take_frame s v = get_frame-IsValid cam s v
  step-IsValid take_native s v = capture_sensor_native-IsValid cam s v
  step-IsValid end_record s v = stop_recording-IsValid cam s v
  step-IsValid (begin_record path) s v = start_recording-IsValid cam path s v

  run-IsValid : (os : List (Operation P)) (s : Backend B W) → IsValid s → IsValid (run os s)
  unfolding run
  run-IsValid [] s v = v
  run-IsValid (o ∷ os) s v = run-IsValid os (step o s) (step-IsValid o s v)

-- The last call.
abbrev pub last_call : List Call → Option Call
last_call [] = none
last_call (c ∷ cs) = some c

-- The backend is idle; if a camera was set, the last call on it was its close, and the waits for a
-- frame are over.
abbrev pub IsShut : {B W : Type 0} → Backend B W → Backend B W → Type 0
IsShut s t =
    IsIdle t
    × ((s.has_camera ≡ false)
        ⊎ ((last_call t.calls ≡ some closes) × (t.frame_buffer.closed ≡ true)))

module _ {A M P B W : Type 0} (cam : Picamera2 A M P W) where
  stop-closes :
      (s : Backend B W)
      → s.has_camera ≡ true
      → (last_call (stop cam s).1.calls ≡ some closes) × ((stop cam s).1.frame_buffer.closed ≡ true)
  unfolding stop stop_recording stop_stream_encoder deactivate shutdown
  stop-closes s h = ground arith

  -- After any calls on a new backend, whichever of them raised, a stop leaves it idle even if the
  -- stop raises: no camera, encoder or recording is set and the buffer takes no frames; and if a
  -- camera was set, the last call on it was its close and the buffer is closed.
  pub stop-IsShut :
      (os : List (Operation P)) (w : W)
      → IsShut
          (run cam os (picamera2_backend w))
          (stop cam (run cam os (picamera2_backend {B = B} w))).1
  stop-IsShut os w =
      let s = run cam os (picamera2_backend w) in
      (
        stop-IsIdle cam s (
            run-IsValid cam os (picamera2_backend w)
              (record { same = refl; active = refl; streams = refl; records = refl })),
        elim (Bool-cases s.has_camera) [ inl on ↦ inr (stop-closes s on) | inr off ↦ inl off ],
      )
