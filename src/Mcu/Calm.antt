-- ===== src/Mcu/Calm.antt =====
-- The clock that the loops of host/sentry_mcu.py rely on, and that no exchange turns it back.
use mousinator.Prelude.{
  ℕ, ◌+◌, ◌≤◌, ◌≡◌, ◌≢◌, refl, Bool, true, false, Option, none, some, [], ◌∷◌, ◌++◌, not, arith,
}
use mousinator.Prelude.Exec.{
  no_rounds, Exn, Result, ok, err, Exec, pure, raise, raise_if, continue, ◌>>=◌,
}
use mousinator.Prelude.Text.{Text, codes, starts_with}
use mousinator.Mcu.Messages.{Axis}
use mousinator.Mcu.Pattern.{Fields, fullmatch}
use mousinator.Mcu.Client.{
  Port, Session, command, expect_ok, matched, state_of, decoded, state_command, state_pattern,
}
use mousinator.Mcu.Readings.{read_state}
use native.Mathlib.Nat.{le_trans}

-- What the loops rely on: the clock never goes back, a sleep lasts at least as long as it is asked
-- to, and the port raises only exceptions of its own.
pub record IsClock {W : Type 0} (port : Port W) : Type 0 where
  pub reading : W → ℕ
  pub not_back :
      (w : W)
      → (reading w ≤ (port.monotonic w).0) × ((port.monotonic w).0 ≤ reading (port.monotonic w).1)
  pub lasts : (d : ℕ) (w : W) → reading w + d ≤ reading (port.sleep d w)
  pub passes : (p : Text) (w : W) → reading w ≤ reading (port.exchange p w).1
  pub own : (p : Text) (w : W) (e : Exn) → (port.exchange p w).0 ≡ err e → e.kind ≢ no_rounds

module _ {W : Type 0} (port : Port W) (clock : IsClock port) where
  -- An action that never runs out of rounds and never turns the clock back.
  pub record IsCalm {A : Type 0} (m : Exec (Session W) A) : Type 0 where
    pub later : (s : Session W) → clock.reading s.world ≤ clock.reading (m s).1.world
    pub own : (s : Session W) (e : Exn) → (m s).0 ≡ err e → e.kind ≢ no_rounds

  IsCalm-pure : {A : Type 0} (a : A) → IsCalm (pure a)
  IsCalm-pure a = record { later = λ s. omega arith; own = λ s e h. absurd (cc) }

  IsCalm-raise : {A : Type 0} (e : Exn) → e.kind ≢ no_rounds → IsCalm (raise {A = A} e)
  IsCalm-raise e n = record { later = λ s. omega arith; own = λ s e' h k. n (ground arith) }

  IsCalm-continue :
      {A B : Type 0} (r : Result A) (f : A → Exec (Session W) B) (s : Session W)
      → ((e : Exn) → r ≡ err e → e.kind ≢ no_rounds)
      → ((a : A) → IsCalm (f a))
      → (clock.reading s.world ≤ clock.reading (continue r f s).1.world)
        × ((e : Exn) → (continue r f s).0 ≡ err e → e.kind ≢ no_rounds)
  IsCalm-continue (ok a) f s own next = ((next a).later s, (next a).own s)
  IsCalm-continue (err e) f s own next = (omega arith, λ e' h. own e' (cc))

  IsCalm-bind :
      {A B : Type 0} (m : Exec (Session W) A) (f : A → Exec (Session W) B)
      → IsCalm m
      → ((a : A) → IsCalm (f a))
      → IsCalm (m >>= f)
  IsCalm-bind m f first next = record {
    later = λ s. le_trans (first.later s) (IsCalm-continue (m s).0 f (m s).1 (first.own s) next).0;
    own = λ s. (IsCalm-continue (m s).0 f (m s).1 (first.own s) next).1;
  }

  decoded-calm :
      (r : Result Text) (s : Session W)
      → ((e : Exn) → r ≡ err e → e.kind ≢ no_rounds)
      → ((decoded port r s).1 ≡ s) × ((e : Exn) → (decoded port r s).0 ≡ err e → e.kind ≢ no_rounds)
  decoded-calm (err x) s own = (refl, own)
  decoded-calm (ok []) s own = (refl, λ e h. ground arith)
  decoded-calm (ok (c ∷ bytes)) s own = (ground arith, λ e h. ground arith)

  command-IsCalm : (c : Text) → IsCalm (command port c)
  unfolding command
  command-IsCalm c = record {
    later = λ s. ground (
      arith,
      clock.passes (c ++ 13 ∷ 10 ∷ []) s.world,
      (decoded-calm _ (after c s) (clock.own (c ++ 13 ∷ 10 ∷ []) s.world)).0,
    );
    own = λ s. (decoded-calm _ (after c s) (clock.own (c ++ 13 ∷ 10 ∷ []) s.world)).1;
  }
    where
      after : Text → Session W → Session W
      after c s = record {
        world = (port.exchange (c ++ 13 ∷ 10 ∷ []) s.world).1;
        sent = s.sent ++ c ∷ [];
      }

  checked-IsCalm : (b : Bool) (e : Exn) → e.kind ≢ no_rounds → IsCalm (raise_if b e)
  checked-IsCalm true e n = IsCalm-raise e n
  checked-IsCalm false e n = IsCalm-pure tt

  pub expect_ok-IsCalm : (c : Text) → IsCalm (expect_ok port c)
  unfolding expect_ok
  expect_ok-IsCalm c = IsCalm-bind (command port c) _ (command-IsCalm c) (λ r.
      IsCalm-bind _ (λ u. pure r) (checked-IsCalm (not (starts_with (codes "OK") r)) _ (λ k. cc))
        (λ u. IsCalm-pure r))

  matched-IsCalm : {A : Type 0} (f : Fields → A) (o : Option Fields) → IsCalm (matched port f o)
  matched-IsCalm f none = IsCalm-raise _ (λ k. cc)
  matched-IsCalm f (some fields) = IsCalm-pure (f fields)

  pub state_of-IsCalm : (a : Axis) → IsCalm (state_of port a)
  unfolding state_of
  state_of-IsCalm a =
      IsCalm-bind (expect_ok port (state_command a)) _ (expect_ok-IsCalm (state_command a))
        (λ r. matched-IsCalm (read_state a) (fullmatch (state_pattern a) r))
