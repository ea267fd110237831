-- ===== src/Mcu/Disabling.antt =====
-- What the motor tests of host/sentry_mcu.py write last.
use mousinator.Prelude.{
  ℕ, suc, ◌≡◌, refl, ap, sym, ◌∙◌, All, All-append, Done, not, Option, none, some, List, [], ◌∷◌,
  ◌++◌, ℤ, pos_part, arith, inl, inr, ◌⊎◌, if_both, ltb,
}
use mathlib.Core.Path.{subst}
use mathlib.Core.List.{append-nil, append_assoc}
use mousinator.Prelude.Exec.{
  Exn, runtime_error, Result, ok, err, Exec, continue, continue-lem, finally_run, raise_if, pure,
  Result-cases, ◌>>=◌, ◌>>◌,
}
use mousinator.Prelude.Text.{Text, codes, starts_with}
use mousinator.Mcu.Messages.{Axis, AxisState, pan, tilt}
use mousinator.Mcu.Pattern.{Fields, fullmatch}
use mousinator.Mcu.Client.{
  Port, Session, command, expect_ok, state_of, state_command, matched, decoded, raised,
  state_pattern,
}
use mousinator.Mcu.Readings.{read_state}
use mousinator.Mcu.Motor.{Duration}
use mousinator.Mcu.Runs.{
  disable_command, motor_body, motor_cleanup, motor_enabled, run_motor_test, stop_and_wait,
  disable_and_report, counted, reported, dual_queries, dual_enabled, dual_body, dual_cleanup,
  run_dual_motor_test,
}

finally_run-state :
    {S A : Type 0} (m : Exec S A) (f : Exec S Done) (s : S) → (finally_run m f s).1 ≡ (f (m s).1).1
finally_run-state m f s = elim (Result-cases (f (m s).1).0) [
  | inl (u, e) ↦ ground arith
  | inr (x, e) ↦ ground arith
]

ok-ne-err : {B : Type 0} {b : B} {e : Exn} → ok b ≡ err e → ⊥
ok-ne-err h = cc

-- The commands are written in this order, and after them at most the state is queried.
pub record EndsWith {W : Type 0} (commands : List Text) (t : Session W) : Type 0 where
  pub before : List Text
  pub queries : List Text
  pub written : t.sent ≡ (before ++ commands) ++ queries
  pub only : All (λ c. (c ≡ state_command pan) ⊎ (c ≡ state_command tilt)) queries

-- The commands of the dual clean-up.
abbrev pub dual_commands : List Text
dual_commands = codes "STOP" ∷ disable_command pan ∷ disable_command tilt ∷ []

module _ {W : Type 0} (port : Port W) where
  decoded-sent : (r : Result Text) (s : Session W) → (decoded port r s).1.sent ≡ s.sent
  decoded-sent (err e) s = refl
  decoded-sent (ok []) s = refl
  decoded-sent (ok (c ∷ bytes)) s = ground arith

  checked-sent :
      (r : Text) (s : Session W)
      → ((raise_if (not (starts_with (codes "OK") r)) (raised runtime_error "command failed")
            >> pure r)
          s).1.sent
        ≡ s.sent
  checked-sent r s = ground arith

  command-sent : (c : Text) (s : Session W) → (command port c s).1.sent ≡ s.sent ++ c ∷ []
  unfolding command
  command-sent c s = decoded-sent (port.exchange (c ++ 13 ∷ 10 ∷ []) s.world).0 _

  expect_ok-sent : (c : Text) (s : Session W) → (expect_ok port c s).1.sent ≡ s.sent ++ c ∷ []
  unfolding expect_ok
  expect_ok-sent c s =
      continue-lem {S = Session W} {B = Text} (λ r t. t.sent ≡ s.sent ++ c ∷ [])
        (command port c s).0 _ _ (λ e h. command-sent c s)
        (λ r h. (checked-sent r (command port c s).1) ∙ command-sent c s)

  matched-state :
      {A : Type 0} (f : Fields → A) (o : Option Fields) (s : Session W) → (matched port f o s).1 ≡ s
  matched-state f none s = refl
  matched-state f (some x) s = refl

  state_of-sent :
      (a : Axis) (s : Session W) → (state_of port a s).1.sent ≡ s.sent ++ state_command a ∷ []
  unfolding state_of
  state_of-sent a s =
      continue-lem {S = Session W} {B = AxisState} (λ r t. t.sent ≡ s.sent ++ state_command a ∷ [])
        (expect_ok port (state_command a) s).0 _ _ (λ e h. expect_ok-sent (state_command a) s)
        (λ r h.
          ap (λ t. t.sent) (matched-state (read_state a) (fullmatch (state_pattern a) r) _)
          ∙ expect_ok-sent (state_command a) s)

  ends-here :
      (commands before : List Text) (t : Session W)
      → t.sent ≡ before ++ commands
      → EndsWith commands t
  ends-here commands before t h = record {
    before = before;
    queries = [];
    written = h ∙ sym (append-nil (before ++ commands));
    only = tt;
  }

  is-query :
      (a : Axis) → (state_command a ≡ state_command pan) ⊎ (state_command a ≡ state_command tilt)
  is-query pan = inl refl
  is-query tilt = inr refl

  -- A query may follow.
  state_of-Ends :
      (commands : List Text) (a : Axis) (s : Session W)
      → EndsWith commands s
      → EndsWith commands (state_of port a s).1
  state_of-Ends commands a s h = record {
    before = h.before;
    queries = h.queries ++ state_command a ∷ [];
    written =
        state_of-sent a s
        ∙ ap (λ l. l ++ state_command a ∷ []) h.written
        ∙ append_assoc (h.before ++ commands) h.queries (state_command a ∷ []);
    only = All-append _ h.queries (state_command a ∷ []) h.only (is-query a, tt);
  }

  disable_and_report-Ends :
      (a : Axis) (s : Session W) → EndsWith (disable_command a ∷ []) (disable_and_report port a s).1
  disable_and_report-Ends a s =
      continue-lem {S = Session W} {B = Done} (λ r t. EndsWith (disable_command a ∷ []) t)
        (expect_ok port (disable_command a) s).0 (λ r. state_of port a >> pure tt)
        (expect_ok port (disable_command a) s).1 (λ e h. here)
        (λ r h.
          continue-lem {S = Session W} {B = Done} (λ r t. EndsWith (disable_command a ∷ []) t)
            (state_of port a (expect_ok port (disable_command a) s).1).0 (λ st. pure tt)
            (state_of port a (expect_ok port (disable_command a) s).1).1
            (λ e h'. state_of-Ends (disable_command a ∷ []) a _ here)
            (λ st h'. state_of-Ends (disable_command a ∷ []) a _ here))
    where
      here : EndsWith (disable_command a ∷ []) (expect_ok port (disable_command a) s).1
      here = ends-here (disable_command a ∷ []) s.sent _ (expect_ok-sent (disable_command a) s)

  motor_cleanup-Ends :
      (a : Axis) (s : Session W) → EndsWith (disable_command a ∷ []) (motor_cleanup port a s).1
  unfolding motor_cleanup
  motor_cleanup-Ends a s =
      subst (EndsWith (disable_command a ∷ []))
        (sym (finally_run-state (stop_and_wait port a) (disable_and_report port a) s))
        (disable_and_report-Ends a (stop_and_wait port a s).1)

  -- Once the driver of an axis was enabled, a motor test ends with its DISABLE command, after which
  -- it at most queries the state, whatever is raised in the test or in its clean-up.
  pub run_motor_test-EndsDisabled :
      (a : Axis) (velocity : ℤ) (duration : Duration) (refresh : ℤ) (s : Session W)
      (response : Text)
      → (motor_enabled port a velocity duration refresh s).0 ≡ ok response
      → EndsWith (disable_command a ∷ []) (run_motor_test port a velocity duration refresh s).1
  unfolding run_motor_test
  run_motor_test-EndsDisabled a velocity duration refresh s response enabled =
      continue-lem {S = Session W} {B = Done} (λ r t. EndsWith (disable_command a ∷ []) t)
        (motor_enabled port a velocity duration refresh s).0 _
        (motor_enabled port a velocity duration refresh s).1
        (λ e h. absurd (ok-ne-err (sym enabled ∙ h)))
        (λ r h.
          subst (EndsWith (disable_command a ∷ []))
            (sym (
              finally_run-state (motor_body port a velocity duration (pos_part refresh))
                (motor_cleanup port a) (motor_enabled port a velocity duration refresh s).1))
            (motor_cleanup-Ends a _))

  counted-lem :
      {B : Type 0} (Q : Result B → Session W → Type 0) (n : ℕ) (f : ℕ → Exec (Session W) B)
      (r : Result Text) (s : Session W)
      → ((k : ℕ) → Q (f k s).0 (f k s).1)
      → let out = counted port n (r, s) in Q (continue out.0 f out.1).0 (continue out.0 f out.1).1
  counted-lem Q n f (ok x) s next = next n
  counted-lem Q n f (err e) s next = next (suc n)

  three-sent :
      (s : Session W)
      → let s1 = (command port (codes "STOP") s).1 in
        let s2 = (command port (disable_command pan) s1).1 in
        (command port (disable_command tilt) s2).1.sent ≡ s.sent ++ dual_commands
  three-sent s =
      command-sent (disable_command tilt) _
      ∙ ap (λ l. l ++ disable_command tilt ∷ [])
          (command-sent (disable_command pan) _
            ∙ ap (λ l. l ++ disable_command pan ∷ []) (command-sent (codes "STOP") s))
      ∙ append_assoc (s.sent ++ codes "STOP" ∷ []) _ _
      ∙ append_assoc s.sent _ _

  queried-Ends :
      (k : ℕ) (s : Session W)
      → EndsWith dual_commands s
      → EndsWith dual_commands (dual_queries port k s).1
  queried-Ends k s h =
      continue-lem {S = Session W} {B = Done} (λ r t. EndsWith dual_commands t)
        (state_of port pan s).0 (λ u. state_of port tilt >>= λ u'. reported port k)
        (state_of port pan s).1 (λ e h'. state_of-Ends dual_commands pan s h)
        (λ r h'.
          continue-lem {S = Session W} {B = Done} (λ r t. EndsWith dual_commands t)
            (state_of port tilt (state_of port pan s).1).0 (λ u'. reported port k)
            (state_of port tilt (state_of port pan s).1).1
            (λ e h''. state_of-Ends dual_commands tilt _ (state_of-Ends dual_commands pan s h))
            (λ r' h''.
              if_both (λ (x : Result Done × Session W). EndsWith dual_commands x.1) (ltb 0 k)
                (state_of-Ends dual_commands tilt _ (state_of-Ends dual_commands pan s h))
                (state_of-Ends dual_commands tilt _ (state_of-Ends dual_commands pan s h))))

  dual_cleanup-Ends : (s : Session W) → EndsWith dual_commands (dual_cleanup port s).1
  unfolding dual_cleanup
  dual_cleanup-Ends s =
      counted-lem Q 0 _ (command port (codes "STOP") s).0 (command port (codes "STOP") s).1 (λ one.
        counted-lem Q one _ (command port (disable_command pan) _).0 _ (λ two.
          counted-lem Q two _ (command port (disable_command tilt) _).0 _
            (λ three. queried-Ends three _ (ends-here dual_commands s.sent _ (three-sent s)))))
    where
      Q : Result Done → Session W → Type 0
      Q r t = EndsWith dual_commands t

  -- Once both drivers were enabled, the dual motor test ends with STOP and the DISABLE command of
  -- each axis, after which it at most queries the states, whatever is raised in the test or by one of
  -- these three commands.
  pub run_dual_motor_test-EndsDisabled :
      (p t : ℤ) (duration : Duration) (refresh : ℤ) (s : Session W) (response : Text)
      → (dual_enabled port p t duration refresh s).0 ≡ ok response
      → EndsWith dual_commands (run_dual_motor_test port p t duration refresh s).1
  unfolding run_dual_motor_test
  run_dual_motor_test-EndsDisabled p t duration refresh s response enabled =
      continue-lem {S = Session W} {B = Done} (λ r t. EndsWith dual_commands t)
        (dual_enabled port p t duration refresh s).0 _ (dual_enabled port p t duration refresh s).1
        (λ e h. absurd (ok-ne-err (sym enabled ∙ h)))
        (λ r h.
          subst (EndsWith dual_commands)
            (sym (
              finally_run-state (dual_body port p t duration (pos_part refresh)) (dual_cleanup port)
                (dual_enabled port p t duration refresh s).1))
            (dual_cleanup-Ends _))
