-- ===== src/Prelude/Exec.antt =====
-- Calls that change a state and may raise. The state comes back beside an exception too, since what
-- was written before a raise stays written.
use Prim.Native.String.{String}
use mathlib.Core.Path.{◌≡◌, refl}
use mathlib.Core.Logic.{◌⊎◌, inl, inr}
use mathlib.Core.Bool.{Bool, true, false}
use mathlib.Core.Option.{Option, none, some}
use mousinator.Prelude.Tests.{if◌then◌else◌}

-- The exception classes that the source raises or names in an `except` clause. `other` is any
-- further subclass of `Exception`. `no_rounds` is not of the source: a loop of a model raises it when
-- its rounds run out.
pub data Kind : Type 0 where
  value_error type_error runtime_error os_error timeout_error serial_exception : Kind
  camera_unavailable storage_low : Kind
  detector_configuration detector_initialization : Kind
  vision_configuration vision_initialization : Kind
  other : Kind
  no_rounds : Kind

pub record Exn : Type 0 where
  pub kind : Kind
  -- `str(exc)`
  pub message : String

pub data Result {ℓ} (A : Type ℓ) : Type ℓ where
  ok : A → Result A
  err : Exn → Result A

abbrev pub Exec {ℓ} : Type ℓ → Type ℓ → Type ℓ
Exec S A = S → Result A × S

module _ {ℓ} {S A : Type ℓ} where
  abbrev pub pure : A → Exec S A
  pure a s = (ok a, s)

  abbrev pub raise : Exn → Exec S A
  raise e s = (err e, s)

  abbrev pub gets : (S → A) → Exec S A
  gets f s = (ok (f s), s)

  -- `try: m finally: f`: an exception of `f` replaces what `m` ended with.
  abbrev pub finally_run : Exec S A → Exec S (Unit {ℓ}) → Exec S A
  finally_run m f s =
      let (r, s') = m s in
      let (r', s'') = f s' in elim r' [ ok _ ↦ (r, s'') | err e ↦ (err e, s'') ]

  -- `try: m except Exception as e: h e`
  abbrev pub caught : Result A → (Exn → Exec S A) → Exec S A
  caught (ok a) h s = (ok a, s)
  caught (err e) h s = h e s

  abbrev pub catch : Exec S A → (Exn → Exec S A) → Exec S A
  catch m h s = let (r, s') = m s in caught r h s'

abbrev pub modify {ℓ} : {S : Type ℓ} → (S → S) → Exec S (Unit {ℓ})
modify f s = (ok tt, f s)

abbrev pub raise_if {ℓ} : {S : Type ℓ} → Bool → Exn → Exec S (Unit {ℓ})
raise_if c e s = if c then (err e, s) else (ok tt, s)

abbrev pub continue {ℓ} : {S A B : Type ℓ} → Result A → (A → Exec S B) → Exec S B
continue (ok a) f s = f a s
continue (err e) f s = (err e, s)

infixl 5 ◌>>=◌ ◌>>◌
abbrev pub ◌>>=◌ {ℓ} : {S A B : Type ℓ} → Exec S A → (A → Exec S B) → Exec S B
◌>>=◌ m f s = let (r, s') = m s in continue r f s'

abbrev pub ◌>>◌ {ℓ} : {S A B : Type ℓ} → Exec S A → Exec S B → Exec S B
m >> k = m >>= λ _. k

pub Result-cases {ℓ} :
    {A : Type ℓ} (r : Result A) → ((a : A) × (r ≡ ok a)) ⊎ ((e : Exn) × (r ≡ err e))
Result-cases (ok a) = inl (a, refl)
Result-cases (err e) = inr (e, refl)

-- What holds of a bind, from what holds where its first part raised and where it went on.
pub continue-lem {ℓ κ} :
    {S A B : Type ℓ} (Q : Result B → S → Type κ) (r : Result A) (f : A → Exec S B) (s : S)
    → ((e : Exn) → r ≡ err e → Q (err e) s)
    → ((a : A) → r ≡ ok a → Q (f a s).0 (f a s).1)
    → Q (continue r f s).0 (continue r f s).1
continue-lem Q (ok a) f s raises goes = goes a refl
continue-lem Q (err e) f s raises goes = raises e refl

-- What holds of a `try`, from what holds where it ended and where its handler did.
pub caught-lem {ℓ κ} :
    {S A : Type ℓ} (Q : Result A → S → Type κ) (r : Result A) (h : Exn → Exec S A) (s : S)
    → ((a : A) → r ≡ ok a → Q (ok a) s)
    → ((e : Exn) → r ≡ err e → Q (h e s).0 (h e s).1)
    → Q (caught r h s).0 (caught r h s).1
caught-lem Q (ok a) h s goes handles = goes a refl
caught-lem Q (err e) h s goes handles = handles e refl

-- A check that raises has been passed where a result came back.
pub if_err-eq-ok {ℓ} :
    {A : Type ℓ} (b : Bool) (e : Exn) (r : Result A) {a : A}
    → (if b then err e else r) ≡ ok a
    → r ≡ ok a
if_err-eq-ok true e r h = cc
if_err-eq-ok false e r h = h

-- `do` on plain results.
abbrev pub bind_result {ℓ κ} : {A : Type ℓ} {B : Type κ} → Result A → (A → Result B) → Result B
bind_result (ok a) f = f a
bind_result (err e) f = err e

abbrev pub or_err {ℓ} : {A : Type ℓ} → Option A → Exn → Result A
or_err none e = err e
or_err (some a) e = ok a

pub bind_result-eq-ok {ℓ κ} :
    {A : Type ℓ} {B : Type κ} (r : Result A) (f : A → Result B) {b : B}
    → bind_result r f ≡ ok b
    → (a : A) × (r ≡ ok a) × (f a ≡ ok b)
bind_result-eq-ok (ok a) f h = (a, refl, h)
bind_result-eq-ok (err e) f h = absurd (cc)

pub or_err-eq-ok {ℓ} :
    {A : Type ℓ} (o : Option A) (e : Exn) {a : A} → or_err o e ≡ ok a → o ≡ some a
or_err-eq-ok none e h = absurd (cc)
or_err-eq-ok (some x) e h = cc

pub ok_injective {ℓ} : {A : Type ℓ} {a b : A} → ok a ≡ ok b → a ≡ b
ok_injective h = cc

pub ok_some_injective {ℓ} : {A : Type ℓ} {a b : A} → ok (some a) ≡ ok (some b) → a ≡ b
ok_some_injective h = cc

pub ok_none-ne-ok_some {ℓ} :
    {A : Type ℓ} {a : A} → ◌≡◌ {A = Result (Option A)} (ok none) (ok (some a)) → ⊥
ok_none-ne-ok_some h = cc
