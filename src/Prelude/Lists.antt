-- ===== src/Prelude/Lists.antt =====
-- Lists measured by native numbers, and predicates on their members.
use Prim.Native.Nat.{ℕ, zero, suc, ◌+◌, ◌<◌}
use mathlib.Core.Path.{◌≡◌, subst}
use mathlib.Core.Bool.{Bool}
use mathlib.Core.Option.{Option, none, some}
use mathlib.Core.List.{List, [], ◌∷◌, ◌++◌}
use native.Mathlib.Omega.{arith}
use mousinator.Prelude.Tests.{if◌then◌else◌}

module _ {ℓ} {A : Type ℓ} where
  abbrev pub length : List A → ℕ
  length [] = 0
  length (x ∷ xs) = suc (length xs)

  abbrev pub get_elem? : List A → ℕ → Option A
  get_elem? [] i = none
  get_elem? (x ∷ xs) zero = some x
  get_elem? (x ∷ xs) (suc i) = get_elem? xs i

  -- A write out of bounds changes nothing.
  abbrev pub set : List A → ℕ → A → List A
  set [] i v = []
  set (x ∷ xs) zero v = v ∷ xs
  set (x ∷ xs) (suc i) v = x ∷ set xs i v

  -- Every member satisfies `P`.
  abbrev pub All {κ} : (A → Type κ) → List A → Type κ
  All P [] = Unit
  All P (x ∷ xs) = P x × All P xs

  -- The items that pass a test, in order.
  abbrev pub keep : (A → Bool) → List A → List A
  keep p [] = []
  keep p (x ∷ xs) = if p x then x ∷ keep p xs else keep p xs

  pub length-append : (xs ys : List A) → length (xs ++ ys) ≡ length xs + length ys
  length-append [] ys = omega arith
  length-append (x ∷ xs) ys = omega (arith, length-append xs ys)

  pub All-append {κ} : (P : A → Type κ) (xs ys : List A) → All P xs → All P ys → All P (xs ++ ys)
  All-append P [] ys hx hy = hy
  All-append P (x ∷ xs) ys hx hy = (hx.0, All-append P xs ys hx.1 hy)

  -- An index out of bounds comes after every index of a member.
  pub get_elem?-none-later :
      (xs : List A) (i k : ℕ) (x : A) → get_elem? xs k ≡ none → get_elem? xs i ≡ some x → i < k
  get_elem?-none-later [] i k x e there = absurd (ground arith)
  get_elem?-none-later (y ∷ ys) i zero x e there = absurd (ground arith)
  get_elem?-none-later (y ∷ ys) zero (suc k) x e there = omega arith
  get_elem?-none-later (y ∷ ys) (suc i) (suc k) x e there =
      omega (arith, get_elem?-none-later ys i k x e there)

module _ {ℓ κ} {A : Type ℓ} (P : A → Type κ) where
  pub All-set : (xs : List A) (i : ℕ) (v : A) → All P xs → P v → All P (set xs i v)
  All-set [] i v h p = h
  All-set (x ∷ xs) zero v h p = (p, h.1)
  All-set (x ∷ xs) (suc i) v h p = (h.0, All-set xs i v h.1 p)

  pub All-get_elem? : (xs : List A) (i : ℕ) (v : A) → All P xs → get_elem? xs i ≡ some v → P v
  All-get_elem? [] i v h e = absurd (ground arith)
  All-get_elem? (x ∷ xs) zero v h e = subst P (ground arith) h.0
  All-get_elem? (x ∷ xs) (suc i) v h e = All-get_elem? xs i v h.1 e

  pub All-weaken {μ} : (Q : A → Type μ) (xs : List A) → ((x : A) → P x → Q x) → All P xs → All Q xs
  All-weaken Q [] f h = tt
  All-weaken Q (x ∷ xs) f h = (f x h.0, All-weaken Q xs f h.1)
