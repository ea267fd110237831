-- ===== src/Prelude/Floats.antt =====
-- Python's `float` as an interface: the operations that the source applies to floats, and the laws
-- of their order that IEEE 754 gives. Theorems about rounded values rest on nothing else.
use Prim.Native.Nat.{ℕ}
use mathlib.Core.Path.{◌≡◌}
use native.Mathlib.Omega.{arith}
use mathlib.Core.Bool.{Bool, true, false, not, ◌&&◌}
use mathlib.Core.Option.{Option}
use mousinator.Prelude.Tests.{if◌then◌else◌}
use mousinator.Prelude.Int.{ℤ, pos}

pub record Floats (F : Type 0) : Type 0 where
  -- `float(n)`
  pub of_int : ℤ → F
  -- the literal with the value numerator / denominator
  pub literal : ℕ → ℕ → F
  pub add : F → F → F
  pub sub : F → F → F
  pub mul : F → F → F
  pub div : F → F → F
  pub abs : F → F
  -- a < b, a <= b and a == b
  pub lt : F → F → Bool
  pub le : F → F → Bool
  pub eq : F → F → Bool
  -- `int(x)` and `round(x)`; nothing where they raise, at a NaN or an infinity
  pub to_int : F → Option ℤ
  pub round : F → Option ℤ
  -- `math.isnan`
  pub is_nan : F → Bool

-- IEEE 754 comparisons: a NaN compares false, and the other values are totally ordered.
pub record IsOrdered {F : Type 0} (fl : Floats F) : Type 0 where
  pub le-number : (a b : F) → fl.le a b ≡ true → (fl.is_nan a ≡ false) × (fl.is_nan b ≡ false)
  pub le-not-lt :
      (a b : F) → fl.is_nan a ≡ false → fl.is_nan b ≡ false → fl.le a b ≡ not (fl.lt b a)
  pub lt-le : (a b : F) → fl.lt a b ≡ true → fl.le a b ≡ true
  pub le_trans : (a b c : F) → fl.le a b ≡ true → fl.le b c ≡ true → fl.le a c ≡ true
  -- A natural number converts to a float that is not negative.
  pub zero-le-of_int : (n : ℕ) → fl.le (fl.literal 0 1) (fl.of_int (pos n)) ≡ true

module _ {F : Type 0} ⦃fl : Floats F⦄ where
  -- `0.0 <= x <= 1.0`
  abbrev pub in_unit_range : F → Bool
  in_unit_range x = fl.le (fl.literal 0 1) x && fl.le x (fl.literal 1 1)

  -- Python's `max(a, b)` and `min(a, b)`: the first argument unless the second beats it.
  abbrev pub max_float : F → F → F
  max_float a b = if fl.lt a b then b else a

  abbrev pub min_float : F → F → F
  min_float a b = if fl.lt b a then b else a

module _ {F : Type 0} {fl : Floats F} (laws : IsOrdered fl) where
  pub le-lt_trans : (a b c : F) → fl.le a b ≡ true → fl.lt b c ≡ true → fl.lt a c ≡ true
  le-lt_trans a b c p q = ground (
    arith,
    laws.le-number a b,
    laws.lt-le b c,
    laws.le-number b c,
    laws.le-not-lt c b,
    laws.le-not-lt c a,
    laws.le_trans c a b,
  )

  pub not-lt-le :
      (a b : F) → fl.is_nan a ≡ false → fl.is_nan b ≡ false → fl.lt a b ≡ false → fl.le b a ≡ true
  not-lt-le a b p q h = rw (laws.le-not-lt b a q p, h)
