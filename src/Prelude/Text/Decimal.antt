-- ===== src/Prelude/Text/Decimal.antt =====
-- Printing an integer and reading it back.
use Prim.Native.Nat.{ℕ, zero, suc, ◌+◌, ◌/◌, ◌%◌, ◌<◌}
use mathlib.Core.Path.{◌≡◌, refl, sym, ap, ◌∙◌}
use mathlib.Core.Logic.{inl, inr}
use mathlib.Core.Bool.{true}
use mathlib.Core.List.{[], ◌∷◌}
use native.Mathlib.Omega.{arith}
use mousinator.Prelude.Tests.{ltb, Bool-cases}
use mousinator.Prelude.Int.{ℤ, pos, negsuc, neg}
use mousinator.Prelude.Text.{
  Text, is_digit, all_chars, digits_of, show_ℕ, show, digits_value, int_value,
}

digits_of-value :
    (r n : ℕ) (acc : Text) → n < r → digits_value 10 0 (digits_of r n acc) ≡ digits_value 10 n acc
unfolding digits_of digits_value
digits_of-value zero n acc h = absurd (omega arith)
digits_of-value (suc r) n acc h = elim (Bool-cases (ltb n 10)) [
  | inl small ↦ rw small (ap (λ m. digits_value 10 m acc) (ground arith))
  | inr large ↦ rw large (
      digits_of-value r (n / 10) ((b'0' + n % 10) ∷ acc) (ground arith)
      ∙ ap (λ m. digits_value 10 m acc) (ground arith))
]

digits_of-digits :
    (r n : ℕ) (acc : Text)
    → n < r
    → all_chars is_digit acc ≡ true
    → all_chars is_digit (digits_of r n acc) ≡ true
unfolding digits_of
digits_of-digits zero n acc h d = absurd (omega arith)
digits_of-digits (suc r) n acc h d = elim (Bool-cases (ltb n 10)) [
  | inl small ↦ rw small (ground arith)
  | inr large ↦
      rw large (digits_of-digits r (n / 10) ((b'0' + n % 10) ∷ acc) (ground arith) (ground arith))
]

-- The text of a natural number begins with a digit.
digits_of-cons : (r n : ℕ) (acc : Text) → n < r → (c : ℕ) × (s : Text) × (digits_of r n acc ≡ c ∷ s)
unfolding digits_of
digits_of-cons zero n acc h = absurd (omega arith)
digits_of-cons (suc r) n acc h = elim (Bool-cases (ltb n 10)) [
  | inl small ↦ (b'0' + n, acc, rw small refl)
  | inr large ↦
      let (c, s, e) = digits_of-cons r (n / 10) ((b'0' + n % 10) ∷ acc) (ground arith) in
      (c, s, rw large e)
]

pub show_ℕ-cons :
    (n : ℕ) → (c : ℕ) × (s : Text) × (show_ℕ n ≡ c ∷ s) × (all_chars is_digit (c ∷ s) ≡ true)
unfolding show_ℕ
show_ℕ-cons n =
    let (c, s, e) = digits_of-cons (suc n) n [] (omega arith) in
    (c, s, e, rw e at (digits_of-digits (suc n) n [] (omega arith) refl))

pub show_ℕ-value : (n : ℕ) → digits_value 10 0 (show_ℕ n) ≡ n
unfolding show_ℕ digits_value
show_ℕ-value n = digits_of-value (suc n) n [] (omega arith)

int_value-digits :
    (c : ℕ) (s : Text) → is_digit c ≡ true → int_value (c ∷ s) ≡ pos (digits_value 10 0 (c ∷ s))
unfolding int_value
int_value-digits c s d = ground arith

int_value-show_ℕ : (n : ℕ) → int_value (show_ℕ n) ≡ pos n
int_value-show_ℕ n =
    let (c, s, e, d) = show_ℕ-cons n in
    ap int_value e
    ∙ int_value-digits c s (ground arith)
    ∙ ap pos (ap (digits_value 10 0) (sym e) ∙ show_ℕ-value n)

neg-suc : (n : ℕ) → neg (pos (suc n)) ≡ negsuc n
unfolding neg
neg-suc n = ground arith

-- Reading the text of an integer gives the integer.
pub int_value-show : (n : ℤ) → int_value (show n) ≡ n
unfolding show
int_value-show (pos n) = int_value-show_ℕ n
int_value-show (negsuc n) =
    unfold int_value in ap (λ m. neg (pos m)) (show_ℕ-value (suc n)) ∙ neg-suc n
