-- ===== src/Tests/Fixed.antt =====
-- A concrete instance of the float interface for the tests: integers that count thousandths.
use mousinator.Prelude.{
  ℕ, ◌+◌, ◌*◌, ◌/◌, ◌≡◌, refl, true, false, some, ℤ, pos, pos_part, neg_part, sub_ℕ, ◌+ℤ◌, ◌-ℤ◌,
  ◌*ℤ◌, ltb_ℤ, leb_ℤ, eqb_ℤ, arith,
}
use mousinator.Prelude.Floats.{Floats, IsOrdered}

-- a / b for a number b, towards zero.
abbrev quotient : ℤ → ℕ → ℤ
quotient a b = sub_ℕ (pos_part a / b) (neg_part a / b)

abbrev divide : ℤ → ℤ → ℤ
divide a b =
    sub_ℕ (pos_part a * 1000 / pos_part b + neg_part a * 1000 / neg_part b)
      (neg_part a * 1000 / pos_part b + pos_part a * 1000 / neg_part b)

instance abbrev pub fixed : Floats ℤ
fixed = record {
  of_int = λ n. n *ℤ pos 1000;
  literal = λ n d. pos (n * 1000 / d);
  add = λ a b. a +ℤ b;
  sub = λ a b. a -ℤ b;
  mul = λ a b. quotient (a *ℤ b) 1000;
  div = divide;
  abs = λ a. pos (pos_part a + neg_part a);
  lt = ltb_ℤ;
  le = leb_ℤ;
  eq = eqb_ℤ;
  to_int = λ a. some (quotient a 1000);
  round = λ a. some (quotient (a +ℤ pos 500) 1000);
  is_nan = λ a. false;
}

of_int-nonneg : (n : ℕ) → leb_ℤ (pos 0) (pos n *ℤ pos 1000) ≡ true
unfolding ◌*ℤ◌
of_int-nonneg n = ground arith

pub fixed-IsOrdered : IsOrdered fixed
fixed-IsOrdered = record {
  le-number = λ a b h. (refl, refl);
  le-not-lt = λ a b p q. ground arith;
  lt-le = λ a b h. ground arith;
  le_trans = λ a b c p q. ground arith;
  zero-le-of_int = λ n. of_int-nonneg n;
}
