-- ===== src/Tests/Numbers.antt =====
-- Integers in the place of floating-point numbers: the distances are taken along the axes and
-- every bearing is 0.
use hunter_kinodynamic_rl.Prelude.{◌+◌, ◌*◌, true}
use hunter_kinodynamic_rl.Prelude.Int.{
  ℤ, pos, negsuc, pos_part, neg_part, sub_ℕ, ◌+ℤ◌, ◌-ℤ◌, ltb_ℤ, leb_ℤ, eq_ℤ,
}
use hunter_kinodynamic_rl.Floats.{Floats}

abbrev abs_ℤ : ℤ → ℤ
abs_ℤ a = pos (pos_part a + neg_part a)

abbrev mul_ℤ : ℤ → ℤ → ℤ
mul_ℤ a b =
    sub_ℕ (pos_part a * pos_part b + neg_part a * neg_part b)
      (pos_part a * neg_part b + neg_part a * pos_part b)

abbrev pub numbers : Floats
numbers = record {
  Carrier = ℤ;
  zero_f = pos 0;
  pi = pos 3;
  of_ℕ = λ n. pos n;
  add = λ a b. a +ℤ b;
  sub = λ a b. a -ℤ b;
  mul = mul_ℤ;
  div = λ a b. a;
  modulo = λ a b. a;
  abs = abs_ℤ;
  hypot = λ a b. abs_ℤ a +ℤ abs_ℤ b;
  atan2 = λ a b. pos 0;
  lt = ltb_ℤ;
  le = leb_ℤ;
  eq = eq_ℤ;
  nan = negsuc 0;
  single = λ a. a;
  is_finite = λ a. true;
}
