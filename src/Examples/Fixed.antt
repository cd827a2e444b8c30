-- ===== src/Examples/Fixed.antt =====
-- Thousandths that are not negative, as a `Float` on which the examples compute.
use ai_m_os.Common.{ℕ, ◌*◌, ◌/◌, ◌-◌, ℤ, pos, negsuc, ◌≤ℤ◌, ltb, ◌==◌, none, some, ◌≡◌, ◌≤◌, arith}
use native.Mathlib.Nat.{mul_assoc, mul-le-mul_right, div-le_of_le-mul}
use ai_m_os.Common.Int.{pos_part}
use ai_m_os.Common.Number.{show_ℕ, read_ℤ}
use ai_m_os.Float.{Float, IsRounding}

abbrev pub fixed : Float ℕ
fixed = record {
  of_int = λ n. pos_part n * 1000;
  three_halves = 1500;
  is_zero = λ x. x == 0;
  lt = ltb;
  sub = λ x y. x - y;
  mul = λ x y. x * y / 1000;
  div_int = λ a b. pos_part a * 1000 / pos_part b;
  parse = λ s. elim (read_ℤ s) [ none ↦ none | some n ↦ some (pos_part n * 1000) ];
  show_1 = λ x. show_ℕ (x / 1000);
  show_2 = λ x. show_ℕ (x / 1000);
}

mul-whole : (x c : ℕ) → x * (c * 1000) / 1000 ≡ x * c
mul-whole x c = omega (arith, mul_assoc x c 1000)

mul-thousands : (a b : ℕ) → a * 1000 * b ≡ a * b * 1000
mul-thousands a b = grind arith

pos_part-le : (a b : ℤ) → a ≤ℤ b → pos 1 ≤ℤ b → pos_part a * 1000 ≤ pos_part b * 1000
pos_part-le (pos a) (pos b) h k = omega arith
pos_part-le (negsuc a) b h k = omega arith
pos_part-le a (negsuc b) h k = absurd (omega arith)

pub fixed-IsRounding : IsRounding fixed
fixed-IsRounding = record {
  lt_trans = λ x y z h k. ground arith;
  lt-of_int = λ a b ha hb. ground arith;
  sub-of_int = λ a b h ha. omega arith;
  mul-of_int = λ a b h. omega (arith, mul-whole (a * 1000) b, mul-thousands a b);
  div_int_nonneg = λ a b h k. ground arith;
  div_int-le_one = λ a b h k. ground (
    arith,
    div-le_of_le-mul (pos_part b) {m = pos_part a * 1000} {n = 1000} (pos_part-le a b h k),
  );
  sub_anti = λ x y c h. ground arith;
  mul_mono = λ x y c h.
      ground
        (arith, mul-whole x c, mul-whole y c, mul-le-mul_right {m = x} {n = y} c (ground arith));
}
