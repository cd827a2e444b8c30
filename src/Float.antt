-- ===== src/Float.antt =====
-- Python's `float` as the program uses it: an interface, since its arithmetic is the processor's.
use ai_m_os.Common.{ℕ, ◌-◌, ◌*◌, ◌^◌, ◌≤◌, ℤ, pos, ◌≤ℤ◌, Bool, true, false, Option, Text, ◌≡◌, ltb}

pub record Float (F : Type 0) : Type 0 where
  -- `float(n)`, which is also what a float is compared with where the source has an `int`
  pub of_int : ℤ → F
  -- the literal 1.5
  pub three_halves : F
  -- `x == 0`
  pub is_zero : F → Bool
  pub lt : F → F → Bool
  pub sub : F → F → F
  pub mul : F → F → F
  -- `a / b` on two ints, where `b` is not 0
  pub div_int : ℤ → ℤ → F
  -- `float(s)`; `none` is a `ValueError`
  pub parse : Text → Option F
  -- f"{x:.1f}" and f"{x:.2f}"
  pub show_1 : F → Text
  pub show_2 : F → Text

-- What the code relies on of comparisons and of the arithmetic of the percentages, as IEEE 754 has
-- it for rounding to nearest: ints up to 2 ^ 53 are exact, and rounding keeps the order.
pub record IsRounding {F : Type 0} (fl : Float F) : Type 0 where
  pub lt_trans : (x y z : F) → fl.lt x y ≡ true → fl.lt y z ≡ true → fl.lt x z ≡ true
  pub lt-of_int :
      (a b : ℕ) → a ≤ 2 ^ 53 → b ≤ 2 ^ 53 → fl.lt (fl.of_int (pos a)) (fl.of_int (pos b)) ≡ ltb a b
  pub sub-of_int :
      (a b : ℕ)
      → b ≤ a
      → a ≤ 2 ^ 53
      → fl.sub (fl.of_int (pos a)) (fl.of_int (pos b)) ≡ fl.of_int (pos (a - b))
  pub mul-of_int :
      (a b : ℕ)
      → a * b ≤ 2 ^ 53
      → fl.mul (fl.of_int (pos a)) (fl.of_int (pos b)) ≡ fl.of_int (pos (a * b))
  -- A quotient of ints lies on the side of a whole number on which the exact one lies.
  pub div_int_nonneg :
      (a b : ℤ) → pos 0 ≤ℤ a → pos 1 ≤ℤ b → fl.lt (fl.div_int a b) (fl.of_int (pos 0)) ≡ false
  pub div_int-le_one :
      (a b : ℤ) → a ≤ℤ b → pos 1 ≤ℤ b → fl.lt (fl.of_int (pos 1)) (fl.div_int a b) ≡ false
  -- `not (y < x)` of two numbers, neither of which is NaN, is kept by the operations.
  pub sub_anti :
      (x y : F) (c : ℕ)
      → fl.lt y x ≡ false
      → fl.lt (fl.sub (fl.of_int (pos c)) x) (fl.sub (fl.of_int (pos c)) y) ≡ false
  pub mul_mono :
      (x y : F) (c : ℕ)
      → fl.lt y x ≡ false
      → fl.lt (fl.mul y (fl.of_int (pos c))) (fl.mul x (fl.of_int (pos c))) ≡ false
