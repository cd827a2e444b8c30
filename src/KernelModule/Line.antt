-- ===== src/KernelModule/Line.antt =====
-- The lines of `renice_via_kernel` under the `sscanf` of the module.
use native.Mathlib.Nat.{zero-add, pow-suc}
use mathlib.Core.List.{append_assoc}
use ai_m_os.Common.{
  ℕ, zero, suc, ◌+◌, ◌-◌, ◌*◌, ◌/◌, ◌%◌, ◌^◌, ◌<◌, ◌≤◌, ◌≡◌, refl, ◌∙◌, ℤ, pos, negsuc, ltb, ltb→lt,
  lt→ltb, Bool, true, false, some, [], ◌∷◌, ◌++◌, Text, codes, inl, inr, Bool-cases, arith,
}
use ai_m_os.Common.Lists.{length, length-append}
use ai_m_os.Common.Str.{is_digit}
use ai_m_os.Common.Number.{digits, show_ℤ}
use ai_m_os.Machine.Laws.{IsInt, renice_line}
use ai_m_os.KernelModule.{
  scan_digits, skip_spaces, scan_number, scan_int, sscanf_two, to_int, starts_digit,
}

scan_digits-cons :
    (d acc : ℕ) (s : Text)
    → d < 10
    → scan_digits ((b'0' + d) ∷ s) acc ≡ scan_digits s (acc * 10 + d)
unfolding scan_digits
scan_digits-cons d acc s h =
    let e : is_digit (b'0' + d) ≡ true = ground arith in
    let f : acc * 10 + (b'0' + d - b'0') ≡ acc * 10 + d = omega arith in rw (e, f)

scan_digits-digits :
    (fuel n : ℕ) (s : Text) → n < fuel → scan_digits (digits fuel n ++ s) 0 ≡ scan_digits s n
unfolding digits
scan_digits-digits zero n s h = elim h [ ]
scan_digits-digits (suc fuel) n s h = elim (Bool-cases (ltb n 10)) [
  | inl small ↦ rw small (scan_digits-cons n 0 s (ltb→lt n 10 small) ∙ rw zero-add)
  | inr big ↦
      let e : n / 10 * 10 + n % 10 ≡ n = omega arith in
      rw (big, append_assoc)
        (scan_digits-digits fuel (n / 10) ((b'0' + n % 10) ∷ s) (ground arith)
          ∙ scan_digits-cons (n % 10) (n / 10) s (omega arith)
          ∙ rw e)
]

-- Printed digits begin with one.
starts_digit-digits : (fuel n : ℕ) (s : Text) → n < fuel → starts_digit (digits fuel n ++ s) ≡ true
unfolding digits
starts_digit-digits zero n s h = elim h [ ]
starts_digit-digits (suc fuel) n s h = elim (Bool-cases (ltb n 10)) [
  | inl small ↦ rw small (ground arith)
  | inr big ↦
      rw (big, append_assoc)
        (starts_digit-digits fuel (n / 10) ((b'0' + n % 10) ∷ s) (ground arith))
]

scan_digits_end : (s : Text) (n : ℕ) → starts_digit s ≡ false → scan_digits s n ≡ (n, s)
unfolding scan_digits
scan_digits_end [] n h = refl
scan_digits_end (c ∷ s) n h = rw h

scan_int_of_digit : (s : Text) → starts_digit s ≡ true → scan_int s ≡ scan_number false s
unfolding scan_int skip_spaces
scan_int_of_digit [] h = cc
scan_int_of_digit (c ∷ s) h = ground arith

scan_number-digits :
    (minus : Bool) (n : ℕ) (s : Text)
    → starts_digit s ≡ false
    → scan_number minus (digits (suc n) n ++ s) ≡ some (to_int minus n, s)
unfolding scan_number
scan_number-digits minus n s h = rw (
  starts_digit-digits (suc n) n s (omega arith),
  scan_digits-digits (suc n) n s (omega arith),
  scan_digits_end s n h,
)

to_int-minus : (m : ℕ) → m ≤ 2147483647 → to_int true (suc m) ≡ negsuc m
to_int-minus m h = ground arith

to_int_small : (n : ℕ) → n ≤ 2147483647 → to_int false n ≡ pos n
to_int_small n h = ground arith

-- `%d` reads a printed number that an `int` holds, up to a character that is no digit.
pub scan_int-show_ℤ :
    (z : ℤ) (s : Text) → IsInt z → starts_digit s ≡ false → scan_int (show_ℤ z ++ s) ≡ some (z, s)
unfolding show_ℤ
scan_int-show_ℤ (pos n) s h e =
    scan_int_of_digit (digits (suc n) n ++ s) (starts_digit-digits (suc n) n s (omega arith))
    ∙ scan_number-digits false n s e
    ∙ rw (to_int_small n (omega arith))
scan_int-show_ℤ (negsuc m) s h e =
    unfold scan_int skip_spaces in
    (scan_number-digits true (suc m) s e ∙ rw (to_int-minus m (omega arith)))

scan_int-space : (s : Text) → scan_int (codes " " ++ s) ≡ scan_int s
unfolding scan_int skip_spaces
scan_int-space s = refl

sscanf_two_of_scans :
    (s r t : Text) (a b : ℤ)
    → scan_int s ≡ some (a, r)
    → scan_int r ≡ some (b, t)
    → sscanf_two s ≡ some (a, b)
unfolding sscanf_two
sscanf_two_of_scans s r t a b h k = ground arith

-- For two numbers that an `int` holds, the module's `sscanf` reads them back from the line that
-- `renice_via_kernel` writes.
pub sscanf_two-renice_line :
    (pid n : ℤ) → IsInt pid → IsInt n → sscanf_two (renice_line pid n) ≡ some (pid, n)
unfolding renice_line
sscanf_two-renice_line pid n hp hn =
    let rest = show_ℤ n ++ codes "\n" in
    sscanf_two_of_scans (renice_line pid n) (codes " " ++ rest) (codes "\n") pid n
      (scan_int-show_ℤ pid (codes " " ++ rest) hp refl)
      (scan_int-space rest ∙ scan_int-show_ℤ n (codes "\n") hn refl)

lower_power : (n k : ℕ) → n < 10 ^ suc (suc k) → n / 10 < 10 ^ suc k
lower_power n k h = let e : 10 ^ suc (suc k) ≡ 10 ^ suc k * 10 = pow-suc 10 (suc k) in omega arith

length-digits : (fuel n k : ℕ) → n < 10 ^ suc k → length (digits fuel n) ≤ suc k
unfolding digits
length-digits zero n k h = omega arith
length-digits (suc fuel) n zero h =
    let small : ltb n 10 ≡ true = lt→ltb n 10 h in rw small (omega arith)
length-digits (suc fuel) n (suc k) h = elim (Bool-cases (ltb n 10)) [
  | inl small ↦ rw small (omega arith)
  | inr big ↦
      rw (big, length-append) (omega (arith, length-digits fuel (n / 10) k (lower_power n k h)))
]

length-show_ℤ : (z : ℤ) → IsInt z → length (show_ℤ z) ≤ 11
unfolding show_ℤ
length-show_ℤ (pos n) h = omega (arith, length-digits (suc n) n 9 (omega arith))
length-show_ℤ (negsuc m) h = omega (arith, length-digits (suc (suc m)) (suc m) 9 (omega arith))

-- A line fits the buffer of the module.
pub length-renice_line : (pid n : ℤ) → IsInt pid → IsInt n → length (renice_line pid n) ≤ 24
unfolding renice_line
length-renice_line pid n hp hn =
    rw (length-append, length-append)
      (omega (
        arith,
        length-show_ℤ pid hp,
        length-show_ℤ n hn,
        length-append {0} (show_ℤ n) (codes "\n"),
      ))
