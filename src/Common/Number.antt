-- ===== src/Common/Number.antt =====
-- `str(n)` and `int(s)` for Python's integers.
use Prim.Native.Nat.{ℕ, zero, suc, ◌+◌, ◌-◌, ◌*◌, ◌/◌, ◌%◌, ◌<◌}
use mathlib.Core.Path.{◌≡◌, ◌∙◌}
use mathlib.Core.Logic.{inl, inr}
use mathlib.Core.Bool.{Bool, true, false, ◌&&◌}
use mathlib.Core.Option
use mathlib.Core.Option.{Option, none, some}
use mathlib.Core.List.{[], ◌∷◌, ◌++◌, append_assoc}
use native.Mathlib.Omega.{arith}
use native.Mathlib.Nat.{zero-add}
use ai_m_os.Common.Tests.{ltb, ◌==◌, if◌then◌else◌, Bool-cases, ltb→lt}
use ai_m_os.Common.Int.{ℤ, pos, negsuc}
use ai_m_os.Common.Str.{Text, is_digit, strip}

-- The decimal digits, at most `fuel` of them.
unfoldable pub digits : ℕ → ℕ → Text
digits zero n = []
digits (suc fuel) n =
    let front = digits fuel (n / 10) in
    if ltb n 10 then (b'0' + n) ∷ [] else front ++ (b'0' + n % 10) ∷ []

unfoldable pub show_ℕ : ℕ → Text
unfolding digits
show_ℕ n = digits (suc n) n

unfoldable pub show_ℤ : ℤ → Text
unfolding show_ℕ
show_ℤ (pos n) = show_ℕ n
show_ℤ (negsuc n) = b'-' ∷ show_ℕ (suc n)

-- The digits of `int(s)`, with single underscores between them. `after` tells whether a digit
-- stands in front.
unfoldable pub read_digits : Text → ℕ → Bool → Option ℕ
read_digits [] acc after = if after then some acc else none
read_digits (c ∷ s) acc after =
    let more = read_digits s (acc * 10 + (c - b'0')) true in
    let skip = read_digits s acc false in
    if is_digit c then more else if c == b'_' && after then skip else none

abbrev pub read_signed : Text → Option ℤ
read_signed [] = none
read_signed (c ∷ s) =
    if c == b'-'
    then Option.map (λ n. elim n [ zero ↦ pos zero | suc m ↦ negsuc m ]) (read_digits s 0 false)
    else if c == b'+'
    then Option.map pos (read_digits s 0 false)
    else Option.map pos (read_digits (c ∷ s) 0 false)

-- `int(s)` on ASCII text; `none` is a `ValueError`.
unfoldable pub read_ℤ : Text → Option ℤ
unfolding read_digits strip
read_ℤ s = read_signed (strip s)

-- A digit multiplies what was read by ten.
read_digits-cons :
    (d acc : ℕ) (s : Text) (after : Bool)
    → d < 10
    → read_digits ((b'0' + d) ∷ s) acc after ≡ read_digits s (acc * 10 + d) true
unfolding read_digits
read_digits-cons d acc s after h =
    let e : is_digit (b'0' + d) ≡ true = ground arith in
    let f : acc * 10 + (b'0' + d - b'0') ≡ acc * 10 + d = omega arith in rw (e, f)

-- Reading printed digits yields the number, and goes on behind them.
pub read_digits-digits :
    (fuel n : ℕ) (s : Text) (after : Bool)
    → n < fuel
    → read_digits (digits fuel n ++ s) 0 after ≡ read_digits s n true
unfolding digits
read_digits-digits zero n s after h = elim h [ ]
read_digits-digits (suc fuel) n s after h = elim (Bool-cases (ltb n 10)) [
  | inl small ↦ rw small (read_digits-cons n 0 s after (ltb→lt n 10 small) ∙ rw zero-add)
  | inr big ↦
      let e : n / 10 * 10 + n % 10 ≡ n = omega arith in
      rw (big, append_assoc)
        (read_digits-digits fuel (n / 10) ((b'0' + n % 10) ∷ s) after (ground arith)
          ∙ read_digits-cons (n % 10) (n / 10) s true (omega arith)
          ∙ rw e)
]
