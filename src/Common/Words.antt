-- ===== src/Common/Words.antt =====
-- Words joined by spaces, and the texts of numbers among them.

use mathlib.Core.Option
use mathlib.Core.List.{append-nil, append_assoc}
use ai_m_os.Common.{
  ℕ, zero, suc, ◌+◌, ◌/◌, ◌%◌, ◌<◌, ◌≡◌, ◌≢◌, refl, ◌∙◌, ap, sym, ℤ, pos, negsuc, ltb, ltb→lt, true,
  false, some, List, [], ◌∷◌, ◌++◌, Text, codes, inl, inr, Bool-cases, arith, if◌then◌else◌,
}
use ai_m_os.Common.Lists.{All, All-append}
use ai_m_os.Common.Str.{is_space, split_words, onto_head, strip_left, strip_right, strip}
use ai_m_os.Common.Number.{digits, show_ℤ, read_ℤ, read_digits, read_signed, read_digits-digits}

abbrev pub IsSolid : Text → Type 0
IsSolid s = All (λ c. is_space c ≡ false) s

-- A text that `split` takes for one word.
abbrev pub IsWord : Text → Type 0
IsWord s = (s ≢ []) × IsSolid s

-- The words with spaces between them, and a line break.
abbrev pub join_words : List Text → Text
join_words [] = []
join_words (w ∷ []) = w ++ codes "\n"
join_words (w ∷ v ∷ ws) = w ++ (codes " " ++ join_words (v ∷ ws))

split_words_step :
    (c d : ℕ) (s : Text)
    → is_space c ≡ false
    → is_space d ≡ false
    → split_words (c ∷ d ∷ s) ≡ onto_head c (split_words (d ∷ s))
unfolding split_words
split_words_step c d s e f = rw (e, f) refl

split_words-cons :
    (w : Text) (sep : ℕ) (t : Text)
    → IsWord w
    → is_space sep ≡ true
    → split_words (w ++ sep ∷ t) ≡ w ∷ split_words t
unfolding split_words
split_words-cons [] sep t h e = absurd (h.0 refl)
split_words-cons (c ∷ []) sep t h e = ground (arith, h.1.0)
split_words-cons (c ∷ d ∷ w) sep t h e =
    split_words_step c d (w ++ sep ∷ t) h.1.0 h.1.1.0
    ∙ ap (onto_head c) (split_words-cons (d ∷ w) sep t ((λ q. ground (arith, q)), h.1.1) e)

pub split_words-join_words : (ws : List Text) → All IsWord ws → split_words (join_words ws) ≡ ws
split_words-join_words [] h = unfold split_words in refl
split_words-join_words (w ∷ []) h =
    split_words-cons w 10 [] h.0 (unfold is_space in refl) ∙ (unfold split_words in refl)
split_words-join_words (w ∷ v ∷ ws) h =
    split_words-cons w 32 (join_words (v ∷ ws)) h.0 (unfold is_space in refl)
    ∙ ap (λ l. w ∷ l) (split_words-join_words (v ∷ ws) h.1)

-- Nothing to strip.
strip_left-IsSolid : (s : Text) → IsSolid s → strip_left is_space s ≡ s
unfolding strip_left
strip_left-IsSolid [] h = refl
strip_left-IsSolid (c ∷ s) h = rw h.0

strip_right-IsSolid : (s : Text) → IsSolid s → strip_right is_space s ≡ s
unfolding strip_right
strip_right-IsSolid [] h = refl
strip_right-IsSolid (c ∷ []) h = rw h.0
strip_right-IsSolid (c ∷ d ∷ s) h =
    ap
      (λ (rest : Text). elim rest as (λ x. Text) [
        | [] ↦ if is_space c then [] else c ∷ []
        | e ∷ t ↦ c ∷ e ∷ t
      ])
      (strip_right-IsSolid (d ∷ s) h.1)

strip-IsSolid : (s : Text) → IsSolid s → strip s ≡ s
unfolding strip
strip-IsSolid s h = ap (strip_right is_space) (strip_left-IsSolid s h) ∙ strip_right-IsSolid s h

digit-solid : (d : ℕ) → d < 10 → is_space (b'0' + d) ≡ false
unfolding is_space
digit-solid d h = ground arith

digits-IsSolid : (fuel n : ℕ) → IsSolid (digits fuel n)
unfolding digits
digits-IsSolid zero n = tt
digits-IsSolid (suc fuel) n = elim (Bool-cases (ltb n 10)) [
  | inl small ↦ rw small (digit-solid n (ltb→lt n 10 small), tt)
  | inr big ↦ rw big (
      All-append (λ c. is_space c ≡ false) (digits fuel (n / 10)) _ (digits-IsSolid fuel (n / 10))
        (digit-solid (n % 10) (omega arith), tt))
]

-- Printed digits begin with one.
digits_front :
    (fuel n : ℕ) (s : Text)
    → n < fuel
    → (d : ℕ) × (t : Text) × (d < 10) × (digits fuel n ++ s ≡ (b'0' + d) ∷ t)
unfolding digits
digits_front zero n s h = elim h [ ]
digits_front (suc fuel) n s h = elim (Bool-cases (ltb n 10)) [
  | inl small ↦ rw small (n, s, ltb→lt n 10 small, refl)
  | inr big ↦
      rw (big, append_assoc) (digits_front fuel (n / 10) ((b'0' + n % 10) ∷ s) (ground arith))
]

read_signed-digit :
    (d : ℕ) (t : Text)
    → d < 10
    → read_signed ((b'0' + d) ∷ t) ≡ Option.map pos (read_digits ((b'0' + d) ∷ t) 0 false)
read_signed-digit d t h = ground arith

read_signed-digits : (n : ℕ) → read_signed (digits (suc n) n) ≡ some (pos n)
read_signed-digits n =
    let (d, t, small, e) = digits_front (suc n) n [] (omega arith) in
    let front : digits (suc n) n ≡ (b'0' + d) ∷ t = sym (append-nil (digits (suc n) n)) ∙ e in
    let back : read_digits (digits (suc n) n) 0 false ≡ some n =
      ap (λ s. read_digits s 0 false) (sym (append-nil (digits (suc n) n)))
      ∙ read_digits-digits (suc n) n [] false (omega arith)
      ∙ (unfold read_digits in refl) in
    ap read_signed front
    ∙ read_signed-digit d t small
    ∙ ap (λ s. Option.map pos (read_digits s 0 false)) (sym front)
    ∙ ap (Option.map pos) back

show_ℤ-IsSolid : (z : ℤ) → IsSolid (show_ℤ z)
unfolding show_ℤ is_space
show_ℤ-IsSolid (pos n) = digits-IsSolid (suc n) n
show_ℤ-IsSolid (negsuc m) = (refl, digits-IsSolid (suc (suc m)) (suc m))

pub show_ℤ-IsWord : (z : ℤ) → IsWord (show_ℤ z)
unfolding show_ℤ
show_ℤ-IsWord (pos n) =
    let (d, t, small, e) = digits_front (suc n) n [] (omega arith) in
    (λ q. ground (arith, q, append-nil (digits (suc n) n), e), show_ℤ-IsSolid (pos n))
show_ℤ-IsWord (negsuc m) = (λ q. ground (arith, q), show_ℤ-IsSolid (negsuc m))

-- `int` reads back what `str` prints.
pub read_ℤ-show_ℤ : (z : ℤ) → read_ℤ (show_ℤ z) ≡ some z
unfolding read_ℤ show_ℤ
read_ℤ-show_ℤ (pos n) =
    ap read_signed (strip-IsSolid (show_ℤ (pos n)) (show_ℤ-IsSolid (pos n))) ∙ read_signed-digits n
read_ℤ-show_ℤ (negsuc m) =
    let back : read_digits (digits (suc (suc m)) (suc m)) 0 false ≡ some (suc m) =
      ap (λ s. read_digits s 0 false) (sym (append-nil (digits (suc (suc m)) (suc m))))
      ∙ read_digits-digits (suc (suc m)) (suc m) [] false (omega arith)
      ∙ (unfold read_digits in refl) in
    ap read_signed (strip-IsSolid (show_ℤ (negsuc m)) (show_ℤ-IsSolid (negsuc m)))
    ∙ ap (Option.map (λ n. elim n as (λ x. ℤ) [ zero ↦ pos zero | suc k ↦ negsuc k ])) back
