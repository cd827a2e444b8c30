-- ===== src/Heuristics/ReadBack.antt =====
-- What `_read_proc` reads from a line of `/proc/<pid>/stat`, whose form proc(5) documents.

use ai_m_os.Common.{
  ℕ, suc, ◌+◌, ◌≡◌, refl, ◌∙◌, ap, sym, ℤ, Bool, false, ◌==◌, some, List, [], ◌∷◌, ◌++◌, Text,
  codes, ok, arith, if◌then◌else◌,
}
use ai_m_os.Common.Lists.{All, All-append, length, get_elem?}
use ai_m_os.Common.Str.{split_words, strip_left, strip_right, is_space}
use ai_m_os.Common.Number.{show_ℤ}
use ai_m_os.Common.Words.{
  IsSolid, IsWord, join_words, split_words-join_words, show_ℤ-IsWord, read_ℤ-show_ℤ,
}
use ai_m_os.Heuristics.Parse.{word_at, int_at, parse_stat}

get_elem?-append :
    (xs ys : List Text) (i : ℕ) → get_elem? (xs ++ ys) (length xs + i) ≡ get_elem? ys i
get_elem?-append [] ys i = ground arith
get_elem?-append (x ∷ xs) ys i =
    let e : suc (length xs) + i ≡ suc (length xs + i) = omega arith in
    ap (get_elem? (x ∷ (xs ++ ys))) e ∙ get_elem?-append xs ys i

abbrev is_open : ℕ → Bool
is_open c = c == b'('

abbrev is_close : ℕ → Bool
is_close c = c == b')'

-- A process name without white space and parentheses.
abbrev pub IsPlain : Text → Type 0
IsPlain name = IsSolid name × All (λ c. is_open c ≡ false) name × All (λ c. is_close c ≡ false) name

strip_left-name :
    (name : Text)
    → All (λ c. is_open c ≡ false) name
    → strip_left is_open (name ++ codes ")") ≡ name ++ codes ")"
unfolding strip_left
strip_left-name [] h = refl
strip_left-name (c ∷ s) h = rw h.0

strip_right-name :
    (name : Text)
    → All (λ c. is_close c ≡ false) name
    → strip_right is_close (name ++ codes ")") ≡ name
unfolding strip_right
strip_right-name [] h = refl
strip_right-name (c ∷ []) h = rw h.0 refl
strip_right-name (c ∷ d ∷ s) h =
    ap
      (λ (rest : Text). elim rest as (λ x. Text) [
        | [] ↦ if is_close c then [] else c ∷ []
        | e ∷ t ↦ c ∷ e ∷ t
      ])
      (strip_right-name (d ∷ s) h.1)

strip-name :
    (name : Text)
    → All (λ c. is_open c ≡ false) name
    → All (λ c. is_close c ≡ false) name
    → strip_right is_close (strip_left is_open (codes "(" ++ (name ++ codes ")"))) ≡ name
unfolding strip_left
strip-name name h k = ap (strip_right is_close) (strip_left-name name h) ∙ strip_right-name name k

-- The fields of the line: the third to the thirteenth are `front`, and the sixteenth to the
-- eighteenth stand between `stime` and `nice`.
abbrev pub stat_line : Text → Text → List Text → ℤ → ℤ → Text → Text → Text → ℤ → List Text → Text
stat_line pid name front utime stime cutime cstime priority nice tail = join_words (
    pid
    ∷ (codes "(" ++ (name ++ codes ")"))
    ∷ (front ++ show_ℤ utime ∷ show_ℤ stime ∷ cutime ∷ cstime ∷ priority ∷ show_ℤ nice ∷ tail))

int_at-show_ℤ :
    (ws : List Text) (i : ℕ) (z : ℤ) → get_elem? ws i ≡ some (show_ℤ z) → int_at ws i ≡ ok z
int_at-show_ℤ ws i z e = ground (arith, e, read_ℤ-show_ℤ z)

parse_stat_of_words :
    (text raw : Text) (utime stime nice : ℤ)
    → word_at (split_words text) 1 ≡ ok raw
    → int_at (split_words text) 13 ≡ ok utime
    → int_at (split_words text) 14 ≡ ok stime
    → int_at (split_words text) 18 ≡ ok nice
    → parse_stat text ≡ ok (strip_right is_close (strip_left is_open raw), utime, stime, nice)
unfolding parse_stat
parse_stat_of_words text raw utime stime nice w u s n = ground (arith, w, u, s, n)

paren-IsWord : (name : Text) → IsSolid name → IsWord (codes "(" ++ (name ++ codes ")"))
unfolding is_space
paren-IsWord name h = (
  λ q. ground (arith, q),
  (refl, All-append (λ c. is_space c ≡ false) name (codes ")") h (refl, tt)),
)

module _ (pid name cutime cstime priority : Text) (front tail : List Text)
    (utime stime nice : ℤ) where
  abbrev rest : List Text
  rest = show_ℤ utime ∷ show_ℤ stime ∷ cutime ∷ cstime ∷ priority ∷ show_ℤ nice ∷ tail

  abbrev fields : List Text
  fields = pid ∷ (codes "(" ++ (name ++ codes ")")) ∷ (front ++ rest)

  -- The field at a place behind `front`.
  field_at :
      (i : ℕ) (z : ℤ)
      → length front ≡ 11
      → get_elem? rest i ≡ some (show_ℤ z)
      → get_elem? (front ++ rest) (11 + i) ≡ some (show_ℤ z)
  field_at i z e h =
      ap (λ n. get_elem? (front ++ rest) (n + i)) (sym e) ∙ get_elem?-append front rest i ∙ h

  -- From a line of `/proc/<pid>/stat` in the form that proc(5) documents, of a process whose name
  -- has no white space and no parentheses, and whatever words stand in the fields between: the
  -- code reads the name, utime, stime and the nice value that were printed there.
  pub parse_stat-stat_line :
      IsWord pid
      → IsPlain name
      → All IsWord front
      → length front ≡ 11
      → IsWord cutime
      → IsWord cstime
      → IsWord priority
      → All IsWord tail
      → parse_stat (stat_line pid name front utime stime cutime cstime priority nice tail)
        ≡ ok (name, utime, stime, nice)
  parse_stat-stat_line hp hn hf e hu hs hr ht =
      let words : All IsWord fields = (
        hp,
        (
          paren-IsWord name hn.0,
          All-append IsWord front rest hf (
            show_ℤ-IsWord utime,
            (show_ℤ-IsWord stime, (hu, (hs, (hr, (show_ℤ-IsWord nice, ht))))),
          ),
        ),
      ) in
      let split = split_words-join_words fields words in
      parse_stat_of_words (join_words fields) (codes "(" ++ (name ++ codes ")")) utime stime nice
        (ap (λ ws. word_at ws 1) split)
        (ap (λ ws. int_at ws 13) split ∙ int_at-show_ℤ fields 13 utime (field_at 0 utime e refl))
        (ap (λ ws. int_at ws 14) split ∙ int_at-show_ℤ fields 14 stime (field_at 1 stime e refl))
        (ap (λ ws. int_at ws 18) split ∙ int_at-show_ℤ fields 18 nice (field_at 5 nice e refl))
      ∙ ap (λ (s : Text). ok (s, utime, stime, nice)) (strip-name name hn.1 hn.2)
