-- ===== src/Heuristics/Parse.antt =====
-- What `_read_proc` takes from the two texts that it reads.
use ai_m_os.Common.{ℕ, ℤ, List, [], ◌∷◌, Text, codes, Exn, Result, ok, if◌then◌else◌, ◌==◌}
use ai_m_os.Common.Lists.{get_elem?}
use ai_m_os.Common.Str.{split_words, strip_left, strip_right, starts_with}
use ai_m_os.Common.Number.{read_ℤ}
use ai_m_os.Common.Outcome.{◌>>=◌, or_raise}

-- `xs[i]` and `int(xs[i])`
abbrev pub word_at : List Text → ℕ → Result Text
word_at ws i = or_raise (get_elem? ws i) Exn.index_error

abbrev pub int_at : List Text → ℕ → Result ℤ
int_at ws i = do w ← word_at ws i; or_raise (read_ℤ w) Exn.value_error

-- What `_read_proc` takes from `/proc/<pid>/stat`: name, utime, stime, nice.
unfoldable pub parse_stat : Text → Result (Text × ℤ × ℤ × ℤ)
unfolding split_words strip_left strip_right read_ℤ
parse_stat text = do
  let stat = split_words text
  raw ← word_at stat 1
  let name = strip_right (λ c. c == b')') (strip_left (λ c. c == b'(') raw)
  utime ← int_at stat 13
  stime ← int_at stat 14
  nice_val ← int_at stat 18
  ok (name, utime, stime, nice_val)

-- One line of `/proc/<pid>/status`, on the uid and the resident size so far.
status_line : Text → ℤ × ℤ → Result (ℤ × ℤ)
unfolding split_words starts_with read_ℤ
status_line line (uid, vm_rss) =
    if starts_with line (codes "Uid:")
    then (do n ← int_at (split_words line) 1; ok (n, vm_rss))
    else if starts_with line (codes "VmRSS:")
    then (do n ← int_at (split_words line) 1; ok (uid, n))
    else ok (uid, vm_rss)

unfoldable pub scan_status : List Text → ℤ × ℤ → Result (ℤ × ℤ)
unfolding status_line
scan_status [] acc = ok acc
scan_status (line ∷ lines) acc = do acc' ← status_line line acc; scan_status lines acc'
