-- ===== src/Metrics/Cpu.antt =====
-- `_read_cpu_raw` and `read_cpu_usage`.
use ai_m_os.Common.{
  ℕ, ℤ, pos, ◌+ℤ◌, ◌-ℤ◌, ltb_ℤ, Bool, true, false, List, [], ◌∷◌, Text, codes, Exn, Result, ok,
  none, some, if◌then◌else◌, ◌==◌, map,
}
use ai_m_os.Common.Lists.{length, get_elem?}
use ai_m_os.Common.Str.{split_words, split_lines, is_line_break, starts_with}
use ai_m_os.Common.Number.{read_ℤ}
use ai_m_os.Common.Outcome.{◌>>=◌, or_raise}
use ai_m_os.Float.{Float}

-- total and idle ticks of one line
abbrev pub Sample : Type 0
Sample = ℤ × ℤ

-- `[int(x) for x in words]`
read_all : List Text → Result (List ℤ)
unfolding read_ℤ
read_all [] = ok []
read_all (w ∷ ws) = do n ← or_raise (read_ℤ w) Exn.value_error; ns ← read_all ws; ok (n ∷ ns)

abbrev tail_words : List Text → List Text
tail_words [] = []
tail_words (_ ∷ ws) = ws

abbrev int_or_zero : List ℤ → ℕ → ℤ
int_or_zero vals i = elim (get_elem? vals i) [ none ↦ pos 0 | some v ↦ v ]

-- The sums over the columns of one line.
unfoldable pub cpu_sample : List ℤ → Result Sample
unfolding ◌+ℤ◌
cpu_sample vals = do
  user ← or_raise (get_elem? vals 0) Exn.index_error
  nice ← or_raise (get_elem? vals 1) Exn.index_error
  system ← or_raise (get_elem? vals 2) Exn.index_error
  idle ← or_raise (get_elem? vals 3) Exn.index_error
  let iowait = int_or_zero vals 4
  let irq = int_or_zero vals 5
  let softirq = int_or_zero vals 6
  ok (user +ℤ nice +ℤ system +ℤ idle +ℤ iowait +ℤ irq +ℤ softirq, idle +ℤ iowait)

unfoldable pub cpu_line : Text → Result Sample
unfolding read_all cpu_sample split_words
cpu_line line = do vals ← read_all (tail_words (split_words line)); cpu_sample vals

-- The loop over the lines of `/proc/stat`, up to the first that is about something else.
unfoldable pub read_cpu_lines : List Text → Result (List Sample)
unfolding cpu_line starts_with
read_cpu_lines [] = ok []
read_cpu_lines (line ∷ lines) =
    let rest = read_cpu_lines lines in
    if starts_with line (codes "cpu")
    then (do sample ← cpu_line line; samples ← rest; ok (sample ∷ samples))
    else ok []

unfoldable pub read_cpu_raw : Text → Result (List Sample)
unfolding read_cpu_lines split_lines is_line_break
read_cpu_raw text = read_cpu_lines (split_lines is_line_break text)

module _ {F : Type 0} (fl : Float F) where
  -- The body of the loop over `zip(_prev_cpu, curr)`.
  unfoldable pub usage : Sample → Sample → F
  usage (pt, pi) (ct, ci) =
      let dt = ct -ℤ pt in
      let di = ci -ℤ pi in
      if ltb_ℤ (pos 0) dt
      then fl.mul (fl.sub (fl.of_int (pos 1)) (fl.div_int di dt)) (fl.of_int (pos 100))
      else fl.of_int (pos 0)

  unfoldable pub usages : List Sample → List Sample → List F
  usages (p ∷ prev) (c ∷ curr) = usage p c ∷ usages prev curr
  usages _ _ = []

  -- `[0.0] * max(0, len(curr) - 1)`
  zeros : List Sample → List F
  zeros [] = []
  zeros (_ ∷ curr) = map (λ _. fl.of_int (pos 0)) curr

  abbrev split_total : List F → F × List F
  split_total [] = (fl.of_int (pos 0), [])
  split_total (total ∷ cores) = (total, cores)

  abbrev is_empty : List Sample → Bool
  is_empty [] = true
  is_empty (_ ∷ _) = false

  -- The result, from the samples that stood before. The caller stores `curr` in both cases.
  unfoldable pub cpu_usage : List Sample → List Sample → F × List F
  unfolding zeros
  cpu_usage prev curr =
      if is_empty prev
      then (fl.of_int (pos 0), zeros curr)
      else if length prev == length curr
      then split_total (usages prev curr)
      else (fl.of_int (pos 0), zeros curr)
