-- ===== src/Metrics/Meminfo.antt =====
-- `read_meminfo` and `read_load_avg` on the texts that they read.
use ai_m_os.Common.{ℤ, pos, ◌-ℤ◌, List, [], ◌∷◌, Text, codes, Exn, Result, ok, if◌then◌else◌}
use ai_m_os.Common.Lists.{get_elem?}
use ai_m_os.Common.Str.{split_words, split_on, split_lines, is_line_break, strip, text_eq}
use ai_m_os.Common.Number.{read_ℤ}
use ai_m_os.Common.Outcome.{◌>>=◌, or_raise}
use ai_m_os.Float.{Float}

-- The dict `info`, in insertion order.
abbrev pub Info : Type 0
Info = List (Text × ℤ)

-- `info[k] = v`
unfoldable pub insert : Text → ℤ → Info → Info
unfolding text_eq
insert k v [] = (k, v) ∷ []
insert k v ((j, u) ∷ info) = if text_eq j k then (j, v) ∷ info else (j, u) ∷ insert k v info

-- `info.get(k, 0)`
unfoldable pub get_or_zero : Text → Info → ℤ
unfolding text_eq
get_or_zero k [] = pos 0
get_or_zero k ((j, u) ∷ info) = if text_eq j k then u else get_or_zero k info

-- `line.split(":")` has two parts, or the line is passed over.
meminfo_parts : List Text → Info → Result Info
unfolding strip split_words read_ℤ insert
meminfo_parts (key ∷ value ∷ []) info = do
  word ← or_raise (get_elem? (split_words (strip value)) 0) Exn.index_error
  n ← or_raise (read_ℤ word) Exn.value_error
  ok (insert (strip key) n info)
meminfo_parts _ info = ok info

unfoldable pub scan_meminfo : List Text → Info → Result Info
unfolding meminfo_parts split_on
scan_meminfo [] info = ok info
scan_meminfo (line ∷ lines) info = do
  info' ← meminfo_parts (split_on b':' line) info
  scan_meminfo lines info'

-- total, used, swap total and swap used, in kilobytes
unfoldable pub parse_meminfo : Text → Result (ℤ × ℤ × ℤ × ℤ)
unfolding scan_meminfo split_lines is_line_break get_or_zero ◌-ℤ◌
parse_meminfo text = do
  info ← scan_meminfo (split_lines is_line_break text) []
  let total = get_or_zero (codes "MemTotal") info
  let available = get_or_zero (codes "MemAvailable") info
  let swap_tot = get_or_zero (codes "SwapTotal") info
  let swap_free = get_or_zero (codes "SwapFree") info
  ok (total, total -ℤ available, swap_tot, swap_tot -ℤ swap_free)

-- `float(text.split()[0])`
unfoldable pub parse_load_avg : {F : Type 0} → Float F → Text → Result F
unfolding split_words
parse_load_avg fl text = do
  word ← or_raise (get_elem? (split_words text) 0) Exn.index_error
  or_raise (fl.parse word) Exn.value_error
