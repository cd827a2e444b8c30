-- ===== src/Heuristics/Listing.antt =====
-- `ProcessInfo`, `list_processes` and `_read_proc`.
use ai_m_os.Common.{
  ℤ, pos, ◌+ℤ◌, Bool, true, false, List, [], ◌∷◌, ◌++◌, Text, codes, Exn, if◌then◌else◌,
}
use ai_m_os.Common.Str.{split_lines, is_newline, is_digits}
use ai_m_os.Common.Number.{show_ℤ, read_ℤ}
use ai_m_os.Common.Outcome.{or_raise}
use ai_m_os.Common.Action.{M, ◌>>=◌, pure, from_result, try_except}
use ai_m_os.Machine.{Os}
use ai_m_os.Heuristics.Parse.{parse_stat, scan_status}

pub record ProcessInfo : Type 0 where
  pub pid : ℤ
  pub name : Text
  pub uid : ℤ
  pub cpu_time : ℤ
  pub nice : ℤ
  pub vm_rss : ℤ

-- the three classes that `list_processes` passes over
abbrev is_gone : Exn → Bool
is_gone Exn.file_not_found = true
is_gone Exn.process_lookup = true
is_gone Exn.value_error = true
is_gone _ = false

module _ {W : Type 0} (os : Os W) where
  unfoldable pub read_proc : ℤ → M W ProcessInfo
  unfolding parse_stat scan_status show_ℤ split_lines ◌+ℤ◌
  read_proc pid = do
    text ← os.read_text (codes "/proc/" ++ show_ℤ pid ++ codes "/stat")
    (name, utime, stime, nice_val) ← from_result (parse_stat text)
    status ← os.read_text (codes "/proc/" ++ show_ℤ pid ++ codes "/status")
    (uid, vm_rss) ← from_result (scan_status (split_lines is_newline status) (pos 65534, pos 0))
    let cpu_time = utime +ℤ stime
    pure (record {
      pid = pid;
      name = name;
      uid = uid;
      cpu_time = cpu_time;
      nice = nice_val;
      vm_rss = vm_rss;
    })

  -- One entry of `/proc` that is a number: its process, or nothing if that is gone.
  unfoldable pub list_entry : Text → M W (List ProcessInfo)
  unfolding read_proc read_ℤ
  list_entry name = do
    pid ← from_result (or_raise (read_ℤ name) Exn.value_error)
    try_except is_gone (do p ← read_proc pid; pure (p ∷ [])) (λ _. pure [])

  unfoldable pub list_entries : List Text → M W (List ProcessInfo)
  unfolding list_entry is_digits
  list_entries [] = pure []
  list_entries (name ∷ names) =
      let rest = list_entries names in
      if is_digits name
      then (do found ← list_entry name; procs ← rest; pure (found ++ procs))
      else rest

  unfoldable pub list_processes : M W (List ProcessInfo)
  unfolding list_entries
  list_processes = do names ← os.scandir (codes "/proc"); list_entries names
