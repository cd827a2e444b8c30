-- ===== src/Heuristics/Lifts.antt =====
-- The scan and `renice` beside a further piece of state.
use ai_m_os.Common.{ℤ, List, [], ◌∷◌, ◌++◌, Text}
use ai_m_os.Common.Str.{is_digits}
use ai_m_os.Common.Lifts.{Lifts, Lifts-if, Lifts-bind, Lifts-pure, lifts_rules}
use ai_m_os.Machine.{Os}
use ai_m_os.Machine.Beside.{beside_os}
use ai_m_os.KernelIface.{renice_fallback, renice_via_kernel}
use ai_m_os.Heuristics.{read_proc, list_entry, list_entries, list_processes}

module _ {W : Type 0} (S : Type 0) (os : Os W) where
  read_proc-Lifts : (pid : ℤ) → Lifts S (read_proc os pid) (read_proc (beside_os S os) pid)
  unfolding read_proc
  read_proc-Lifts pid = search lifts_rules

  list_entry-Lifts : (name : Text) → Lifts S (list_entry os name) (list_entry (beside_os S os) name)
  unfolding list_entry
  list_entry-Lifts name = search (lifts_rules, read_proc-Lifts)

  list_entries-Lifts :
      (names : List Text) → Lifts S (list_entries os names) (list_entries (beside_os S os) names)
  unfolding list_entries
  list_entries-Lifts [] = Lifts-pure []
  list_entries-Lifts (name ∷ names) =
      let rest = list_entries-Lifts names in
      Lifts-if (is_digits name) _ (list_entries os names) _ (list_entries (beside_os S os) names)
        (Lifts-bind (list_entry os name) (list_entry (beside_os S os) name) _ _
          (list_entry-Lifts name)
          λ found.
            Lifts-bind (list_entries os names) (list_entries (beside_os S os) names) _ _ rest
              λ procs. Lifts-pure (found ++ procs))
        rest

  pub list_processes-Lifts : Lifts S (list_processes os) (list_processes (beside_os S os))
  unfolding list_processes
  list_processes-Lifts = search (lifts_rules, list_entries-Lifts)

  renice_fallback-Lifts :
      (pid n : ℤ) → Lifts S (renice_fallback os pid n) (renice_fallback (beside_os S os) pid n)
  unfolding renice_fallback
  renice_fallback-Lifts pid n = search lifts_rules

  pub renice_via_kernel-Lifts :
      (pid n : ℤ) → Lifts S (renice_via_kernel os pid n) (renice_via_kernel (beside_os S os) pid n)
  unfolding renice_via_kernel
  renice_via_kernel-Lifts pid n = search (lifts_rules, renice_fallback-Lifts)
