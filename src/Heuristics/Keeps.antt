-- ===== src/Heuristics/Keeps.antt =====
-- What a scan and a call of `run_heuristics` keep of the world.
use ai_m_os.Common.{ℤ, pos, ltb_ℤ, List, [], ◌∷◌, ◌++◌, Option, none, some, Text}
use ai_m_os.Common.Str.{is_digits}
use ai_m_os.Common.Keeps.{Keeps, Keeps-if, Keeps-bind, Keeps-pure, keeps_rules}
use ai_m_os.Common.Action.{M}
use ai_m_os.Machine.{Os}
use ai_m_os.Machine.Keeps.{IsReading, IsWriting}
use ai_m_os.Float.{Float}
use ai_m_os.Snapshot.{SystemSnapshot}
use ai_m_os.Database.{Database}
use ai_m_os.KernelIface.{renice_fallback, renice_via_kernel}
use ai_m_os.Database.Keeps.{AllStoring}
use ai_m_os.Logger.Keeps.{log_scheduler_event-Keeps}
use ai_m_os.Heuristics.{
  ProcessInfo, Event, Rule, in_turn, read_proc, list_entry, list_entries, list_processes, report,
  emit, throttle, high_cpu, high_load, suggest_kill, high_mem, restore, restore_all,
  low_cpu_restore, apply_rules, run_heuristics,
}

-- A report is a write to the database, or nothing.
report_by :
    {W F : Type 0} {P : W → Type 0} (os : Os W) (fl : Float F) (db_conn : Option (Database W F))
    → AllStoring P db_conn
    → (ev : Event) → Keeps P (report os fl db_conn ev)
unfolding report
report_by os fl none stores ev = Keeps-pure tt
report_by os fl (some db) stores ev =
    log_scheduler_event-Keeps db stores ev.pid _ ev.old_nice ev.new_nice ev.reason

module _ {W : Type 0} {P : W → Type 0} (os : Os W) (reads : IsReading P os) where
  read_proc-Keeps : (pid : ℤ) → Keeps P (read_proc os pid)
  unfolding read_proc
  read_proc-Keeps pid = search (keeps_rules, reads.read_text_keeps)

  list_entry-Keeps : (name : Text) → Keeps P (list_entry os name)
  unfolding list_entry
  list_entry-Keeps name = search (keeps_rules, read_proc-Keeps)

  list_entries-Keeps : (names : List Text) → Keeps P (list_entries os names)
  unfolding list_entries
  list_entries-Keeps [] = search keeps_rules
  list_entries-Keeps (name ∷ names) =
      let rest = list_entries-Keeps names in
      Keeps-if (is_digits name) _ (list_entries os names)
        (Keeps-bind (list_entry os name) _ (list_entry-Keeps name)
          λ found. Keeps-bind (list_entries os names) _ rest λ procs. Keeps-pure (found ++ procs))
        rest

  pub list_processes-Keeps : Keeps P (list_processes os)
  unfolding list_processes
  list_processes-Keeps = search (keeps_rules, reads.scandir_keeps, list_entries-Keeps)

  module _ (writes : IsWriting P os) where
    renice_fallback-Keeps : (pid n : ℤ) → Keeps P (renice_fallback os pid n)
    unfolding renice_fallback
    renice_fallback-Keeps pid n =
        search (keeps_rules, reads.getpriority_keeps, writes.setpriority_keeps)

    pub renice_via_kernel-Keeps : (pid n : ℤ) → Keeps P (renice_via_kernel os pid n)
    unfolding renice_via_kernel
    renice_via_kernel-Keeps pid n =
        search
          (keeps_rules, reads.path_exists_keeps, writes.write_line_keeps, renice_fallback-Keeps)

    module _ {F : Type 0} (fl : Float F) (db_conn : Option (Database W F))
        (stores : AllStoring P db_conn) where
      report-Keeps : (ev : Event) → Keeps P (report os fl db_conn ev)
      report-Keeps = report_by os fl db_conn stores

      in_turn-Keeps : (m k : M W (List Event)) → Keeps P m → Keeps P k → Keeps P (in_turn m k)
      in_turn-Keeps m k km kk =
          Keeps-bind m _ km λ first. Keeps-bind k _ kk λ second. Keeps-pure (first ++ second)

      emit-Keeps : (ev : Event) → Keeps P (emit os fl db_conn ev)
      unfolding emit
      emit-Keeps ev = search (keeps_rules, report-Keeps)

      throttle-Keeps :
          (rule : Rule) (reason : Text) (t : ProcessInfo)
          → Keeps P (throttle os fl db_conn rule reason t)
      unfolding throttle
      throttle-Keeps rule reason t = search (keeps_rules, renice_via_kernel-Keeps, emit-Keeps)

      high_cpu-Keeps :
          (snap : SystemSnapshot F) (procs : List ProcessInfo)
          → Keeps P (high_cpu os fl db_conn snap procs)
      unfolding high_cpu
      high_cpu-Keeps snap [] = search keeps_rules
      high_cpu-Keeps snap (t ∷ procs) = search (keeps_rules, throttle-Keeps)

      high_load-Keeps :
          (snap : SystemSnapshot F) (procs : List ProcessInfo)
          → Keeps P (high_load os fl db_conn snap procs)
      unfolding high_load
      high_load-Keeps snap [] = search keeps_rules
      high_load-Keeps snap (t ∷ procs) = search (keeps_rules, throttle-Keeps)

      suggest_kill-Keeps :
          (snap : SystemSnapshot F) (procs : List ProcessInfo)
          → Keeps P (suggest_kill os fl db_conn snap procs)
      unfolding suggest_kill
      suggest_kill-Keeps snap [] = search keeps_rules
      suggest_kill-Keeps snap (t ∷ procs) = search (keeps_rules, emit-Keeps)

      high_mem-Keeps :
          (snap : SystemSnapshot F) (procs : List ProcessInfo)
          → Keeps P (high_mem os fl db_conn snap procs)
      unfolding high_mem
      high_mem-Keeps snap procs = search (keeps_rules, suggest_kill-Keeps)

      restore-Keeps :
          (snap : SystemSnapshot F) (p : ProcessInfo) → Keeps P (restore os fl db_conn snap p)
      unfolding restore
      restore-Keeps snap p = search (keeps_rules, renice_via_kernel-Keeps, emit-Keeps)

      restore_all-Keeps :
          (snap : SystemSnapshot F) (procs : List ProcessInfo)
          → Keeps P (restore_all os fl db_conn snap procs)
      unfolding restore_all
      restore_all-Keeps snap [] = search keeps_rules
      restore_all-Keeps snap (p ∷ procs) =
          let rest = restore_all-Keeps snap procs in
          Keeps-if (ltb_ℤ (pos 0) p.nice) _ (restore_all os fl db_conn snap procs)
            (in_turn-Keeps (restore os fl db_conn snap p) (restore_all os fl db_conn snap procs)
              (restore-Keeps snap p) rest)
            rest

      low_cpu_restore-Keeps :
          (snap : SystemSnapshot F) (procs : List ProcessInfo)
          → Keeps P (low_cpu_restore os fl db_conn snap procs)
      unfolding low_cpu_restore
      low_cpu_restore-Keeps snap procs = search (keeps_rules, restore_all-Keeps)

      apply_rules-Keeps :
          (snap : SystemSnapshot F) (procs : List ProcessInfo)
          → Keeps P (apply_rules os fl db_conn snap procs)
      unfolding apply_rules
      apply_rules-Keeps snap procs =
          search
            (in_turn-Keeps, high_cpu-Keeps, high_mem-Keeps, high_load-Keeps, low_cpu_restore-Keeps)

      -- A property of the world that looking, setting a priority and reporting keep is kept by a call.
      pub run_heuristics-Keeps :
          (snap : SystemSnapshot F) → Keeps P (run_heuristics os fl db_conn snap)
      unfolding run_heuristics
      run_heuristics-Keeps snap = search (keeps_rules, list_processes-Keeps, apply_rules-Keeps)
