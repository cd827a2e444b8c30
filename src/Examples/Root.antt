-- ===== src/Examples/Root.antt =====
-- The rules on a machine whose caller may set every priority.
use ai_m_os.Common.{ℤ, ◌≡◌, ◌≢◌, refl, ok, raised, Exn, none, some, Result, arith, inl, inr}
use ai_m_os.Machine.{Os}
use ai_m_os.Machine.Laws.{clamp_nice, IsLawful, Sets}
use ai_m_os.KernelModule.{no_pid, no_task, task, set_user_nice}
use ai_m_os.Host.{Host, host_nice, host_os}
use ai_m_os.Host.Laws.{host-IsLawful, Slot-cases, Sets-task}
use ai_m_os.Common.Str.{text_eq}
use ai_m_os.Heuristics.{
  user_procs, run_heuristics, list_processes, list_entries, list_entry, read_proc,
}
use ai_m_os.Heuristics.Plan.{plan}
use ai_m_os.Heuristics.Enacts.{Enacts, run_heuristics-Enacts}
use ai_m_os.Examples.Fixed.{fixed}
use ai_m_os.Examples.Laptop.{laptop, procs, busy}
use ai_m_os.Examples.Rules.{procs-IsSound, remote_db, remote_db-IsQuiet}

unfoldable root_setpriority : ℤ → ℤ → Host → Result (Unit {0}) × Host
root_setpriority pid n h = elim (h.tasks.slot pid) [
  | no_pid ↦ (raised Exn.process_lookup, h)
  | no_task ↦ (raised Exn.process_lookup, h)
  | task m ↦ (ok tt, record h { tasks = set_user_nice pid (clamp_nice n) h.tasks })
]

abbrev root_os : Os Host
root_os = record host_os { setpriority = root_setpriority }

permits :
    (pid n : ℤ) (h : Host)
    → host_nice h pid ≢ none
    → (h' : Host) × (root_setpriority pid n h ≡ (ok tt, h'))
      × Sets host_nice h pid (clamp_nice n) h'
unfolding host_nice root_setpriority
permits pid n h live = elim (Slot-cases (h.tasks.slot pid)) [
  | inl e ↦ absurd (live (rw (e, host_nice)))
  | inr (inl e) ↦ absurd (live (rw (e, host_nice)))
  | inr (inr (m, e)) ↦ (
    record h { tasks = set_user_nice pid (clamp_nice n) h.tasks },
    rw (e, root_setpriority) refl,
    Sets-task pid (clamp_nice n) h,
  )
]

root-IsLawful : IsLawful host_nice root_os
root-IsLawful = record {
  exists_lem = host-IsLawful.exists_lem;
  getpriority_live = host-IsLawful.getpriority_live;
  getpriority_dead = host-IsLawful.getpriority_dead;
  setpriority_live = λ pid n h live. inl (permits pid n h live);
  write_line = host-IsLawful.write_line;
}

root_scan : list_processes root_os laptop ≡ (ok procs, laptop)
unfolding list_processes list_entries list_entry read_proc text_eq
root_scan = refl

run_heuristics-Enacts_example :
    Enacts host_nice
      (plan fixed busy (user_procs procs))
      laptop
      (run_heuristics root_os fixed (some remote_db) busy laptop)
unfolding user_procs host_nice
run_heuristics-Enacts_example =
    run_heuristics-Enacts host_nice root_os fixed (some remote_db) root-IsLawful remote_db-IsQuiet
      (λ pid n h live. ((permits pid n h live).0, (permits pid n h live).1)) busy laptop laptop
      procs root_scan procs-IsSound (λ e. ground (arith, e), (λ e. ground (arith, e), tt))
