-- ===== src/Examples/Rules.antt =====
-- The heuristics on the example machine.
use mathlib.Core.List.{Perm}
use ai_m_os.Common.{
  ℕ, ℤ, raised, Exn, pos, ◌≡◌, refl, false, true, none, [], ◌∷◌, arith, ok, ◌⊎◌, some, List, ◌≤ℤ◌,
  ◌<ℤ◌, ◌+ℤ◌, codes,
}
use ai_m_os.Common.Str.{text_eq}
use ai_m_os.Common.Lists.{All, any}
use ai_m_os.Common.Number.{show_ℕ, show_ℤ}
use ai_m_os.Common.Sort.{IsFalling, with_key}
use ai_m_os.Host.{Host, host_nice, host_os, write_module}
use ai_m_os.Host.Laws.{host-IsLawful}
use ai_m_os.Heuristics.{
  ProcessInfo, Event, user_procs, run_heuristics, throttled, high_cpu_rule, high_mem_rule,
  high_load_rule, renice_action, kill_suggestion, apply_rules, list_processes, high_cpu, high_mem,
  high_load, low_cpu_restore, throttle, emit, report, suggest_kill, top_rss, load_limit, mem_pct,
}
use ai_m_os.KernelIface.{renice_via_kernel, renice_fallback}
use ai_m_os.KernelModule.{
  scheduler_write, sscanf_two, scan_int, scan_number, scan_digits, skip_spaces, renice_task,
}
use ai_m_os.Machine.Laws.{renice_line}
use ai_m_os.Database.{Database}
use ai_m_os.Database.Laws.{IsQuiet}
use ai_m_os.Heuristics.Effects.{IsSound}
use ai_m_os.Heuristics.Decisions.{
  throttled_bounds, Finished, run_heuristics-Finished, run_heuristics_untouched, run_heuristics_top,
}
use ai_m_os.Heuristics.Order.{Users, user_procs_lem, is_restore, run_heuristics_exclusive}
use ai_m_os.Examples.Fixed.{fixed, fixed-IsRounding}
use ai_m_os.Examples.Laptop.{laptop, procs, make, edit, scan, busy, idle}

pub procs-IsSound : All IsSound procs
procs-IsSound = (
  ((omega arith, omega arith), (omega arith, omega arith)),
  (
    ((omega arith, omega arith), (omega arith, omega arith)),
    (((omega arith, omega arith), (omega arith, omega arith)), tt),
  ),
)

-- A database on another machine, whose inserts fail: every report is rolled back.
abbrev pub remote_db : Database Host ℕ
remote_db = record {
  cursor = λ h. (ok tt, h);
  execute = λ row h. (raised Exn.db_error, h);
  execute_values = λ rows h. (raised Exn.db_error, h);
  execute_script = λ sql h. (ok tt, h);
  commit = λ h. (ok tt, h);
  rollback = λ h. (ok tt, h);
  close = λ h. (ok tt, h);
}

pub remote_db-IsQuiet : IsQuiet host_nice remote_db
remote_db-IsQuiet = record {
  cursor_lem = λ w q. refl;
  execute_lem = λ row w. (refl, λ q. refl);
  commit_lem = λ w q. refl;
  rollback_lem = λ w q. refl;
}

run_heuristics-Finished_example :
    Finished host_nice host_os fixed
      (some remote_db)
      busy
      laptop
      procs
      (run_heuristics host_os fixed (some remote_db) busy laptop)
run_heuristics-Finished_example =
    run_heuristics-Finished host_nice host_os fixed (some remote_db) busy laptop procs host-IsLawful
      remote_db-IsQuiet laptop scan procs-IsSound

run_heuristics_untouched_example :
    host_nice (run_heuristics host_os fixed none idle laptop).1 (pos 1) ≡ host_nice laptop (pos 1)
unfolding user_procs
run_heuristics_untouched_example =
    run_heuristics_untouched host_nice host_os fixed none idle laptop procs host-IsLawful tt laptop
      (pos 1) scan procs-IsSound refl

top : user_procs procs ≡ edit ∷ make ∷ []
unfolding user_procs
top = refl

run_heuristics_top_example :
    (host_nice (run_heuristics host_os fixed none busy laptop).1 (pos 800)
      ≡ host_nice laptop (pos 800))
    ⊎ ((pos 800 ≡ pos 800)
        × (host_nice (run_heuristics host_os fixed none busy laptop).1 (pos 800)
            ≡ some (throttled (pos 0))))
run_heuristics_top_example =
    run_heuristics_top host_nice host_os fixed none busy laptop procs host-IsLawful tt laptop
      (pos 800) edit (make ∷ []) scan procs-IsSound top refl

user_procs_lem_example :
    (users : List ProcessInfo) × Users procs users
    × Perm (user_procs procs) users
    × IsFalling (λ p. p.cpu_time) (user_procs procs)
    × ((t : ℤ)
        → with_key (λ p. p.cpu_time) t (user_procs procs) ≡ with_key (λ p. p.cpu_time) t users)
user_procs_lem_example = user_procs_lem procs

throttled_bounds_example :
    (pos 15 ≤ℤ pos 10
      → (pos 15 ≤ℤ throttled (pos 15))
        × (throttled (pos 15) ≤ℤ pos 10)
        × (throttled (pos 15) ≤ℤ pos 15 +ℤ pos 5))
    × (pos 10 <ℤ pos 15 → (throttled (pos 15) ≡ pos 10) × (throttled (pos 15) <ℤ pos 15))
throttled_bounds_example = throttled_bounds (pos 15)

-- Both throttling rules fire on the same process, which has its nice value of the scan in both.
abbrev busy_events : List Event
busy_events =
    record {
      rule = high_cpu_rule;
      pid = pos 800;
      name = codes "edit";
      action = renice_action;
      old_nice = pos 0;
      new_nice = pos 5;
      reason = codes "CPU 96% > 85%";
      applied = some true;
    }
    ∷ record {
      rule = high_mem_rule;
      pid = pos 800;
      name = codes "edit";
      action = kill_suggestion;
      old_nice = pos 0;
      new_nice = pos 0;
      reason = codes "RAM 93% > 90%";
      applied = none;
    }
    ∷ record {
      rule = high_load_rule;
      pid = pos 800;
      name = codes "edit";
      action = renice_action;
      old_nice = pos 0;
      new_nice = pos 5;
      reason = codes "load_avg 2 > 1";
      applied = some true;
    }
    ∷ []

busy_run :
    run_heuristics host_os fixed none busy laptop
    ≡ (ok busy_events, (run_heuristics host_os fixed none busy laptop).1)
unfolding run_heuristics apply_rules list_processes user_procs high_cpu high_mem high_load
    low_cpu_restore throttle throttled emit report suggest_kill top_rss load_limit mem_pct
    renice_via_kernel renice_fallback write_module scheduler_write sscanf_two scan_int scan_number
    scan_digits skip_spaces renice_line renice_task show_ℤ show_ℕ text_eq
busy_run = refl

run_heuristics_exclusive_example : any is_restore busy_events ≡ false
run_heuristics_exclusive_example =
    run_heuristics_exclusive fixed fixed-IsRounding busy host_os none laptop
      (run_heuristics host_os fixed none busy laptop).1 busy_events busy_run refl
