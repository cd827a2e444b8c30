-- ===== src/Deployed/Heuristics.antt =====
-- iso-profile/airootfs/opt/aimos/ai-daemon/scheduler/heuristics.py. The scan, the choice of the
-- processes and the thresholds have the text of ai-daemon/scheduler/heuristics.py.
use ai_m_os.Common.{
  ℤ, pos, ltb_ℤ, eqb_ℤ, Bool, List, [], ◌∷◌, ◌++◌, Text, codes, Option, none, some, if◌then◌else◌,
}
use ai_m_os.Common.Action.{M, ◌>>=◌, ◌>>◌, pure}
use ai_m_os.Float.{Float}
use ai_m_os.Snapshot.{SystemSnapshot}
use ai_m_os.Database.{Database}
use ai_m_os.Logger.{log_scheduler_event}
use ai_m_os.Machine.{Os}
use ai_m_os.KernelIface.{renice_via_kernel}
use ai_m_os.Heuristics.{
  ProcessInfo, Rule, RuleAction, high_cpu_rule, high_mem_rule, high_load_rule, low_cpu_restore_rule,
  renice_action, kill_suggestion, in_turn, user_procs, throttled, top_rss, load_limit, mem_pct,
  list_processes,
}

-- `old_nice`, `new_nice` and `applied` are keys that some of the rules leave out.
pub record Event : Type 0 where
  pub rule : Rule
  pub pid : ℤ
  pub name : Text
  pub action : RuleAction
  pub old_nice : Option ℤ
  pub new_nice : Option ℤ
  pub reason : Text
  pub applied : Option Bool

module _ {W F : Type 0} (os : Os W) (fl : Float F) (db_conn : Option (Database W F)) where
  -- `if db_conn: log_scheduler_event(…)`
  unfoldable pub report : ℤ → ℤ → ℤ → Text → M W (Unit {0})
  report pid old_nice new_nice reason = elim db_conn [
    | none ↦ pure tt
    | some db ↦ log_scheduler_event db pid (codes "renice") old_nice new_nice reason
  ]

  unfoldable pub high_cpu : SystemSnapshot F → List ProcessInfo → M W (List Event)
  high_cpu snap [] = pure []
  high_cpu snap (t ∷ _) =
      let new_nice = throttled t.nice in
      let reason = codes "CPU " ++ fl.show_1 snap.cpu_total_pct ++ codes "% > 85%" in
      if fl.lt (fl.of_int (pos 85)) snap.cpu_total_pct
      then if eqb_ℤ new_nice t.nice then pure [] else (do
        done ← renice_via_kernel os t.pid new_nice
        report t.pid t.nice new_nice reason
        pure (
            record {
              rule = high_cpu_rule;
              pid = t.pid;
              name = t.name;
              action = renice_action;
              old_nice = some t.nice;
              new_nice = some new_nice;
              reason = reason;
              applied = some done;
            }
            ∷ []))
      else pure []

  unfoldable pub suggest_kill : SystemSnapshot F → List ProcessInfo → M W (List Event)
  suggest_kill snap [] = pure []
  suggest_kill snap (p ∷ _) = pure (
      record {
        rule = high_mem_rule;
        pid = p.pid;
        name = p.name;
        action = kill_suggestion;
        old_nice = none;
        new_nice = none;
        reason = codes "RAM " ++ fl.show_1 (mem_pct fl snap) ++ codes "% > 90%";
        applied = none;
      }
      ∷ [])

  unfoldable pub high_mem : SystemSnapshot F → List ProcessInfo → M W (List Event)
  high_mem snap procs =
      if ltb_ℤ (pos 0) snap.mem_total_kb
      then if fl.lt (fl.of_int (pos 90)) (mem_pct fl snap)
        then suggest_kill snap (top_rss procs)
        else pure []
      else pure []

  unfoldable pub high_load : SystemSnapshot F → List ProcessInfo → M W (List Event)
  high_load snap [] = pure []
  high_load snap (t ∷ _) =
      let new_nice = throttled t.nice in
      if fl.lt (load_limit fl snap) snap.load_avg_1
      then if eqb_ℤ new_nice t.nice then pure [] else (do
        done ← renice_via_kernel os t.pid new_nice
        pure (
            record {
              rule = high_load_rule;
              pid = t.pid;
              name = t.name;
              action = renice_action;
              old_nice = some t.nice;
              new_nice = some new_nice;
              reason =
                  codes "load_avg "
                  ++ fl.show_2 snap.load_avg_1
                  ++ codes " > "
                  ++ fl.show_1 (load_limit fl snap);
              applied = some done;
            }
            ∷ []))
      else pure []

  -- The body of the `for` of the fourth rule, for a process whose nice value is positive.
  unfoldable pub restore : SystemSnapshot F → ProcessInfo → M W (List Event)
  restore snap p = do
    renice_via_kernel os p.pid (pos 0)
    pure (
        record {
          rule = low_cpu_restore_rule;
          pid = p.pid;
          name = p.name;
          action = renice_action;
          old_nice = some p.nice;
          new_nice = some (pos 0);
          reason = codes "CPU " ++ fl.show_1 snap.cpu_total_pct ++ codes "% < 20%, restoring";
          applied = none;
        }
        ∷ [])

  unfoldable pub restore_all : SystemSnapshot F → List ProcessInfo → M W (List Event)
  restore_all snap [] = pure []
  restore_all snap (p ∷ procs) =
      let rest = restore_all snap procs in
      if ltb_ℤ (pos 0) p.nice then in_turn (restore snap p) rest else rest

  unfoldable pub low_cpu_restore : SystemSnapshot F → List ProcessInfo → M W (List Event)
  low_cpu_restore snap procs =
      if fl.lt snap.cpu_total_pct (fl.of_int (pos 20)) then restore_all snap procs else pure []

  unfoldable pub apply_rules : SystemSnapshot F → List ProcessInfo → M W (List Event)
  apply_rules snap procs =
      in_turn (high_cpu snap procs) (
        in_turn (high_mem snap procs) (in_turn (high_load snap procs) (low_cpu_restore snap procs)))

  unfoldable pub run_heuristics : SystemSnapshot F → M W (List Event)
  run_heuristics snap = do procs ← list_processes os; apply_rules snap (user_procs procs)
