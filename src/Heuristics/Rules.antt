-- ===== src/Heuristics/Rules.antt =====
-- `run_heuristics`: four rules over the processes that do not belong to root, the one with the most
-- CPU time first.
use ai_m_os.Common.{
  ℤ, pos, ◌+ℤ◌, ltb_ℤ, eqb_ℤ, min_ℤ, Bool, not, List, [], ◌∷◌, ◌++◌, Text, codes, Option, none,
  some, if◌then◌else◌,
}
use Prim.Native.Nat.{max}
use ai_m_os.Common.Lists.{length, filter}
use ai_m_os.Common.Sort.{sort_desc}
use ai_m_os.Common.Action.{M, ◌>>=◌, ◌>>◌, pure}
use ai_m_os.Float.{Float}
use ai_m_os.Snapshot.{SystemSnapshot}
use ai_m_os.Database.{Database}
use ai_m_os.Logger.{log_scheduler_event}
use ai_m_os.Machine.{Os}
use ai_m_os.KernelIface.{renice_via_kernel}
use ai_m_os.Heuristics.Listing.{ProcessInfo, list_processes}

abbrev pub max_renice : ℤ
max_renice = pos 10

abbrev pub renice_step : ℤ
renice_step = pos 5

-- The values of `"rule"` and of `"action"`.
pub data Rule : Type 0 where
  high_cpu_rule high_mem_rule high_load_rule low_cpu_restore_rule : Rule

pub data RuleAction : Type 0 where
  renice_action kill_suggestion : RuleAction

-- The text that goes into the database.
abbrev pub action_text : RuleAction → Text
action_text renice_action = codes "renice"
action_text kill_suggestion = codes "kill_suggestion"

-- `applied` is a key that two of the rules leave out.
pub record Event : Type 0 where
  pub rule : Rule
  pub pid : ℤ
  pub name : Text
  pub action : RuleAction
  pub old_nice : ℤ
  pub new_nice : ℤ
  pub reason : Text
  pub applied : Option Bool

-- `p.uid not in SYSTEM_UIDS`
abbrev pub is_user : ProcessInfo → Bool
is_user p = not (eqb_ℤ p.uid (pos 0))

unfoldable pub user_procs : List ProcessInfo → List ProcessInfo
unfolding sort_desc
user_procs procs = sort_desc (λ p. p.cpu_time) (filter is_user procs)

-- `min(t.nice + RENICE_STEP, MAX_RENICE)`
unfoldable pub throttled : ℤ → ℤ
unfolding ◌+ℤ◌
throttled nice = min_ℤ (nice +ℤ renice_step) max_renice

unfoldable pub top_rss : List ProcessInfo → List ProcessInfo
unfolding sort_desc
top_rss = sort_desc (λ p. p.vm_rss)

-- Two pieces of code in turn, with what the first and then the second append to `events`.
abbrev pub in_turn : {W Ev : Type 0} → M W (List Ev) → M W (List Ev) → M W (List Ev)
in_turn m k = do first ← m; second ← k; pure (first ++ second)

module _ {F : Type 0} (fl : Float F) where
  -- `num_cores * 1.5`
  unfoldable pub load_limit : SystemSnapshot F → F
  load_limit snap =
      let num_cores = max (length snap.cpu_cores_pct) 1 in
      fl.mul (fl.of_int (pos num_cores)) fl.three_halves

  unfoldable pub mem_pct : SystemSnapshot F → F
  mem_pct snap = fl.mul (fl.div_int snap.mem_used_kb snap.mem_total_kb) (fl.of_int (pos 100))

module _ {W F : Type 0} (os : Os W) (fl : Float F) (db_conn : Option (Database W F)) where
  -- `if db_conn: log_scheduler_event(…)`, with what the event holds
  unfoldable pub report : Event → M W (Unit {0})
  report ev = elim db_conn [
    | none ↦ pure tt
    | some db ↦
        log_scheduler_event db ev.pid (action_text ev.action) ev.old_nice ev.new_nice ev.reason
  ]

  -- `events.append(ev)` and the report.
  unfoldable pub emit : Event → M W (List Event)
  emit ev = do report ev; pure (ev ∷ [])

  -- The body that the first and the third rule share: `t` is the first of `user_procs`.
  unfoldable pub throttle : Rule → Text → ProcessInfo → M W (List Event)
  throttle rule reason t =
      let new_nice = throttled t.nice in
      if eqb_ℤ new_nice t.nice then pure [] else (do
        done ← renice_via_kernel os t.pid new_nice
        emit (record {
          rule = rule;
          pid = t.pid;
          name = t.name;
          action = renice_action;
          old_nice = t.nice;
          new_nice = new_nice;
          reason = reason;
          applied = some done;
        }))

  unfoldable pub high_cpu : SystemSnapshot F → List ProcessInfo → M W (List Event)
  high_cpu snap [] = pure []
  high_cpu snap (t ∷ _) =
      if fl.lt (fl.of_int (pos 85)) snap.cpu_total_pct
      then throttle high_cpu_rule (codes "CPU " ++ fl.show_1 snap.cpu_total_pct ++ codes "% > 85%")
          t
      else pure []

  unfoldable pub high_load : SystemSnapshot F → List ProcessInfo → M W (List Event)
  high_load snap [] = pure []
  high_load snap (t ∷ _) =
      if fl.lt (load_limit fl snap) snap.load_avg_1
      then throttle high_load_rule
          (codes "load_avg "
            ++ fl.show_2 snap.load_avg_1
            ++ codes " > "
            ++ fl.show_1 (load_limit fl snap))
          t
      else pure []

  unfoldable pub suggest_kill : SystemSnapshot F → List ProcessInfo → M W (List Event)
  suggest_kill snap [] = pure []
  suggest_kill snap (p ∷ _) = emit (record {
    rule = high_mem_rule;
    pid = p.pid;
    name = p.name;
    action = kill_suggestion;
    old_nice = pos 0;
    new_nice = pos 0;
    reason = codes "RAM " ++ fl.show_1 (mem_pct fl snap) ++ codes "% > 90%";
    applied = none;
  })

  unfoldable pub high_mem : SystemSnapshot F → List ProcessInfo → M W (List Event)
  high_mem snap procs =
      if ltb_ℤ (pos 0) snap.mem_total_kb
      then if fl.lt (fl.of_int (pos 90)) (mem_pct fl snap)
        then suggest_kill snap (top_rss procs)
        else pure []
      else pure []

  -- The body of the `for` of the fourth rule, for a process whose nice value is positive.
  unfoldable pub restore : SystemSnapshot F → ProcessInfo → M W (List Event)
  restore snap p = do
    renice_via_kernel os p.pid (pos 0)
    emit (record {
      rule = low_cpu_restore_rule;
      pid = p.pid;
      name = p.name;
      action = renice_action;
      old_nice = p.nice;
      new_nice = pos 0;
      reason = codes "CPU " ++ fl.show_1 snap.cpu_total_pct ++ codes "% < 20%, restoring";
      applied = none;
    })

  unfoldable pub restore_all : SystemSnapshot F → List ProcessInfo → M W (List Event)
  restore_all snap [] = pure []
  restore_all snap (p ∷ procs) =
      let rest = restore_all snap procs in
      if ltb_ℤ (pos 0) p.nice then in_turn (restore snap p) rest else rest

  unfoldable pub low_cpu_restore : SystemSnapshot F → List ProcessInfo → M W (List Event)
  low_cpu_restore snap procs =
      if fl.lt snap.cpu_total_pct (fl.of_int (pos 20)) then restore_all snap procs else pure []

  -- The rules in the order of the source, on the processes that a scan has found.
  unfoldable pub apply_rules : SystemSnapshot F → List ProcessInfo → M W (List Event)
  apply_rules snap procs =
      in_turn (high_cpu snap procs) (
        in_turn (high_mem snap procs) (in_turn (high_load snap procs) (low_cpu_restore snap procs)))

  unfoldable pub run_heuristics : SystemSnapshot F → M W (List Event)
  run_heuristics snap = do procs ← list_processes os; apply_rules snap (user_procs procs)
