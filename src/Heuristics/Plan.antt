-- ===== src/Heuristics/Plan.antt =====
-- The decisions of the four rules, without their effects.

use ai_m_os.Common.{
  ℤ, pos, eqb_ℤ, ltb_ℤ, Bool, none, List, [], ◌∷◌, ◌++◌, Text, codes, if◌then◌else◌, ◌&&◌,
}
use ai_m_os.Float.{Float}
use ai_m_os.Snapshot.{SystemSnapshot}
use ai_m_os.Heuristics.{
  ProcessInfo, Event, Rule, renice_action, kill_suggestion, high_cpu_rule, high_mem_rule,
  high_load_rule, low_cpu_restore_rule, throttled, load_limit, mem_pct, top_rss,
}

-- An event without the outcome of its `renice`.
abbrev pub unapplied : Event → Event
unapplied ev = record ev { applied = none }

-- A change of the nice value of a process.
abbrev pub change : Rule → Text → ProcessInfo → ℤ → Event
change rule reason t new_nice = record {
  rule = rule;
  pid = t.pid;
  name = t.name;
  action = renice_action;
  old_nice = t.nice;
  new_nice = new_nice;
  reason = reason;
  applied = none;
}

abbrev pub throttle_plan : Rule → Text → List ProcessInfo → List Event
throttle_plan rule reason [] = []
throttle_plan rule reason (t ∷ _) =
    if eqb_ℤ (throttled t.nice) t.nice then [] else change rule reason t (throttled t.nice) ∷ []

abbrev pub restore_plan : Text → List ProcessInfo → List Event
restore_plan reason [] = []
restore_plan reason (p ∷ procs) =
    let rest = restore_plan reason procs in
    if ltb_ℤ (pos 0) p.nice then change low_cpu_restore_rule reason p (pos 0) ∷ rest else rest

abbrev pub kill_plan : Text → List ProcessInfo → List Event
kill_plan reason [] = []
kill_plan reason (p ∷ _) =
    record {
      rule = high_mem_rule;
      pid = p.pid;
      name = p.name;
      action = kill_suggestion;
      old_nice = pos 0;
      new_nice = pos 0;
      reason = reason;
      applied = none;
    }
    ∷ []

abbrev pub only_if : Bool → List Event → List Event
only_if b evs = if b then evs else []

module _ {F : Type 0} (fl : Float F) (snap : SystemSnapshot F) where
  abbrev pub cpu_reason : Text
  cpu_reason = codes "CPU " ++ fl.show_1 snap.cpu_total_pct ++ codes "% > 85%"

  abbrev pub mem_reason : Text
  mem_reason = codes "RAM " ++ fl.show_1 (mem_pct fl snap) ++ codes "% > 90%"

  abbrev pub load_reason : Text
  load_reason =
      codes "load_avg "
      ++ fl.show_2 snap.load_avg_1
      ++ codes " > "
      ++ fl.show_1 (load_limit fl snap)

  abbrev pub restore_reason : Text
  restore_reason = codes "CPU " ++ fl.show_1 snap.cpu_total_pct ++ codes "% < 20%, restoring"

  abbrev pub is_cpu_high : Bool
  is_cpu_high = fl.lt (fl.of_int (pos 85)) snap.cpu_total_pct

  abbrev pub is_cpu_low : Bool
  is_cpu_low = fl.lt snap.cpu_total_pct (fl.of_int (pos 20))

  abbrev pub is_mem_high : Bool
  is_mem_high = ltb_ℤ (pos 0) snap.mem_total_kb && fl.lt (fl.of_int (pos 90)) (mem_pct fl snap)

  abbrev pub is_load_high : Bool
  is_load_high = fl.lt (load_limit fl snap) snap.load_avg_1

  -- The decisions on the processes of a scan, the one with the most CPU time first.
  abbrev pub plan : List ProcessInfo → List Event
  plan procs =
      only_if is_cpu_high (throttle_plan high_cpu_rule cpu_reason procs)
      ++ (only_if is_mem_high (kill_plan mem_reason (top_rss procs))
          ++ (only_if is_load_high (throttle_plan high_load_rule load_reason procs)
              ++ only_if is_cpu_low (restore_plan restore_reason procs)))
