-- ===== src/Deployed/Rows.antt =====
-- The rows that the deployed heuristics write.
use ai_m_os.Common.{pos, ◌≡◌, refl, List, [], ◌∷◌, ◌++◌, arith}
use mathlib.Core.Option.{get_or}
use ai_m_os.Database.{Row, scheduler_events}
use ai_m_os.Heuristics.{
  high_cpu_rule, high_mem_rule, high_load_rule, low_cpu_restore_rule, action_text,
}
use ai_m_os.Deployed.Heuristics.{Event}

module _ {F : Type 0} where
  -- The rows of the events of the first rule.
  abbrev pub cpu_rows : List Event → List (Row F)
  cpu_rows [] = []
  cpu_rows (ev ∷ evs) =
      let rest = cpu_rows evs in
      elim (ev.rule) [
        | high_cpu_rule ↦
            scheduler_events ev.pid (action_text ev.action) (get_or ev.old_nice (pos 0))
              (get_or ev.new_nice (pos 0)) ev.reason
            ∷ rest
        | high_mem_rule ↦ rest
        | high_load_rule ↦ rest
        | low_cpu_restore_rule ↦ rest
      ]

  pub cpu_rows-append : (a b : List Event) → cpu_rows (a ++ b) ≡ cpu_rows a ++ cpu_rows b
  cpu_rows-append [] b = refl
  cpu_rows-append (ev ∷ a) b = ground (arith, cpu_rows-append a b)
