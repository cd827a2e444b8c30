-- ===== src/Deployed/Recorded.antt =====
-- The deployed heuristics with a database that carries out every call.
use ai_m_os.Common.{refl, sym, subst, none, some, List, ok, raised, Result}
use ai_m_os.Float.{Float}
use ai_m_os.Snapshot.{SystemSnapshot}
use ai_m_os.Database.{Row}
use ai_m_os.Database.Recorder.{Store, saved, recorder}
use ai_m_os.Machine.{Os}
use ai_m_os.Heuristics.{ProcessInfo, in_turn, user_procs, list_processes}
use ai_m_os.Heuristics.Lifts.{list_processes-Lifts}
use ai_m_os.Heuristics.Audit.{in_turn-Audited}
use ai_m_os.Deployed.Heuristics.{
  Event, high_cpu, high_mem, high_load, low_cpu_restore, apply_rules, run_heuristics,
}
use ai_m_os.Deployed.RuleRows
use ai_m_os.Deployed.Rows.{cpu_rows, cpu_rows-append}

module _ {W F : Type 0} (os : Os W) (fl : Float F) (snap : SystemSnapshot F) where
  abbrev beside : Os (W × Store F)
  beside = RuleRows.beside os fl snap

  abbrev Recorded :
      List (Row F) → Result (List Event) × W → Result (List Event) × (W × Store F) → Type 0
  Recorded = RuleRows.Recorded os fl snap

  apply_rules-Recorded :
      (procs : List ProcessInfo) (rows : List (Row F)) (w : W)
      → Recorded rows
          (apply_rules os fl none snap procs w)
          (apply_rules beside fl (some recorder) snap procs (w, saved rows))
  unfolding apply_rules
  apply_rules-Recorded procs rows w =
      let turn = in_turn-Audited cpu_rows cpu_rows-append in
      let cpu = high_cpu os fl none snap procs in
      let cpu' = high_cpu beside fl (some recorder) snap procs in
      let mem = high_mem os fl none snap procs in
      let mem' = high_mem beside fl (some recorder) snap procs in
      let load = high_load os fl none snap procs in
      let load' = high_load beside fl (some recorder) snap procs in
      let low = low_cpu_restore os fl none snap procs in
      let low' = low_cpu_restore beside fl (some recorder) snap procs in
      turn cpu (in_turn mem (in_turn load low)) cpu' (in_turn mem' (in_turn load' low')) rows w
        (RuleRows.high_cpu-Recorded os fl snap procs rows w)
        λ rows₁ w₁.
          turn mem (in_turn load low) mem' (in_turn load' low') rows₁ w₁
            (RuleRows.high_mem-Recorded os fl snap procs rows₁ w₁)
            λ rows₂ w₂.
              turn load low load' low' rows₂ w₂
                (RuleRows.high_load-Recorded os fl snap procs rows₂ w₂)
                (RuleRows.low_cpu_restore-Recorded os fl snap procs)

  -- With a database that carries out every call, the deployed rules do to the machine what they do
  -- without one and return the same events, and when they have returned, a row has been committed
  -- for each event of the first rule, after the rows that were there, and for no other event. An
  -- exception is the same one, with the machine the same.
  pub run_heuristics_cpu_rows :
      (rows : List (Row F)) (w : W)
      → Recorded rows
          (run_heuristics os fl none snap w)
          (run_heuristics beside fl (some recorder) snap (w, saved rows))
  unfolding run_heuristics
  run_heuristics_cpu_rows rows w =
      subst
        (λ (out : Result (List ProcessInfo) × (W × Store F)).
          Recorded rows (run_heuristics os fl none snap w)
            (elim out.0 as (λ x. Result (List Event) × (W × Store F)) [
              | ok procs ↦ apply_rules beside fl (some recorder) snap (user_procs procs) out.1
              | raised e ↦ (raised e, out.1)
            ]))
        (sym ((list_processes-Lifts (Store F) os).at w (saved rows))) (go (list_processes os w))
    where
      go :
          (out : Result (List ProcessInfo) × W)
          → Recorded rows
              (elim out.0 as (λ x. Result (List Event) × W) [
                | ok procs ↦ apply_rules os fl none snap (user_procs procs) out.1
                | raised e ↦ (raised e, out.1)
              ])
              (elim out.0 as (λ x. Result (List Event) × (W × Store F)) [
                | ok procs ↦
                    apply_rules beside fl
                      (some recorder)
                      snap
                      (user_procs procs)
                      (out.1, saved rows)
                | raised e ↦ (raised e, (out.1, saved rows))
              ])
      go (ok procs, v) = apply_rules-Recorded (user_procs procs) rows v
      go (raised e, v) = (refl, refl)
