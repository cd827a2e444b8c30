-- ===== src/Heuristics/Recorded.antt =====
-- `run_heuristics` with a database that carries out every call, beside the same call without one.
use ai_m_os.Common.{
  ℤ, pos, ltb_ℤ, eqb_ℤ, refl, sym, ap, subst, Bool, none, some, List, [], ◌∷◌, map, ok, raised,
  Result, Text, Bool-cases, inl, inr,
}
use mathlib.Core.List.{map-append, append-nil}
use ai_m_os.Common.Action.{◌>>=◌}
use ai_m_os.Float.{Float}
use ai_m_os.Snapshot.{SystemSnapshot}
use ai_m_os.Database.{Row, scheduler_events}
use ai_m_os.Database.Recorder.{Store, saved, recorder}
use ai_m_os.Logger.{log_scheduler_event}
use ai_m_os.Machine.{Os}
use ai_m_os.Machine.Beside.{beside_os}
use ai_m_os.KernelIface.{renice_via_kernel}
use ai_m_os.Heuristics.{
  in_turn, ProcessInfo, Event, Rule, user_procs, top_rss, mem_pct, load_limit, throttled,
  high_cpu_rule, high_load_rule, list_processes, throttle, emit, report, high_cpu, suggest_kill,
  high_mem, high_load, restore, restore_all, low_cpu_restore, apply_rules, run_heuristics,
  action_text,
}
use ai_m_os.Heuristics.Lifts.{list_processes-Lifts}
use ai_m_os.Heuristics.Audit.{Audited, in_turn-Audited, renice-Audited}

-- The row of an event.
abbrev pub row_of_event : {F : Type 0} → Event → Row F
row_of_event ev = scheduler_events ev.pid (action_text ev.action) ev.old_nice ev.new_nice ev.reason

module _ {W F : Type 0} (os : Os W) (fl : Float F) (snap : SystemSnapshot F) where
  abbrev pub beside : Os (W × Store F)
  beside = beside_os (Store F) os

  -- The rules return as many rows as events.
  abbrev pub Recorded :
      List (Row F) → Result (List Event) × W → Result (List Event) × (W × Store F) → Type 0
  Recorded = Audited (map row_of_event) (map-append row_of_event)

  emit-Recorded :
      (ev : Event) (rows : List (Row F)) (w : W)
      → Recorded rows (emit os fl none ev w) (emit beside fl (some recorder) ev (w, saved rows))
  unfolding emit report log_scheduler_event
  emit-Recorded ev rows w = refl

  renice_emit-Recorded :
      (pid n : ℤ) (ev : Bool → Event) (rows : List (Row F)) (w : W)
      → Recorded rows ((renice_via_kernel os pid n >>= λ b. emit os fl none (ev b)) w) (
          (renice_via_kernel beside pid n >>= λ b. emit beside fl (some recorder) (ev b))
            (w, saved rows))
  renice_emit-Recorded pid n ev rows w =
      renice-Audited (map row_of_event) (map-append row_of_event) os pid n
        (λ b. emit os fl none (ev b)) (λ b. emit beside fl (some recorder) (ev b)) rows w
        λ b v. emit-Recorded (ev b) rows v

  nothing : (rows : List (Row F)) (w : W) → Recorded rows (ok [], w) (ok [], (w, saved rows))
  nothing rows w = ap (λ l. (ok [], (w, saved l))) (sym (append-nil rows))

  throttle-Recorded :
      (rule : Rule) (reason : Text) (t : ProcessInfo) (rows : List (Row F)) (w : W)
      → Recorded rows
          (throttle os fl none rule reason t w)
          (throttle beside fl (some recorder) rule reason t (w, saved rows))
  unfolding throttle
  throttle-Recorded rule reason t rows w = elim (Bool-cases (eqb_ℤ (throttled t.nice) t.nice)) [
    | inl e ↦ rw e (nothing rows w)
    | inr e ↦ rw e (renice_emit-Recorded t.pid (throttled t.nice) _ rows w)
  ]

  high_cpu-Recorded :
      (procs : List ProcessInfo) (rows : List (Row F)) (w : W)
      → Recorded rows
          (high_cpu os fl none snap procs w)
          (high_cpu beside fl (some recorder) snap procs (w, saved rows))
  unfolding high_cpu
  high_cpu-Recorded [] rows w = nothing rows w
  high_cpu-Recorded (t ∷ procs) rows w =
      elim (Bool-cases (fl.lt (fl.of_int (pos 85)) snap.cpu_total_pct)) [
        | inl e ↦ rw e (throttle-Recorded high_cpu_rule _ t rows w)
        | inr e ↦ rw e (nothing rows w)
      ]

  high_load-Recorded :
      (procs : List ProcessInfo) (rows : List (Row F)) (w : W)
      → Recorded rows
          (high_load os fl none snap procs w)
          (high_load beside fl (some recorder) snap procs (w, saved rows))
  unfolding high_load
  high_load-Recorded [] rows w = nothing rows w
  high_load-Recorded (t ∷ procs) rows w =
      elim (Bool-cases (fl.lt (load_limit fl snap) snap.load_avg_1)) [
        | inl e ↦ rw e (throttle-Recorded high_load_rule _ t rows w)
        | inr e ↦ rw e (nothing rows w)
      ]

  suggest_kill-Recorded :
      (procs : List ProcessInfo) (rows : List (Row F)) (w : W)
      → Recorded rows
          (suggest_kill os fl none snap procs w)
          (suggest_kill beside fl (some recorder) snap procs (w, saved rows))
  unfolding suggest_kill
  suggest_kill-Recorded [] rows w = nothing rows w
  suggest_kill-Recorded (p ∷ procs) rows w = emit-Recorded _ rows w

  high_mem-Recorded :
      (procs : List ProcessInfo) (rows : List (Row F)) (w : W)
      → Recorded rows
          (high_mem os fl none snap procs w)
          (high_mem beside fl (some recorder) snap procs (w, saved rows))
  unfolding high_mem
  high_mem-Recorded procs rows w = elim (Bool-cases (ltb_ℤ (pos 0) snap.mem_total_kb)) [
    | inr e ↦ rw e (nothing rows w)
    | inl e ↦ elim (Bool-cases (fl.lt (fl.of_int (pos 90)) (mem_pct fl snap))) [
      | inl f ↦ rw (e, f) (suggest_kill-Recorded (top_rss procs) rows w)
      | inr f ↦ rw (e, f) (nothing rows w)
    ]
  ]

  restore-Recorded :
      (p : ProcessInfo) (rows : List (Row F)) (w : W)
      → Recorded rows
          (restore os fl none snap p w)
          (restore beside fl (some recorder) snap p (w, saved rows))
  unfolding restore
  restore-Recorded p rows w = renice_emit-Recorded p.pid (pos 0) (λ _. _) rows w

  restore_all-Recorded :
      (procs : List ProcessInfo) (rows : List (Row F)) (w : W)
      → Recorded rows
          (restore_all os fl none snap procs w)
          (restore_all beside fl (some recorder) snap procs (w, saved rows))
  unfolding restore_all
  restore_all-Recorded [] rows w = nothing rows w
  restore_all-Recorded (p ∷ procs) rows w = elim (Bool-cases (ltb_ℤ (pos 0) p.nice)) [
    | inr e ↦ rw e (restore_all-Recorded procs rows w)
    | inl e ↦ rw e (
        in_turn-Audited (map row_of_event) (map-append row_of_event) (restore os fl none snap p)
          (restore_all os fl none snap procs) (restore beside fl (some recorder) snap p)
          (restore_all beside fl (some recorder) snap procs) rows w (restore-Recorded p rows w)
          (restore_all-Recorded procs))
  ]

  low_cpu_restore-Recorded :
      (procs : List ProcessInfo) (rows : List (Row F)) (w : W)
      → Recorded rows
          (low_cpu_restore os fl none snap procs w)
          (low_cpu_restore beside fl (some recorder) snap procs (w, saved rows))
  unfolding low_cpu_restore
  low_cpu_restore-Recorded procs rows w =
      elim (Bool-cases (fl.lt snap.cpu_total_pct (fl.of_int (pos 20)))) [
        | inl e ↦ rw e (restore_all-Recorded procs rows w)
        | inr e ↦ rw e (nothing rows w)
      ]

  apply_rules-Recorded :
      (procs : List ProcessInfo) (rows : List (Row F)) (w : W)
      → Recorded rows
          (apply_rules os fl none snap procs w)
          (apply_rules beside fl (some recorder) snap procs (w, saved rows))
  unfolding apply_rules
  apply_rules-Recorded procs rows w =
      let turn = in_turn-Audited (map row_of_event) (map-append row_of_event) in
      let cpu = high_cpu os fl none snap procs in
      let cpu' = high_cpu beside fl (some recorder) snap procs in
      let mem = high_mem os fl none snap procs in
      let mem' = high_mem beside fl (some recorder) snap procs in
      let load = high_load os fl none snap procs in
      let load' = high_load beside fl (some recorder) snap procs in
      let low = low_cpu_restore os fl none snap procs in
      let low' = low_cpu_restore beside fl (some recorder) snap procs in
      turn cpu (in_turn mem (in_turn load low)) cpu' (in_turn mem' (in_turn load' low')) rows w
        (high_cpu-Recorded procs rows w)
        λ rows₁ w₁.
          turn mem (in_turn load low) mem' (in_turn load' low') rows₁ w₁
            (high_mem-Recorded procs rows₁ w₁)
            λ rows₂ w₂.
              turn load low load' low' rows₂ w₂ (high_load-Recorded procs rows₂ w₂)
                (low_cpu_restore-Recorded procs)

  -- With a database that carries out every call, `run_heuristics` does to the machine what it does
  -- without one and returns the same events, and when it has returned, one row for each event has
  -- been committed, in their order, after the rows that were there. An exception is the same one,
  -- with the machine the same.
  pub run_heuristics-Recorded :
      (rows : List (Row F)) (w : W)
      → Recorded rows
          (run_heuristics os fl none snap w)
          (run_heuristics beside fl (some recorder) snap (w, saved rows))
  unfolding run_heuristics
  run_heuristics-Recorded rows w =
      subst
        (λ (out : Result (List ProcessInfo) × (W × Store F)).
          Recorded rows (run_heuristics os fl none snap w)
            (elim out.0 as (λ x. Result (List Event) × (W × Store F)) [
              | ok procs ↦ apply_rules beside fl (some recorder) snap (user_procs procs) out.1
              | raised e ↦ (raised e, out.1)
            ]))
        (sym ((list_processes-Lifts (Store F) os).at w (saved rows))) (go (list_processes os w))
    where
      go :
          (out : Result (List ProcessInfo) × W)
          → Recorded rows
              (elim out.0 as (λ x. Result (List Event) × W) [
                | ok procs ↦ apply_rules os fl none snap (user_procs procs) out.1
                | raised e ↦ (raised e, out.1)
              ])
              (elim out.0 as (λ x. Result (List Event) × (W × Store F)) [
                | ok procs ↦
                    apply_rules beside fl
                      (some recorder)
                      snap
                      (user_procs procs)
                      (out.1, saved rows)
                | raised e ↦ (raised e, (out.1, saved rows))
              ])
      go (ok procs, v) = apply_rules-Recorded (user_procs procs) rows v
      go (raised e, v) = (refl, refl)
