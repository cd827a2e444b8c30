-- ===== src/Deployed/Agrees.antt =====
-- The deployed heuristics against those of the source, in the mode without a database.
use ai_m_os.Common.{
  ℤ, pos, ltb_ℤ, eqb_ℤ, ◌≡◌, refl, Bool, none, List, [], ◌∷◌, ok, raised, Result, Bool-cases, inl,
  inr,
}
use ai_m_os.Common.Action.{◌>>=◌, pure}
use ai_m_os.Float.{Float}
use ai_m_os.Snapshot.{SystemSnapshot}
use ai_m_os.Machine.{Os}
use ai_m_os.KernelIface.{renice_via_kernel}
use ai_m_os.Heuristics
use ai_m_os.Heuristics.{
  ProcessInfo, RuleAction, renice_action, kill_suggestion, in_turn, user_procs, top_rss, mem_pct,
  load_limit, throttled, list_processes, throttle, emit,
}
use ai_m_os.Deployed.Heuristics.{
  Event, report, high_cpu, suggest_kill, high_mem, high_load, restore, restore_all, low_cpu_restore,
  apply_rules, run_heuristics,
}
use ai_m_os.Deployed.Outcome.{as_deployed, deployed_outcome, in_turn-deployed}

module _ {W F : Type 0} (os : Os W) (fl : Float F) (snap : SystemSnapshot F) where
  -- A call of `renice`, whichever events tell of it.
  renice_deployed :
      (pid n : ℤ) (ev : Bool → Heuristics.Event) (w : W)
      → (renice_via_kernel os pid n >>= λ b. pure (as_deployed (ev b) ∷ [])) w
        ≡ deployed_outcome ((renice_via_kernel os pid n >>= λ b. emit os fl none (ev b)) w)
  unfolding emit Heuristics.report
  renice_deployed pid n ev w = go (renice_via_kernel os pid n w)
    where
      go :
          (out : Result Bool × W)
          → elim out.0 as (λ x. Result (List Event) × W) [
            | ok b ↦ (ok (as_deployed (ev b) ∷ []), out.1)
            | raised e ↦ (raised e, out.1)
          ]
            ≡ deployed_outcome (elim out.0 as (λ x. Result (List Heuristics.Event) × W) [
              | ok b ↦ emit os fl none (ev b) out.1
              | raised e ↦ (raised e, out.1)
            ])
      go (ok b, v) = refl
      go (raised e, v) = refl

  high_cpu_deployed :
      (procs : List ProcessInfo) (w : W)
      → high_cpu os fl none snap procs w
        ≡ deployed_outcome (Heuristics.high_cpu os fl none snap procs w)
  unfolding high_cpu Heuristics.high_cpu throttle report
  high_cpu_deployed [] w = refl
  high_cpu_deployed (t ∷ procs) w =
      elim (Bool-cases (fl.lt (fl.of_int (pos 85)) snap.cpu_total_pct)) [
        | inr e ↦ rw e refl
        | inl e ↦ elim (Bool-cases (eqb_ℤ (throttled t.nice) t.nice)) [
          | inl f ↦ rw (e, f) refl
          | inr f ↦ rw (e, f) (renice_deployed t.pid (throttled t.nice) _ w)
        ]
      ]

  high_load_deployed :
      (procs : List ProcessInfo) (w : W)
      → high_load os fl none snap procs w
        ≡ deployed_outcome (Heuristics.high_load os fl none snap procs w)
  unfolding high_load Heuristics.high_load throttle
  high_load_deployed [] w = refl
  high_load_deployed (t ∷ procs) w =
      elim (Bool-cases (fl.lt (load_limit fl snap) snap.load_avg_1)) [
        | inr e ↦ rw e refl
        | inl e ↦ elim (Bool-cases (eqb_ℤ (throttled t.nice) t.nice)) [
          | inl f ↦ rw (e, f) refl
          | inr f ↦ rw (e, f) (renice_deployed t.pid (throttled t.nice) _ w)
        ]
      ]

  suggest_kill_deployed :
      (procs : List ProcessInfo) (w : W)
      → suggest_kill os fl none snap procs w
        ≡ deployed_outcome (Heuristics.suggest_kill os fl none snap procs w)
  unfolding suggest_kill Heuristics.suggest_kill emit Heuristics.report
  suggest_kill_deployed [] w = refl
  suggest_kill_deployed (p ∷ procs) w = refl

  high_mem_deployed :
      (procs : List ProcessInfo) (w : W)
      → high_mem os fl none snap procs w
        ≡ deployed_outcome (Heuristics.high_mem os fl none snap procs w)
  unfolding high_mem Heuristics.high_mem
  high_mem_deployed procs w = elim (Bool-cases (ltb_ℤ (pos 0) snap.mem_total_kb)) [
    | inr e ↦ rw e refl
    | inl e ↦ elim (Bool-cases (fl.lt (fl.of_int (pos 90)) (mem_pct fl snap))) [
      | inl f ↦ rw (e, f) (suggest_kill_deployed (top_rss procs) w)
      | inr f ↦ rw (e, f) refl
    ]
  ]

  restore_deployed :
      (p : ProcessInfo) (w : W)
      → restore os fl none snap p w ≡ deployed_outcome (Heuristics.restore os fl none snap p w)
  unfolding restore Heuristics.restore
  restore_deployed p w = renice_deployed p.pid (pos 0) (λ _. _) w

  restore_all_deployed :
      (procs : List ProcessInfo) (w : W)
      → restore_all os fl none snap procs w
        ≡ deployed_outcome (Heuristics.restore_all os fl none snap procs w)
  unfolding restore_all Heuristics.restore_all
  restore_all_deployed [] w = refl
  restore_all_deployed (p ∷ procs) w = elim (Bool-cases (ltb_ℤ (pos 0) p.nice)) [
    | inr e ↦ rw e (restore_all_deployed procs w)
    | inl e ↦ rw e (
        in_turn-deployed (restore os fl none snap p) (restore_all os fl none snap procs)
          (Heuristics.restore os fl none snap p) (Heuristics.restore_all os fl none snap procs) w
          (restore_deployed p w) (restore_all_deployed procs))
  ]

  low_cpu_restore_deployed :
      (procs : List ProcessInfo) (w : W)
      → low_cpu_restore os fl none snap procs w
        ≡ deployed_outcome (Heuristics.low_cpu_restore os fl none snap procs w)
  unfolding low_cpu_restore Heuristics.low_cpu_restore
  low_cpu_restore_deployed procs w =
      elim (Bool-cases (fl.lt snap.cpu_total_pct (fl.of_int (pos 20)))) [
        | inl e ↦ rw e (restore_all_deployed procs w)
        | inr e ↦ rw e refl
      ]

  apply_rules_deployed :
      (procs : List ProcessInfo) (w : W)
      → apply_rules os fl none snap procs w
        ≡ deployed_outcome (Heuristics.apply_rules os fl none snap procs w)
  unfolding apply_rules Heuristics.apply_rules
  apply_rules_deployed procs w =
      in_turn-deployed (high_cpu os fl none snap procs) _
        (Heuristics.high_cpu os fl none snap procs) _ w (high_cpu_deployed procs w)
        λ w₁.
          in_turn-deployed (high_mem os fl none snap procs) _
            (Heuristics.high_mem os fl none snap procs) _ w₁ (high_mem_deployed procs w₁)
            λ w₂.
              in_turn-deployed (high_load os fl none snap procs)
                (low_cpu_restore os fl none snap procs) (Heuristics.high_load os fl none snap procs)
                (Heuristics.low_cpu_restore os fl none snap procs) w₂ (high_load_deployed procs w₂)
                (low_cpu_restore_deployed procs)

  -- Without a database the deployed rules do to the machine what those of the source do, whatever
  -- the system calls answer, and return the same events, or raise the same exception; an event of
  -- the second rule has no nice values there.
  pub run_heuristics_deployed :
      (w : W)
      → run_heuristics os fl none snap w
        ≡ deployed_outcome (Heuristics.run_heuristics os fl none snap w)
  unfolding run_heuristics Heuristics.run_heuristics
  run_heuristics_deployed w = go (list_processes os w)
    where
      go :
          (out : Result (List ProcessInfo) × W)
          → elim out.0 as (λ x. Result (List Event) × W) [
            | ok procs ↦ apply_rules os fl none snap (user_procs procs) out.1
            | raised e ↦ (raised e, out.1)
          ]
            ≡ deployed_outcome (elim out.0 as (λ x. Result (List Heuristics.Event) × W) [
              | ok procs ↦ Heuristics.apply_rules os fl none snap (user_procs procs) out.1
              | raised e ↦ (raised e, out.1)
            ])
      go (ok procs, v) = apply_rules_deployed (user_procs procs) v
      go (raised e, v) = refl
