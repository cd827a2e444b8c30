-- ===== src/Heuristics/Decides.antt =====
-- The calls of the rules return the events of the plan, applied or not.
use mathlib.Core.List.{map-append}
use ai_m_os.Common.{
  pos, ◌≡◌, refl, ◌∙◌, inl, inr, eqb_ℤ, ltb_ℤ, Bool, Option, ok, raised, Result, List, [], ◌∷◌,
  ◌++◌, map, Text, Bool-cases, arith, subst,
}
use ai_m_os.Common.Action.{M, ◌>>=◌, pure}
use ai_m_os.Float.{Float}
use ai_m_os.Snapshot.{SystemSnapshot}
use ai_m_os.Database.{Database}
use ai_m_os.Machine.{Os}
use ai_m_os.KernelIface.{renice_via_kernel}
use ai_m_os.Heuristics.{
  ProcessInfo, Event, Rule, high_cpu_rule, high_load_rule, low_cpu_restore_rule, emit, in_turn,
  throttled, throttle, high_cpu, high_load, mem_pct, top_rss, suggest_kill, high_mem, restore,
  restore_all, low_cpu_restore, apply_rules,
}
use ai_m_os.Heuristics.Plan.{
  unapplied, change, throttle_plan, restore_plan, kill_plan, only_if, cpu_reason, mem_reason,
  load_reason, restore_reason, is_cpu_high, is_cpu_low, is_mem_high, is_load_high, plan,
}

module _ {W : Type 0} where
  -- If the code returns, it has decided on these events.
  abbrev pub Decides : List Event → Result (List Event) × W → Type 0
  Decides evs (ok found, w') = map unapplied found ≡ evs
  Decides evs (raised _, w') = Unit

  in_turn-Decides :
      (m k : M W (List Event)) (a b : List Event) (w : W)
      → Decides a (m w)
      → ((v : W) → Decides b (k v))
      → Decides (a ++ b) (in_turn m k w)
  in_turn-Decides m k a b w h g = go (m w) h
    where
      join :
          (first : List Event) (out : Result (List Event) × W)
          → map unapplied first ≡ a
          → Decides b out
          → Decides (a ++ b) (elim out.0 [
            | ok second ↦ (ok (first ++ second), out.1)
            | raised e ↦ (raised e, out.1)
          ])
      join first (ok second, u) p q = map-append unapplied first second ∙ cc
      join first (raised e, u) p q = tt

      go :
          (out : Result (List Event) × W)
          → Decides a out
          → Decides (a ++ b) (elim out.0 [
            | ok first ↦ (k >>= λ second. pure (first ++ second)) out.1
            | raised e ↦ (raised e, out.1)
          ])
      go (ok first, v) r = join first (k v) r (g v)
      go (raised e, v) r = tt

module _ {W F : Type 0} (os : Os W) (fl : Float F) (db_conn : Option (Database W F)) where
  emit-Decides : (ev : Event) (w : W) → Decides (unapplied ev ∷ []) (emit os fl db_conn ev w)
  unfolding emit
  emit-Decides ev w = ground arith

  renice_emit-Decides :
      (m : M W Bool) (ev : Bool → Event) (e : Event) (w : W)
      → ((b : Bool) → unapplied (ev b) ≡ e)
      → Decides (e ∷ []) ((m >>= λ b. emit os fl db_conn (ev b)) w)
  renice_emit-Decides m ev e w same = go (m w)
    where
      go :
          (out : Result Bool × W)
          → Decides {W = W}
              (e ∷ [])
              (elim out.0 [ ok b ↦ emit os fl db_conn (ev b) out.1 | raised x ↦ (raised x, out.1) ])
      go (ok b, v) =
          subst (λ x. Decides (x ∷ []) (emit os fl db_conn (ev b) v)) (same b)
            (emit-Decides (ev b) v)
      go (raised x, v) = tt

  throttle-Decides :
      (rule : Rule) (reason : Text) (t : ProcessInfo) (procs : List ProcessInfo) (w : W)
      → Decides (throttle_plan rule reason (t ∷ procs)) (throttle os fl db_conn rule reason t w)
  unfolding throttle
  throttle-Decides rule reason t procs w = elim (Bool-cases (eqb_ℤ (throttled t.nice) t.nice)) [
    | inl e ↦ rw e refl
    | inr e ↦ rw e (
        renice_emit-Decides (renice_via_kernel os t.pid (throttled t.nice)) _
          (change rule reason t (throttled t.nice)) w λ b. refl)
  ]

  high_cpu-Decides :
      (snap : SystemSnapshot F) (procs : List ProcessInfo) (w : W)
      → Decides
          (only_if (is_cpu_high fl snap) (throttle_plan high_cpu_rule (cpu_reason fl snap) procs))
          (high_cpu os fl db_conn snap procs w)
  unfolding high_cpu
  high_cpu-Decides snap [] w = ground arith
  high_cpu-Decides snap (t ∷ procs) w = elim (Bool-cases (is_cpu_high fl snap)) [
    | inl e ↦ rw e (throttle-Decides high_cpu_rule (cpu_reason fl snap) t procs w)
    | inr e ↦ rw e refl
  ]

  high_load-Decides :
      (snap : SystemSnapshot F) (procs : List ProcessInfo) (w : W)
      → Decides
          (only_if
            (is_load_high fl snap)
            (throttle_plan high_load_rule (load_reason fl snap) procs))
          (high_load os fl db_conn snap procs w)
  unfolding high_load
  high_load-Decides snap [] w = ground arith
  high_load-Decides snap (t ∷ procs) w = elim (Bool-cases (is_load_high fl snap)) [
    | inl e ↦ rw e (throttle-Decides high_load_rule (load_reason fl snap) t procs w)
    | inr e ↦ rw e refl
  ]

  suggest_kill-Decides :
      (snap : SystemSnapshot F) (procs : List ProcessInfo) (w : W)
      → Decides (kill_plan (mem_reason fl snap) procs) (suggest_kill os fl db_conn snap procs w)
  unfolding suggest_kill
  suggest_kill-Decides snap [] w = refl
  suggest_kill-Decides snap (p ∷ procs) w = emit-Decides _ w

  high_mem-Decides :
      (snap : SystemSnapshot F) (procs : List ProcessInfo) (w : W)
      → Decides
          (only_if (is_mem_high fl snap) (kill_plan (mem_reason fl snap) (top_rss procs)))
          (high_mem os fl db_conn snap procs w)
  unfolding high_mem
  high_mem-Decides snap procs w = elim (Bool-cases (ltb_ℤ (pos 0) snap.mem_total_kb)) [
    | inr none_known ↦ rw none_known refl
    | inl known ↦ elim (Bool-cases (fl.lt (fl.of_int (pos 90)) (mem_pct fl snap))) [
      | inl e ↦ rw (known, e) (suggest_kill-Decides snap (top_rss procs) w)
      | inr e ↦ rw (known, e) refl
    ]
  ]

  restore_all-Decides :
      (snap : SystemSnapshot F) (procs : List ProcessInfo) (w : W)
      → Decides
          (restore_plan (restore_reason fl snap) procs)
          (restore_all os fl db_conn snap procs w)
  unfolding restore_all restore
  restore_all-Decides snap [] w = refl
  restore_all-Decides snap (p ∷ procs) w = elim (Bool-cases (ltb_ℤ (pos 0) p.nice)) [
    | inr e ↦ rw e (restore_all-Decides snap procs w)
    | inl e ↦
        let ev = change low_cpu_restore_rule (restore_reason fl snap) p (pos 0) in
        rw e (
          in_turn-Decides (restore os fl db_conn snap p) (restore_all os fl db_conn snap procs)
            (ev ∷ []) (restore_plan (restore_reason fl snap) procs) w
            (renice_emit-Decides (renice_via_kernel os p.pid (pos 0)) (λ b. ev) ev w (λ b. refl))
            (λ v. restore_all-Decides snap procs v))
  ]

  low_cpu_restore-Decides :
      (snap : SystemSnapshot F) (procs : List ProcessInfo) (w : W)
      → Decides
          (only_if (is_cpu_low fl snap) (restore_plan (restore_reason fl snap) procs))
          (low_cpu_restore os fl db_conn snap procs w)
  unfolding low_cpu_restore
  low_cpu_restore-Decides snap procs w = elim (Bool-cases (is_cpu_low fl snap)) [
    | inl e ↦ rw e (restore_all-Decides snap procs w)
    | inr e ↦ rw e refl
  ]

  pub apply_rules-Decides :
      (snap : SystemSnapshot F) (procs : List ProcessInfo) (w : W)
      → Decides (plan fl snap procs) (apply_rules os fl db_conn snap procs w)
  unfolding apply_rules
  apply_rules-Decides snap procs w =
      let load = high_load os fl db_conn snap procs in
      let low = low_cpu_restore os fl db_conn snap procs in
      let mem = high_mem os fl db_conn snap procs in
      in_turn-Decides (high_cpu os fl db_conn snap procs) (in_turn mem (in_turn load low)) _ _ w
        (high_cpu-Decides snap procs w)
        λ v. in_turn-Decides mem (in_turn load low) _ _ v (high_mem-Decides snap procs v) λ u.
          in_turn-Decides load low _ _ u (high_load-Decides snap procs u)
            λ x. low_cpu_restore-Decides snap procs x
