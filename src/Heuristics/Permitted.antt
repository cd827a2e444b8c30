-- ===== src/Heuristics/Permitted.antt =====
-- The rules on a machine where the caller may set every priority, such as root's.
use ai_m_os.Common.{
  ℤ, pos, ltb_ℤ, eqb_ℤ, ◌≡◌, ◌≢◌, refl, ◌∙◌, sym, subst, Bool, true, Option, none, some, ok, raised,
  Result, List, [], ◌∷◌, Text, arith, if◌then◌else◌, Bool-cases, Option-cases, inl, inr,
}
use ai_m_os.Common.Lists.{All}
use ai_m_os.Common.Action.{◌>>=◌}
use ai_m_os.Float.{Float}
use ai_m_os.Snapshot.{SystemSnapshot}
use ai_m_os.Database.{Database}
use ai_m_os.Machine.{Os}
use ai_m_os.Machine.Laws.{clamp_nice-eq_self, IsNice, IsPid, Sets, IsLawful}
use ai_m_os.KernelIface.{renice_via_kernel}
use ai_m_os.KernelIface.Renice.{renice_via_kernel_permitted}
use ai_m_os.Heuristics.{
  ProcessInfo, Event, Rule, report, emit, throttled, throttle, high_cpu, high_load, top_rss,
  load_limit, mem_pct, suggest_kill, high_mem, restore, restore_all, low_cpu_restore, apply_rules,
  high_cpu_rule, high_load_rule,
}
use ai_m_os.Heuristics.Effects.{IsSound, AllQuiet, ReturnedAt, report_at, throttled-IsNice}
use ai_m_os.Heuristics.Changes.{change_by, Performs, AreAlive, in_turn-Performs}

module _ {W F : Type 0} (nice_of : W → ℤ → Option ℤ) (os : Os W) (fl : Float F)
    (db_conn : Option (Database W F)) (laws : IsLawful nice_of os)
    (quiet : AllQuiet nice_of db_conn)
    (permits : (pid n : ℤ) (w : W)
      → nice_of w pid ≢ none
      → (w₁ : W) × (os.setpriority pid n w ≡ (ok tt, w₁))) where
  emit-Performs :
      (w v : W) (ev : Event)
      → ((q : ℤ) → nice_of v q ≡ change_by ev (nice_of w) q)
      → Performs nice_of w (emit os fl db_conn ev v)
  unfolding emit
  emit-Performs w v ev h =
      go (report os fl db_conn ev v) (λ q. report_at nice_of q os fl db_conn quiet ev v)
    where
      go :
          (out : Result (Unit {0}) × W)
          → ((q : ℤ) → ReturnedAt nice_of q v out)
          → Performs nice_of w (elim out.0 as (λ x. Result (List Event) × W) [
            | ok _ ↦ (ok (ev ∷ []), out.1)
            | raised e ↦ (raised e, out.1)
          ])
      go (ok _, u) r = λ q. r q ∙ h q
      go (raised e, u) r = r (pos 0)

  -- A `renice` of a live process, and the event that tells of it.
  renice_emit-Performs :
      (pid n : ℤ) (ev : Bool → Event) (w : W)
      → IsPid pid
      → IsNice n
      → nice_of w pid ≢ none
      → ((q : ℤ)
          → change_by (ev true) (nice_of w) q ≡ (if eqb_ℤ q pid then some n else nice_of w q))
      → Performs nice_of w ((renice_via_kernel os pid n >>= λ b. emit os fl db_conn (ev b)) w)
  renice_emit-Performs pid n ev w p fits alive tells = elim (Option-cases (nice_of w pid)) [
    | inl dead ↦ absurd (alive dead)
    | inr (m, live) ↦
        let (w₁, permitted) = permits pid n w alive in
        let (w', e, sets) =
          renice_via_kernel_permitted nice_of os laws pid n m w w₁ p (omega arith) live permitted in
        let exact = subst (λ v. Sets nice_of w pid v w') (clamp_nice-eq_self n fits) sets in
        subst
          (λ (out : Result Bool × W).
            Performs nice_of w (elim out.0 as (λ x. Result (List Event) × W) [
              | ok b ↦ emit os fl db_conn (ev b) out.1
              | raised x ↦ (raised x, out.1)
            ]))
          (sym e) (emit-Performs w w' (ev true) (λ q. exact q ∙ sym (tells q)))
  ]

  throttle-Performs :
      (rule : Rule) (reason : Text) (t : ProcessInfo) (w : W)
      → IsSound t
      → nice_of w t.pid ≢ none
      → Performs nice_of w (throttle os fl db_conn rule reason t w)
  unfolding throttle
  throttle-Performs rule reason t w sound alive =
      elim (Bool-cases (eqb_ℤ (throttled t.nice) t.nice)) [
        | inl e ↦ rw e (λ q. refl)
        | inr e ↦ rw e (
            renice_emit-Performs t.pid (throttled t.nice) _ w sound.0
              (throttled-IsNice t.nice sound.1) alive λ q. refl)
      ]

  high_cpu-Performs :
      (snap : SystemSnapshot F) (procs : List ProcessInfo) (w : W)
      → All IsSound procs
      → AreAlive nice_of procs w
      → Performs nice_of w (high_cpu os fl db_conn snap procs w)
  unfolding high_cpu
  high_cpu-Performs snap [] w sound alive = λ q. refl
  high_cpu-Performs snap (t ∷ procs) w sound alive =
      elim (Bool-cases (fl.lt (fl.of_int (pos 85)) snap.cpu_total_pct)) [
        | inl e ↦ rw e (throttle-Performs high_cpu_rule _ t w sound.0 alive.0)
        | inr e ↦ rw e (λ q. refl)
      ]

  high_load-Performs :
      (snap : SystemSnapshot F) (procs : List ProcessInfo) (w : W)
      → All IsSound procs
      → AreAlive nice_of procs w
      → Performs nice_of w (high_load os fl db_conn snap procs w)
  unfolding high_load
  high_load-Performs snap [] w sound alive = λ q. refl
  high_load-Performs snap (t ∷ procs) w sound alive =
      elim (Bool-cases (fl.lt (load_limit fl snap) snap.load_avg_1)) [
        | inl e ↦ rw e (throttle-Performs high_load_rule _ t w sound.0 alive.0)
        | inr e ↦ rw e (λ q. refl)
      ]

  suggest_kill-Performs :
      (snap : SystemSnapshot F) (procs : List ProcessInfo) (w : W)
      → Performs nice_of w (suggest_kill os fl db_conn snap procs w)
  unfolding suggest_kill
  suggest_kill-Performs snap [] w = λ q. refl
  suggest_kill-Performs snap (p ∷ procs) w = emit-Performs w w _ λ q. refl

  high_mem-Performs :
      (snap : SystemSnapshot F) (procs : List ProcessInfo) (w : W)
      → Performs nice_of w (high_mem os fl db_conn snap procs w)
  unfolding high_mem
  high_mem-Performs snap procs w = elim (Bool-cases (ltb_ℤ (pos 0) snap.mem_total_kb)) [
    | inr e ↦ rw e (λ q. refl)
    | inl e ↦ elim (Bool-cases (fl.lt (fl.of_int (pos 90)) (mem_pct fl snap))) [
      | inl f ↦ rw (e, f) (suggest_kill-Performs snap (top_rss procs) w)
      | inr f ↦ rw (e, f) (λ q. refl)
    ]
  ]

  restore-Performs :
      (snap : SystemSnapshot F) (p : ProcessInfo) (w : W)
      → IsSound p
      → nice_of w p.pid ≢ none
      → Performs nice_of w (restore os fl db_conn snap p w)
  unfolding restore
  restore-Performs snap p w sound alive =
      renice_emit-Performs p.pid (pos 0) (λ _. _) w sound.0 (omega arith, omega arith) alive
        λ q. refl

  restore_all-Performs :
      (snap : SystemSnapshot F) (procs : List ProcessInfo) (w : W)
      → All IsSound procs
      → AreAlive nice_of procs w
      → Performs nice_of w (restore_all os fl db_conn snap procs w)
  unfolding restore_all
  restore_all-Performs snap [] w sound alive = λ q. refl
  restore_all-Performs snap (p ∷ procs) w sound alive = elim (Bool-cases (ltb_ℤ (pos 0) p.nice)) [
    | inl e ↦ rw e (
        in_turn-Performs nice_of procs (restore os fl db_conn snap p)
          (restore_all os fl db_conn snap procs) w alive.1
          (restore-Performs snap p w sound.0 alive.0)
          λ v a. restore_all-Performs snap procs v sound.1 a)
    | inr e ↦ rw e (restore_all-Performs snap procs w sound.1 alive.1)
  ]

  low_cpu_restore-Performs :
      (snap : SystemSnapshot F) (procs : List ProcessInfo) (w : W)
      → All IsSound procs
      → AreAlive nice_of procs w
      → Performs nice_of w (low_cpu_restore os fl db_conn snap procs w)
  unfolding low_cpu_restore
  low_cpu_restore-Performs snap procs w sound alive =
      elim (Bool-cases (fl.lt snap.cpu_total_pct (fl.of_int (pos 20)))) [
        | inl e ↦ rw e (restore_all-Performs snap procs w sound alive)
        | inr e ↦ rw e (λ q. refl)
      ]

  pub apply_rules-Performs :
      (snap : SystemSnapshot F) (procs : List ProcessInfo) (w : W)
      → All IsSound procs
      → AreAlive nice_of procs w
      → Performs nice_of w (apply_rules os fl db_conn snap procs w)
  unfolding apply_rules
  apply_rules-Performs snap procs w sound alive =
      in_turn-Performs nice_of procs (high_cpu os fl db_conn snap procs) _ w alive
        (high_cpu-Performs snap procs w sound alive)
        λ w₁ a₁.
          in_turn-Performs nice_of procs (high_mem os fl db_conn snap procs) _ w₁ a₁
            (high_mem-Performs snap procs w₁)
            λ w₂ a₂.
              in_turn-Performs nice_of procs (high_load os fl db_conn snap procs)
                (low_cpu_restore os fl db_conn snap procs) w₂ a₂
                (high_load-Performs snap procs w₂ sound a₂)
                λ w₃ a₃. low_cpu_restore-Performs snap procs w₃ sound a₃
