-- ===== src/Heuristics/Decisions.antt =====
-- A whole call of `run_heuristics`: what it decides, whom it touches, and how far.
use ai_m_os.Common.{
  ℤ, pos, ◌≡◌, refl, ◌∙◌, ◌⊎◌, inl, inr, eqb_ℤ, Bool, true, false, Option, none, some, ok, raised,
  Result, List, [], ◌∷◌, ◌++◌, map, Text, arith, ◌<ℤ◌, ◌≤ℤ◌, ◌+ℤ◌, sym, ap,
}
use ai_m_os.Common.Int.{eqb_ℤ→eq}
use ai_m_os.Common.Lists.{any, any-append, All, All-filter}
use ai_m_os.Common.Sort.{All-sort_desc}
use ai_m_os.Float.{Float}
use ai_m_os.Snapshot.{SystemSnapshot}
use ai_m_os.Database.{Database}
use ai_m_os.Machine.{Os}
use ai_m_os.Machine.Laws.{IsLawful}
use ai_m_os.Heuristics.{
  ProcessInfo, Event, Rule, user_procs, is_user, throttled, apply_rules, list_processes,
  run_heuristics, top_rss, high_cpu_rule, high_load_rule,
}
use ai_m_os.Heuristics.Effects.{IsSound, AllQuiet, accounts, Traced, apply_rules-Traced}
use ai_m_os.Heuristics.Plan.{
  unapplied, plan, cpu_reason, load_reason, mem_reason, restore_reason, is_mem_high, is_load_high,
  only_if, throttle_plan, restore_plan, kill_plan, is_cpu_low, is_cpu_high,
}
use ai_m_os.Heuristics.Decides.{Decides, apply_rules-Decides}

-- A nice value of at most 10 is throttled to one that is no lower, at most 10, and at most 5 above
-- it; one above 10 is brought down to 10.
pub throttled_bounds :
    (n : ℤ)
    → (n ≤ℤ pos 10 → (n ≤ℤ throttled n) × (throttled n ≤ℤ pos 10) × (throttled n ≤ℤ n +ℤ pos 5))
      × (pos 10 <ℤ n → (throttled n ≡ pos 10) × (throttled n <ℤ n))
unfolding throttled ◌+ℤ◌
throttled_bounds n = ground arith

pub user_procs-All :
    (P : ProcessInfo → Type 0) (procs : List ProcessInfo) → All P procs → All P (user_procs procs)
unfolding user_procs
user_procs-All P procs h = All-sort_desc (λ p. p.cpu_time) P _ (All-filter P is_user procs h)

-- A changed value that an event tells, it tells without its outcome.
any-accounts-unapplied :
    (q : ℤ) (v : Option ℤ) (evs : List Event)
    → any (accounts q v) (map unapplied evs) ≡ any (accounts q v) evs
any-accounts-unapplied q v [] = refl
any-accounts-unapplied q none (ev ∷ evs) = any-accounts-unapplied q none evs
any-accounts-unapplied q (some n) (ev ∷ evs) = ground (arith, any-accounts-unapplied q (some n) evs)

module _ (q : ℤ) where
  -- `q` is one of these processes.
  abbrev pub is_listed : List ProcessInfo → Bool
  is_listed = any (λ p. eqb_ℤ q p.pid)

  restore_plan-listed :
      (v : Option ℤ) (reason : Text) (procs : List ProcessInfo)
      → any (accounts q v) (restore_plan reason procs) ≡ true
      → is_listed procs ≡ true
  restore_plan-listed v reason [] h = h
  restore_plan-listed none reason (p ∷ procs) h =
      ground (arith, restore_plan-listed none reason procs)
  restore_plan-listed (some n) reason (p ∷ procs) h =
      ground (arith, restore_plan-listed (some n) reason procs)

  throttle_plan-told :
      (v : Option ℤ) (rule : Rule) (reason : Text) (t : ProcessInfo) (procs : List ProcessInfo)
      → any (accounts q v) (throttle_plan rule reason (t ∷ procs)) ≡ true
      → (q ≡ t.pid) × (v ≡ some (throttled t.nice))
  throttle_plan-told none rule reason t procs h = ground arith
  throttle_plan-told (some n) rule reason t procs h =
      ground (arith, eqb_ℤ→eq q t.pid, eqb_ℤ→eq (throttled t.nice) n)

  kill_plan-told :
      (v : Option ℤ) (reason : Text) (procs : List ProcessInfo)
      → any (accounts q v) (kill_plan reason procs) ≡ false
  kill_plan-told v reason [] = refl
  kill_plan-told none reason (p ∷ procs) = refl
  kill_plan-told (some n) reason (p ∷ procs) = refl

  module _ {F : Type 0} (fl : Float F) (snap : SystemSnapshot F) where
    -- What a plan tells of a nice value, by the rule that tells it.
    any-plan :
        (v : Option ℤ) (procs : List ProcessInfo)
        → any (accounts q v) (plan fl snap procs) ≡ true
        → ((any (accounts q v) (throttle_plan high_cpu_rule (cpu_reason fl snap) procs) ≡ true)
            ⊎ (any (accounts q v) (throttle_plan high_load_rule (load_reason fl snap) procs)
                ≡ true))
          ⊎ ((is_cpu_low fl snap ≡ true)
              × (any (accounts q v) (restore_plan (restore_reason fl snap) procs) ≡ true))
    any-plan v procs h =
        let cpu =
          only_if (is_cpu_high fl snap) (throttle_plan high_cpu_rule (cpu_reason fl snap) procs) in
        let mem = only_if (is_mem_high fl snap) (kill_plan (mem_reason fl snap) (top_rss procs)) in
        let load =
          only_if (is_load_high fl snap)
            (throttle_plan high_load_rule (load_reason fl snap) procs) in
        let low = only_if (is_cpu_low fl snap) (restore_plan (restore_reason fl snap) procs) in
        ground (
          arith,
          any-append (accounts q v) cpu (mem ++ (load ++ low)),
          any-append (accounts q v) mem (load ++ low),
          any-append (accounts q v) load low,
          kill_plan-told v (mem_reason fl snap) (top_rss procs),
        )

    throttle_plan-listed :
        (v : Option ℤ) (rule : Rule) (reason : Text) (procs : List ProcessInfo)
        → any (accounts q v) (throttle_plan rule reason procs) ≡ true
        → is_listed procs ≡ true
    throttle_plan-listed v rule reason [] h = h
    throttle_plan-listed v rule reason (t ∷ procs) h =
        ground (arith, throttle_plan-told v rule reason t procs h)

    plan-listed :
        (v : Option ℤ) (procs : List ProcessInfo)
        → any (accounts q v) (plan fl snap procs) ≡ true
        → is_listed procs ≡ true
    plan-listed v procs h = elim (any-plan v procs h) [
      | inl (inl e) ↦ throttle_plan-listed v high_cpu_rule (cpu_reason fl snap) procs e
      | inl (inr e) ↦ throttle_plan-listed v high_load_rule (load_reason fl snap) procs e
      | inr (low, e) ↦ restore_plan-listed v (restore_reason fl snap) procs e
    ]

    plan-top :
        (v : Option ℤ) (t : ProcessInfo) (procs : List ProcessInfo)
        → is_cpu_low fl snap ≡ false
        → any (accounts q v) (plan fl snap (t ∷ procs)) ≡ true
        → (q ≡ t.pid) × (v ≡ some (throttled t.nice))
    plan-top v t procs busy h = elim (any-plan v (t ∷ procs) h) [
      | inl (inl e) ↦ throttle_plan-told v high_cpu_rule (cpu_reason fl snap) t procs e
      | inl (inr e) ↦ throttle_plan-told v high_load_rule (load_reason fl snap) t procs e
      | inr (low, e) ↦ cc
    ]

module _ {W F : Type 0} (nice_of : W → ℤ → Option ℤ) (os : Os W) (fl : Float F)
    (db_conn : Option (Database W F)) (snap : SystemSnapshot F) (w₀ : W)
    (procs : List ProcessInfo) where
  -- The call returned, its events are the plan for the processes that the scan has found, and every
  -- nice value is as it was after the scan or is told by an event.
  abbrev pub Finished : Result (List Event) × W → Type 0
  Finished (ok evs, w') =
      (map unapplied evs ≡ plan fl snap (user_procs procs))
      × ((q : ℤ) → (nice_of w' q ≡ nice_of w₀ q) ⊎ (any (accounts q (nice_of w' q)) evs ≡ true))
  Finished (raised _, w') = ⊥

  finish :
      (out : Result (List Event) × W)
      → Decides (plan fl snap (user_procs procs)) out
      → ((q : ℤ) → Traced nice_of q w₀ out)
      → Finished out
  finish (ok evs, w') d t = (d, t)
  finish (raised e, w') d t = t (pos 0)

  pub run_heuristics_of_scan :
      (w : W)
      → list_processes os w ≡ (ok procs, w₀)
      → run_heuristics os fl db_conn snap w ≡ apply_rules os fl db_conn snap (user_procs procs) w₀
  unfolding run_heuristics
  run_heuristics_of_scan w scan =
      ap
        (λ (out : Result (List ProcessInfo) × W). elim out.0 [
          | ok found ↦ apply_rules os fl db_conn snap (user_procs found) out.1
          | raised e ↦ (raised e, out.1)
        ])
        scan

  module _ (laws : IsLawful nice_of os) (quiet : AllQuiet nice_of db_conn) where
    -- On a machine and a connection that meet the laws, for a call whose scan has found processes
    -- with numbers and nice values in their ranges: it returns, its events, but for `applied`, are
    -- those of the plan, and every nice value is as it was after the scan or is told by an event.
    pub run_heuristics-Finished :
        (w : W)
        → list_processes os w ≡ (ok procs, w₀)
        → All IsSound procs
        → Finished (run_heuristics os fl db_conn snap w)
    run_heuristics-Finished w scan sound = rw (run_heuristics_of_scan w scan) (
        finish (apply_rules os fl db_conn snap (user_procs procs) w₀)
          (apply_rules-Decides os fl db_conn snap (user_procs procs) w₀)
          λ q.
            apply_rules-Traced nice_of q os fl db_conn laws quiet snap (user_procs procs) w₀
              (user_procs-All IsSound procs sound))

  Finished-untouched :
      (q : ℤ) (out : Result (List Event) × W)
      → is_listed q (user_procs procs) ≡ false
      → Finished out
      → nice_of out.1 q ≡ nice_of w₀ q
  Finished-untouched q (ok evs, w') absent (p, t) = elim (t q) [
    | inl same ↦ same
    | inr told ↦ cc (
        plan-listed q fl snap (nice_of w' q) (user_procs procs) (
          ap (any (accounts q (nice_of w' q))) (sym p)
          ∙ any-accounts-unapplied q (nice_of w' q) evs
          ∙ told))
  ]
  Finished-untouched q (raised e, w') absent h = absurd h

  Finished-top :
      (q : ℤ) (t : ProcessInfo) (rest : List ProcessInfo) (out : Result (List Event) × W)
      → user_procs procs ≡ t ∷ rest
      → is_cpu_low fl snap ≡ false
      → Finished out
      → (nice_of out.1 q ≡ nice_of w₀ q)
        ⊎ ((q ≡ t.pid) × (nice_of out.1 q ≡ some (throttled t.nice)))
  Finished-top q t rest (ok evs, w') top busy (p, told) = elim (told q) [
    | inl same ↦ inl same
    | inr e ↦ inr (
        plan-top q fl snap (nice_of w' q) t rest busy (
          ap (λ l. any (accounts q (nice_of w' q)) (plan fl snap l)) (sym top)
          ∙ ap (any (accounts q (nice_of w' q))) (sym p)
          ∙ any-accounts-unapplied q (nice_of w' q) evs
          ∙ e))
  ]
  Finished-top q t rest (raised e, w') top busy h = absurd h

  module _ (laws : IsLawful nice_of os) (quiet : AllQuiet nice_of db_conn) where
    -- On a machine and a connection that meet the laws, for a scan of processes in their ranges: a
    -- process that is not among the user processes of the scan has the nice value that it had
    -- after the scan.
    pub run_heuristics_untouched :
        (w : W) (q : ℤ)
        → list_processes os w ≡ (ok procs, w₀)
        → All IsSound procs
        → is_listed q (user_procs procs) ≡ false
        → nice_of (run_heuristics os fl db_conn snap w).1 q ≡ nice_of w₀ q
    run_heuristics_untouched w q scan sound absent =
        Finished-untouched q (run_heuristics os fl db_conn snap w) absent
          (run_heuristics-Finished laws quiet w scan sound)

    -- On a machine and a connection that meet the laws, for a scan of processes in their ranges,
    -- and while the processor's load is not below 20%: a call changes at most the nice value of
    -- the user process with the most CPU time, and that to the throttled value of the scan's, also
    -- if two rules ask for it.
    pub run_heuristics_top :
        (w : W) (q : ℤ) (t : ProcessInfo) (rest : List ProcessInfo)
        → list_processes os w ≡ (ok procs, w₀)
        → All IsSound procs
        → user_procs procs ≡ t ∷ rest
        → is_cpu_low fl snap ≡ false
        → (nice_of (run_heuristics os fl db_conn snap w).1 q ≡ nice_of w₀ q)
          ⊎ ((q ≡ t.pid)
              × (nice_of (run_heuristics os fl db_conn snap w).1 q ≡ some (throttled t.nice)))
    run_heuristics_top w q t rest scan sound top busy =
        Finished-top q t rest (run_heuristics os fl db_conn snap w) top busy
          (run_heuristics-Finished laws quiet w scan sound)
