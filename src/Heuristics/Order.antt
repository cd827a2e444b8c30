-- ===== src/Heuristics/Order.antt =====
-- Which process stands first, and which rules can meet in one call.
use mathlib.Core.List.{Perm}
use ai_m_os.Common.{
  ℤ, pos, eqb_ℤ, ◌≡◌, ◌≢◌, refl, ap, inl, inr, Bool, true, false, List, [], ◌∷◌, ◌++◌, map, arith,
  Bool-cases, ◌||◌, Text, Option, Result, ok, raised, sym, ◌∙◌, subst,
}
use ai_m_os.Common.Lists.{any, any-append, filter}
use ai_m_os.Common.Sort.{IsFalling, with_key, sort_desc-perm, sort_desc-IsFalling, sort_desc-stable}
use ai_m_os.Float.{Float, IsRounding}
use ai_m_os.Database.{Database}
use ai_m_os.Machine.{Os}
use ai_m_os.Snapshot.{SystemSnapshot}
use ai_m_os.Heuristics.{
  ProcessInfo, Event, user_procs, list_processes, apply_rules, run_heuristics, is_user, top_rss,
  high_cpu_rule, high_load_rule, low_cpu_restore_rule,
}
use ai_m_os.Heuristics.Plan.{
  unapplied, plan, only_if, throttle_plan, restore_plan, kill_plan, is_cpu_low, is_cpu_high,
  is_mem_high, is_load_high, cpu_reason, mem_reason, load_reason, restore_reason,
}
use ai_m_os.Heuristics.Decides.{Decides, apply_rules-Decides}

-- The processes of a list whose user is not root, in their order.
pub data Users : List ProcessInfo → List ProcessInfo → Type 0 where
  none_left : Users [] []
  of_root :
      {p : ProcessInfo} {procs users : List ProcessInfo}
      → p.uid ≡ pos 0
      → Users procs users
      → Users (p ∷ procs) users
  of_user :
      {p : ProcessInfo} {procs users : List ProcessInfo}
      → p.uid ≢ pos 0
      → Users procs users
      → Users (p ∷ procs) (p ∷ users)

Users-filter : (procs : List ProcessInfo) → Users procs (filter is_user procs)
Users-filter [] = none_left
Users-filter (p ∷ procs) = elim (Bool-cases (eqb_ℤ p.uid (pos 0))) [
  | inl e ↦ rw e (of_root (ground (arith, e)) (Users-filter procs))
  | inr e ↦ rw e (of_user (λ h. ground (arith, e, h)) (Users-filter procs))
]

-- The user processes of a scan are those whose Uid is not 0, each as often as the scan has it. None
-- of them has more CPU time than one that stands before it, and those with the same CPU time stand
-- in the order of the scan.
pub user_procs_lem :
    (procs : List ProcessInfo)
    → (users : List ProcessInfo) × Users procs users
      × Perm (user_procs procs) users
      × IsFalling (λ p. p.cpu_time) (user_procs procs)
      × ((t : ℤ)
          → with_key (λ p. p.cpu_time) t (user_procs procs) ≡ with_key (λ p. p.cpu_time) t users)
unfolding user_procs
user_procs_lem procs = (
  filter is_user procs,
  Users-filter procs,
  sort_desc-perm (λ p. p.cpu_time) (filter is_user procs),
  sort_desc-IsFalling (λ p. p.cpu_time) (filter is_user procs),
  λ t. sort_desc-stable (λ p. p.cpu_time) t (filter is_user procs),
)

abbrev pub is_high_cpu : Event → Bool
is_high_cpu ev = elim (ev.rule) [ high_cpu_rule ↦ true | _ ↦ false ]

abbrev pub is_restore : Event → Bool
is_restore ev = elim (ev.rule) [ low_cpu_restore_rule ↦ true | _ ↦ false ]

any-unapplied_cpu : (evs : List Event) → any is_high_cpu (map unapplied evs) ≡ any is_high_cpu evs
any-unapplied_cpu [] = refl
any-unapplied_cpu (ev ∷ evs) = ap (λ b. is_high_cpu ev || b) (any-unapplied_cpu evs)

any-unapplied_restore : (evs : List Event) → any is_restore (map unapplied evs) ≡ any is_restore evs
any-unapplied_restore [] = refl
any-unapplied_restore (ev ∷ evs) = ap (λ b. is_restore ev || b) (any-unapplied_restore evs)

restore_plan-cpu :
    (reason : Text) (procs : List ProcessInfo) → any is_high_cpu (restore_plan reason procs) ≡ false
restore_plan-cpu reason [] = refl
restore_plan-cpu reason (p ∷ procs) = ground (arith, restore_plan-cpu reason procs)

load_plan_neither :
    (reason : Text) (procs : List ProcessInfo)
    → (any is_high_cpu (throttle_plan high_load_rule reason procs) ≡ false)
      × (any is_restore (throttle_plan high_load_rule reason procs) ≡ false)
load_plan_neither reason [] = (refl, refl)
load_plan_neither reason (t ∷ procs) = ground arith

cpu_plan-restore :
    (reason : Text) (procs : List ProcessInfo)
    → any is_restore (throttle_plan high_cpu_rule reason procs) ≡ false
cpu_plan-restore reason [] = refl
cpu_plan-restore reason (t ∷ procs) = ground arith

kill_plan_neither :
    (reason : Text) (procs : List ProcessInfo)
    → (any is_high_cpu (kill_plan reason procs) ≡ false)
      × (any is_restore (kill_plan reason procs) ≡ false)
kill_plan_neither reason [] = (refl, refl)
kill_plan_neither reason (t ∷ procs) = (refl, refl)

module _ {F : Type 0} (fl : Float F) (laws : IsRounding fl) (snap : SystemSnapshot F) where
  is_cpu_low-high : is_cpu_high fl snap ≡ true → is_cpu_low fl snap ≡ false
  is_cpu_low-high high = elim (Bool-cases (is_cpu_low fl snap)) [
    | inr e ↦ e
    | inl low ↦
        let bad =
          laws.lt_trans (fl.of_int (pos 85)) snap.cpu_total_pct (fl.of_int (pos 20)) high low in
        let off = laws.lt-of_int 85 20 (omega arith) (omega arith) in cc (bad, off)
  ]

  plan-exclusive :
      (procs : List ProcessInfo)
      → any is_high_cpu (plan fl snap procs) ≡ true
      → any is_restore (plan fl snap procs) ≡ false
  plan-exclusive procs h =
      let cpu =
        only_if (is_cpu_high fl snap) (throttle_plan high_cpu_rule (cpu_reason fl snap) procs) in
      let mem = only_if (is_mem_high fl snap) (kill_plan (mem_reason fl snap) (top_rss procs)) in
      let load =
        only_if (is_load_high fl snap) (throttle_plan high_load_rule (load_reason fl snap) procs) in
      let low = only_if (is_cpu_low fl snap) (restore_plan (restore_reason fl snap) procs) in
      ground (
        arith,
        any-append is_high_cpu cpu (mem ++ (load ++ low)),
        any-append is_high_cpu mem (load ++ low),
        any-append is_high_cpu load low,
        any-append is_restore cpu (mem ++ (load ++ low)),
        any-append is_restore mem (load ++ low),
        any-append is_restore load low,
        is_cpu_low-high,
        restore_plan-cpu (restore_reason fl snap) procs,
        load_plan_neither (load_reason fl snap) procs,
        cpu_plan-restore (cpu_reason fl snap) procs,
        kill_plan_neither (mem_reason fl snap) (top_rss procs),
      )

  module _ {W : Type 0} (os : Os W) (db_conn : Option (Database W F)) where
    planned :
        (out : Result (List ProcessInfo) × W) (evs : List Event) (w' : W)
        → (elim out.0 [
          | ok procs ↦ apply_rules os fl db_conn snap (user_procs procs) out.1
          | raised e ↦ (raised e, out.1)
        ])
          ≡ (ok evs, w')
        → (procs : List ProcessInfo) × (map unapplied evs ≡ plan fl snap procs)
    planned (ok procs, v) evs w' h = (
      user_procs procs,
      subst (Decides (plan fl snap (user_procs procs))) h
          (apply_rules-Decides os fl db_conn snap (user_procs procs) v),
    )
    planned (raised e, v) evs w' h = cc

    -- With comparisons that round as IEEE 754 has it, a call that returns an event of the
    -- `high_cpu` rule returns none of the `low_cpu_restore` rule.
    pub run_heuristics_exclusive :
        (w w' : W) (evs : List Event)
        → run_heuristics os fl db_conn snap w ≡ (ok evs, w')
        → any is_high_cpu evs ≡ true
        → any is_restore evs ≡ false
    unfolding run_heuristics
    run_heuristics_exclusive w w' evs h e =
        let (procs, p) = planned (list_processes os w) evs w' h in
        let cpu = ap (any is_high_cpu) (sym p) ∙ any-unapplied_cpu evs ∙ e in
        sym (any-unapplied_restore evs) ∙ ap (any is_restore) p ∙ plan-exclusive procs cpu
