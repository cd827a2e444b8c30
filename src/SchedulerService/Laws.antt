-- ===== src/SchedulerService/Laws.antt =====
-- What a call of `SetProcessPriority` does to the priorities and which signal it sends.
use ai_m_os.Common.{
  ℤ, pos, negsuc, ◌≡◌, ◌≢◌, Bool, true, false, Option, none, some, subst, ok, raised, Result, arith,
  ◌++◌, ◌∷◌, [], inl, inr, Option-cases, Bool-cases, ◌&&◌, leb_ℤ,
}
use mathlib.Core.Option.{get_or}
use ai_m_os.Machine.{Os}
use ai_m_os.Machine.Laws.{clamp_nice-eq_self, IsNice, IsPid, Sets, Same, IsLawful}
use ai_m_os.KernelIface.Renice.{renice_via_kernel_in_range, renice_via_kernel_permitted}
use ai_m_os.SchedulerService.{
  Service, set_process_priority, get_process_priority, get_nice, priority_changed,
}

module _ {W : Type 0} (nice_of : W → ℤ → Option ℤ) (os : Os W) where
  -- True: the value was set, and one signal carries the value that stood before. False: no nice
  -- value has changed and no signal was sent.
  abbrev pub SetPriority : Service os → ℤ → ℤ → Result Bool × Service os → Type 0
  SetPriority s pid n (ok true, s') =
      IsNice n
      × (nice_of s.0 pid ≢ none)
      × Sets nice_of s.0 pid n s'.0
      × (s'.1 ≡ s.1 ++ (pid, get_or (nice_of s.0 pid) (pos 0), n) ∷ [])
  SetPriority s pid n (ok false, s') = Same nice_of s.0 s'.0 × (s'.1 ≡ s.1)
  SetPriority s pid n (raised _, s') = ⊥

  module _ (laws : IsLawful nice_of os) where
    -- On a machine that meets the laws, a call for a process number that a `pid_t` holds raises
    -- nothing. True: the value was in [-20, 19], the process lives and has it, no other nice value
    -- has changed, and one signal was sent, with the value that stood before. False: no nice value
    -- has changed and no signal was sent.
    pub set_process_priority_lem :
        (pid n : ℤ) (s : Service os)
        → IsPid pid
        → SetPriority s pid n (set_process_priority os pid n s)
    unfolding set_process_priority
    set_process_priority_lem pid n s p =
        elim (Bool-cases (leb_ℤ (negsuc 19) n && leb_ℤ n (pos 19))) [
          | inl fits ↦ elim (Option-cases (nice_of s.0 pid)) [
            | inl dead ↦ ground (
              arith,
              laws.getpriority_dead pid s.0 dead,
              renice_via_kernel_in_range nice_of os laws pid n s.0 p,
            )
            | inr (m, live) ↦ ground (
              arith,
              laws.getpriority_live pid s.0 live,
              renice_via_kernel_in_range nice_of os laws pid n s.0 p,
            )
          ]
          | inr unfit ↦ ground arith
        ]

    -- On a machine that meets the laws, after a call of `SetProcessPriority` for a process number
    -- has returned true, `GetProcessPriority` returns the value that was set, and changes nothing.
    pub get-set_process_priority :
        (pid n : ℤ) (s s' : Service os)
        → IsPid pid
        → set_process_priority os pid n s ≡ (ok true, s')
        → get_process_priority os pid s' ≡ (ok n, s')
    unfolding get_process_priority get_nice
    get-set_process_priority pid n s s' p e =
        let done = subst (SetPriority s pid n) e (set_process_priority_lem pid n s p) in
        let value : nice_of s'.0 pid ≡ some n = ground (arith, done.2 pid) in
        ground (arith, laws.getpriority_live pid s'.0 value)

    -- On a machine that meets the laws, for a live process and a value in [-20, 19] that
    -- `setpriority` would set: the call returns true, the process has the value, no other nice
    -- value has changed, and the one signal carries the value that stood before.
    pub set_process_priority_permitted :
        (pid n m : ℤ) (s : Service os) (w₁ : W)
        → IsPid pid
        → IsNice n
        → nice_of s.0 pid ≡ some m
        → os.setpriority pid n s.0 ≡ (ok tt, w₁)
        → (w' : W) × (set_process_priority os pid n s ≡ (ok true, (w', s.1 ++ (pid, m, n) ∷ [])))
          × Sets nice_of s.0 pid n w'
    unfolding set_process_priority get_nice priority_changed
    set_process_priority_permitted pid n m s w₁ p h live permitted =
        let (w', e, sets) =
          renice_via_kernel_permitted nice_of os laws pid n m s.0 w₁ p (omega arith) live
            permitted in
        let value = subst (λ v. Sets nice_of s.0 pid v w') (clamp_nice-eq_self n h) sets in
        let fits : (leb_ℤ (negsuc 19) n && leb_ℤ n (pos 19)) ≡ true = ground arith in
        (w', ground (arith, laws.getpriority_live pid s.0 live), value)
