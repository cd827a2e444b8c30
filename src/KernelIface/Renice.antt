-- ===== src/KernelIface/Renice.antt =====
-- What `renice_via_kernel` does to the priorities, by which of its two ways it takes.
use ai_m_os.Common.{
  ℤ, ◌≡◌, refl, ◌≢◌, inl, inr, Bool, true, false, Option, none, some, ok, raised, Result, arith,
  Option-cases, subst,
}
use ai_m_os.Machine.{Os}
use ai_m_os.Machine.Laws.{
  clamp_nice, IsNice, clamp_nice-eq_self, IsPid, IsInt, Sets, Same, IsLawful, proc_iface,
}
use ai_m_os.KernelIface.{renice_fallback, renice_via_kernel}

module _ {W : Type 0} (nice_of : W → ℤ → Option ℤ) where
  -- The outcome of a call: true and the process has the value, false and nothing has changed.
  abbrev pub Reniced : W → ℤ → ℤ → Result Bool × W → Type 0
  Reniced w pid value (ok true, w') = (nice_of w pid ≢ none) × Sets nice_of w pid value w'
  Reniced w pid value (ok false, w') = Same nice_of w w'
  Reniced w pid value (raised _, w') = ⊥

  module _ (os : Os W) (laws : IsLawful nice_of os) where
    renice_fallback_lem :
        (pid n : ℤ) (w : W) → Reniced w pid (clamp_nice n) (renice_fallback os pid n w)
    unfolding renice_fallback
    renice_fallback_lem pid n w = elim (Option-cases (nice_of w pid)) [
      | inl dead ↦ ground (arith, laws.getpriority_dead pid w dead)
      | inr (m, live) ↦
          ground (arith, laws.getpriority_live pid w live, laws.setpriority_live pid n w)
    ]

    -- On a machine that meets the laws, for a process number and a nice value that fit the
    -- kernel's types, a call raises nothing. True: the process lives and has the value, brought
    -- into [-20, 19], and no other nice value has changed. False: none has changed.
    pub renice_via_kernel_lem :
        (pid n : ℤ) (w : W)
        → IsPid pid
        → IsInt n
        → Reniced w pid (clamp_nice n) (renice_via_kernel os pid n w)
    unfolding renice_via_kernel
    renice_via_kernel_lem pid n w p i = ground (
      arith,
      laws.exists_lem proc_iface w,
      laws.write_line pid n w p i,
      renice_fallback_lem pid n w,
    )

    -- In the range of nice values the process has the value that was asked for.
    pub renice_via_kernel_in_range :
        (pid n : ℤ) (w : W) → IsPid pid → IsNice n → Reniced w pid n (renice_via_kernel os pid n w)
    renice_via_kernel_in_range pid n w p h =
        subst (λ v. Reniced w pid v (renice_via_kernel os pid n w)) (clamp_nice-eq_self n h)
          (renice_via_kernel_lem pid n w p (omega arith))

    -- On a machine that meets the laws, for a process number and a nice value that fit the
    -- kernel's types, a call for a process that is gone returns false and changes no nice value.
    pub renice_via_kernel_dead :
        (pid n : ℤ) (w : W)
        → IsPid pid
        → IsInt n
        → nice_of w pid ≡ none
        → (w' : W) × (renice_via_kernel os pid n w ≡ (ok false, w')) × Same nice_of w w'
    renice_via_kernel_dead pid n w p i dead =
        settled (renice_via_kernel os pid n w) refl (renice_via_kernel_lem pid n w p i)
      where
        settled :
            (out : Result Bool × W)
            → renice_via_kernel os pid n w ≡ out
            → Reniced w pid (clamp_nice n) out
            → (w' : W) × (renice_via_kernel os pid n w ≡ (ok false, w')) × Same nice_of w w'
        settled (ok true, w') e h = absurd (h.0 dead)
        settled (ok false, w') e h = (w', e, h)
        settled (raised x, w') e h = absurd h

    renice_via_kernel-true :
        (pid n m : ℤ) (w w₁ : W)
        → IsPid pid
        → IsInt n
        → nice_of w pid ≡ some m
        → os.setpriority pid n w ≡ (ok tt, w₁)
        → (renice_via_kernel os pid n w).0 ≡ ok true
    unfolding renice_via_kernel renice_fallback
    renice_via_kernel-true pid n m w w₁ p i live permitted = ground (
      arith,
      laws.exists_lem proc_iface w,
      laws.write_line pid n w p i,
      laws.getpriority_live pid w live,
    )

    -- On a machine that meets the laws, for a live process and a value that `setpriority` would
    -- set: a call returns true, the process has the value, brought into [-20, 19], and no other
    -- nice value has changed, whether the module takes the line or not.
    pub renice_via_kernel_permitted :
        (pid n m : ℤ) (w w₁ : W)
        → IsPid pid
        → IsInt n
        → nice_of w pid ≡ some m
        → os.setpriority pid n w ≡ (ok tt, w₁)
        → (w' : W) × (renice_via_kernel os pid n w ≡ (ok true, w'))
          × Sets nice_of w pid (clamp_nice n) w'
    renice_via_kernel_permitted pid n m w w₁ p i live permitted =
        settled (renice_via_kernel os pid n w) refl (renice_via_kernel_lem pid n w p i)
          (renice_via_kernel-true pid n m w w₁ p i live permitted)
      where
        settled :
            (out : Result Bool × W)
            → renice_via_kernel os pid n w ≡ out
            → Reniced w pid (clamp_nice n) out
            → (renice_via_kernel os pid n w).0 ≡ ok true
            → (w' : W) × (renice_via_kernel os pid n w ≡ (ok true, w'))
              × Sets nice_of w pid (clamp_nice n) w'
        settled (ok true, w') e h t = (w', e, h.1)
        settled (ok false, w') e h t = cc
        settled (raised x, w') e h t = absurd h
