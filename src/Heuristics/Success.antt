-- ===== src/Heuristics/Success.antt =====
-- ai-daemon/scheduler/heuristics.py where the caller may set the priority.
use ai_m_os.Common.{
  ℤ, pos, ◌≡◌, refl, eqb_ℤ, Bool, true, false, ◌&&◌, Option, none, some, ok, raised, Result, arith,
  List, ◌∷◌, Text, subst, sym,
}
use ai_m_os.Common.Lists.{any}
use ai_m_os.Float.{Float}
use ai_m_os.Snapshot.{SystemSnapshot}
use ai_m_os.Database.{Database}
use ai_m_os.Machine.{Os}
use ai_m_os.Machine.Laws.{clamp_nice-eq_self, Sets, IsLawful}
use ai_m_os.KernelIface.Renice.{renice_via_kernel_permitted}
use ai_m_os.Heuristics.{
  ProcessInfo, Event, Rule, renice_action, emit, throttled, throttle, high_cpu, high_cpu_rule,
}
use ai_m_os.Heuristics.Effects.{IsSound, AllQuiet, report_at, throttled-IsNice}

abbrev pub is_applied : Option Bool → Bool
is_applied none = false
is_applied (some b) = b

module _ {W F : Type 0} (nice_of : W → ℤ → Option ℤ) (os : Os W) (fl : Float F)
    (db_conn : Option (Database W F)) where
  -- The rule returned, an event says that it was applied to `t`, and `t` has its throttled value.
  abbrev pub Applied : ProcessInfo → Result (List Event) × W → Type 0
  Applied t (ok evs, w') =
      (any (λ ev. eqb_ℤ ev.pid t.pid && is_applied ev.applied) evs ≡ true)
      × (nice_of w' t.pid ≡ some (throttled t.nice))
  Applied t (raised _, w') = ⊥

  module _ (laws : IsLawful nice_of os) (quiet : AllQuiet nice_of db_conn) where
    emit-Applied :
        (t : ProcessInfo) (ev : Event) (w : W)
        → eqb_ℤ ev.pid t.pid ≡ true
        → ev.applied ≡ some true
        → nice_of w t.pid ≡ some (throttled t.nice)
        → Applied t (emit os fl db_conn ev w)
    unfolding emit
    emit-Applied t ev w same applied value =
        ground (arith, report_at nice_of t.pid os fl db_conn quiet ev w)

    throttle-Applied :
        (rule : Rule) (reason : Text) (t : ProcessInfo) (m : ℤ) (w w₁ : W)
        → IsSound t
        → eqb_ℤ (throttled t.nice) t.nice ≡ false
        → nice_of w t.pid ≡ some m
        → os.setpriority t.pid (throttled t.nice) w ≡ (ok tt, w₁)
        → Applied t (throttle os fl db_conn rule reason t w)
    unfolding throttle
    throttle-Applied rule reason t m w w₁ sound differs live permitted =
        let nice = throttled-IsNice t.nice sound.1 in
        let (w', e, sets) =
          renice_via_kernel_permitted nice_of os laws t.pid (throttled t.nice) m w w₁ sound.0
            (omega arith) live permitted in
        let exact =
          subst (λ v. Sets nice_of w t.pid v w') (clamp_nice-eq_self (throttled t.nice) nice)
            sets in
        let value : nice_of w' t.pid ≡ some (throttled t.nice) = ground (arith, exact t.pid) in
        let ev : Bool → Event = λ done. record {
          rule = rule;
          pid = t.pid;
          name = t.name;
          action = renice_action;
          old_nice = t.nice;
          new_nice = throttled t.nice;
          reason = reason;
          applied = some done;
        } in
        rw differs (
          subst
            (λ (out : Result Bool × W). Applied t (elim out.0 [
              | ok done ↦ emit os fl db_conn (ev done) out.1
              | raised x ↦ (raised x, out.1)
            ]))
            (sym e) (emit-Applied t (ev true) w' (ground arith) refl value))

    -- On a machine and a connection that meet the laws, with the load above 85%, for a live process
    -- at the head whose throttled value differs from the scan's and is one that `setpriority` would
    -- set: the `high_cpu` rule returns an event that says it was applied to that process, and the
    -- process has the throttled value.
    pub high_cpu-Applied :
        (snap : SystemSnapshot F) (t : ProcessInfo) (rest : List ProcessInfo) (m : ℤ) (w w₁ : W)
        → fl.lt (fl.of_int (pos 85)) snap.cpu_total_pct ≡ true
        → IsSound t
        → eqb_ℤ (throttled t.nice) t.nice ≡ false
        → nice_of w t.pid ≡ some m
        → os.setpriority t.pid (throttled t.nice) w ≡ (ok tt, w₁)
        → Applied t (high_cpu os fl db_conn snap (t ∷ rest) w)
    unfolding high_cpu
    high_cpu-Applied snap t rest m w w₁ high sound differs live permitted =
        rw high (throttle-Applied high_cpu_rule _ t m w w₁ sound differs live permitted)
