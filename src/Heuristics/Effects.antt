-- ===== src/Heuristics/Effects.antt =====
-- What the four rules do to the priorities, beside the events that tell of it.
use ai_m_os.Common.{
  ℤ, pos, ◌≡◌, refl, ◌⊎◌, inl, inr, eqb_ℤ, ltb_ℤ, Bool, true, false, ◌&&◌, Option, none, some, ok,
  raised, Result, arith, List, [], ◌∷◌, ◌++◌, Text, if◌then◌else◌, Bool-cases,
}
use ai_m_os.Common.Int.{eqb_ℤ→eq}
use ai_m_os.Common.Lists.{any, any-append, All}
use ai_m_os.Common.Action.{M, ◌>>=◌, pure}
use ai_m_os.Float.{Float}
use ai_m_os.Snapshot.{SystemSnapshot}
use ai_m_os.Database.{Database}
use ai_m_os.Database.Laws.{IsQuiet, Returned}
use ai_m_os.Logger.Quiet.{log_scheduler_event-Returned}
use ai_m_os.Machine.{Os}
use ai_m_os.Machine.Laws.{IsNice, IsPid, IsLawful}
use ai_m_os.KernelIface.{renice_via_kernel}
use ai_m_os.KernelIface.Renice.{Reniced, renice_via_kernel_in_range}
use ai_m_os.Heuristics.{
  ProcessInfo, Event, Rule, RuleAction, renice_action, kill_suggestion, high_cpu_rule,
  high_load_rule, emit, in_turn, restore, suggest_kill, report, throttled, throttle, high_cpu,
  high_mem, high_load, restore_all, low_cpu_restore, apply_rules, top_rss, load_limit,
}

-- What `/proc` shows of a process: a process number and a nice value.
abbrev pub IsSound : ProcessInfo → Type 0
IsSound p = IsPid p.pid × IsNice p.nice

abbrev is_renice : RuleAction → Bool
is_renice renice_action = true
is_renice kill_suggestion = false

-- The event says that process `q` got the nice value `v`.
abbrev pub accounts : ℤ → Option ℤ → Event → Bool
accounts q none ev = false
accounts q (some v) ev = is_renice ev.action && eqb_ℤ q ev.pid && eqb_ℤ ev.new_nice v

pub throttled-IsNice : (n : ℤ) → IsNice n → IsNice (throttled n)
unfolding throttled
throttled-IsNice n h = ground arith

abbrev pub AllQuiet : {W F : Type 0} → (W → ℤ → Option ℤ) → Option (Database W F) → Type 0
AllQuiet nice_of none = Unit
AllQuiet nice_of (some db) = IsQuiet nice_of db

module _ {W : Type 0} (nice_of : W → ℤ → Option ℤ) (q : ℤ) where
  -- The rule returned, and the nice value of `q` is as before or is told by an event.
  abbrev pub Traced : W → Result (List Event) × W → Type 0
  Traced w (ok evs, w') =
      (nice_of w' q ≡ nice_of w q) ⊎ (any (accounts q (nice_of w' q)) evs ≡ true)
  Traced w (raised _, w') = ⊥

  -- The same of one call of `renice`.
  abbrev RenicedAt : W → ℤ → ℤ → Result Bool × W → Type 0
  RenicedAt w pid n (ok true, w') = nice_of w' q ≡ (if eqb_ℤ q pid then some n else nice_of w q)
  RenicedAt w pid n (ok false, w') = nice_of w' q ≡ nice_of w q
  RenicedAt w pid n (raised _, w') = ⊥

  Reniced-at :
      (w : W) (pid n : ℤ) (out : Result Bool × W)
      → Reniced nice_of w pid n out
      → RenicedAt w pid n out
  Reniced-at w pid n (ok true, w') h = h.1 q
  Reniced-at w pid n (ok false, w') h = h q
  Reniced-at w pid n (raised _, w') h = h

  abbrev pub ReturnedAt : W → Result (Unit {0}) × W → Type 0
  ReturnedAt w (ok _, w') = nice_of w' q ≡ nice_of w q
  ReturnedAt w (raised _, w') = ⊥

  Returned-at : (w : W) (out : Result (Unit {0}) × W) → Returned nice_of w out → ReturnedAt w out
  Returned-at w (ok _, w') h = h q
  Returned-at w (raised _, w') h = h

  pub report_at :
      {F : Type 0} (os : Os W) (fl : Float F) (db_conn : Option (Database W F))
      → AllQuiet nice_of db_conn
      → (ev : Event) (w : W) → ReturnedAt w (report os fl db_conn ev w)
  unfolding report
  report_at os fl none quiet ev w = refl
  report_at os fl (some db) quiet ev w =
      Returned-at w _
        (log_scheduler_event-Returned nice_of db quiet ev.pid _ ev.old_nice ev.new_nice ev.reason w)

  module _ {F : Type 0} (os : Os W) (fl : Float F) (db_conn : Option (Database W F))
      (laws : IsLawful nice_of os) (quiet : AllQuiet nice_of db_conn) where
    renice_at :
        (pid n : ℤ) (w : W)
        → IsPid pid
        → IsNice n
        → RenicedAt w pid n (renice_via_kernel os pid n w)
    renice_at pid n w p h =
        Reniced-at w pid n (renice_via_kernel os pid n w)
          (renice_via_kernel_in_range nice_of os laws pid n w p h)

    -- An event of what was done since `w`.
    emit-Traced :
        (w v : W) (ev : Event)
        → (nice_of v q ≡ nice_of w q) ⊎ (accounts q (nice_of v q) ev ≡ true)
        → Traced w (emit os fl db_conn ev v)
    unfolding emit
    emit-Traced w v ev h = ground (arith, report_at os fl db_conn quiet ev v)

    -- A `renice` and the event for it.
    renice_emit-Traced :
        (pid n : ℤ) (ev : Bool → Event) (w : W)
        → IsPid pid
        → IsNice n
        → ((b : Bool) → accounts pid (some n) (ev b) ≡ true)
        → Traced w ((renice_via_kernel os pid n >>= λ b. emit os fl db_conn (ev b)) w)
    renice_emit-Traced pid n ev w p h told =
        go (renice_via_kernel os pid n w) (renice_at pid n w p h)
      where
        go :
            (out : Result Bool × W)
            → RenicedAt w pid n out
            → Traced w (elim out.0 [
              | ok b ↦ emit os fl db_conn (ev b) out.1
              | raised e ↦ (raised e, out.1)
            ])
        go (ok true, v) r = emit-Traced w v (ev true) (ground (arith, told true, eqb_ℤ→eq q pid))
        go (ok false, v) r = emit-Traced w v (ev false) (inl r)
        go (raised e, v) r = r

    throttle-Traced :
        (rule : Rule) (reason : Text) (t : ProcessInfo) (w : W)
        → IsSound t
        → Traced w (throttle os fl db_conn rule reason t w)
    unfolding throttle
    throttle-Traced rule reason t w h = elim (Bool-cases (eqb_ℤ (throttled t.nice) t.nice)) [
      | inl e ↦ rw e (inl refl)
      | inr e ↦ rw e (
          renice_emit-Traced t.pid (throttled t.nice) _ w h.0 (throttled-IsNice t.nice h.1)
            λ b. ground arith)
    ]

    in_turn-Traced :
        (m k : M W (List Event)) (w : W)
        → Traced w (m w)
        → ((v : W) → Traced v (k v))
        → Traced w (in_turn m k w)
    in_turn-Traced m k w h g = go (m w) h
      where
        join :
            (first : List Event) (v : W) (out : Result (List Event) × W)
            → Traced w (ok first, v)
            → Traced v out
            → Traced w (elim out.0 [
              | ok second ↦ (ok (first ++ second), out.1)
              | raised e ↦ (raised e, out.1)
            ])
        join first v (ok second, u) a b =
            ground (arith, any-append (accounts q (nice_of u q)) first second)
        join first v (raised e, u) a b = b

        go :
            (out : Result (List Event) × W)
            → Traced w out
            → Traced w (elim out.0 [
              | ok first ↦ (k >>= λ second. pure (first ++ second)) out.1
              | raised e ↦ (raised e, out.1)
            ])
        go (ok first, v) r = join first v (k v) r (g v)
        go (raised e, v) r = r

    high_cpu-Traced :
        (snap : SystemSnapshot F) (procs : List ProcessInfo) (w : W)
        → All IsSound procs
        → Traced w (high_cpu os fl db_conn snap procs w)
    unfolding high_cpu
    high_cpu-Traced snap [] w h = inl refl
    high_cpu-Traced snap (t ∷ procs) w h =
        elim (Bool-cases (fl.lt (fl.of_int (pos 85)) snap.cpu_total_pct)) [
          | inl e ↦ rw e (throttle-Traced high_cpu_rule _ t w h.0)
          | inr e ↦ rw e (inl refl)
        ]

    high_load-Traced :
        (snap : SystemSnapshot F) (procs : List ProcessInfo) (w : W)
        → All IsSound procs
        → Traced w (high_load os fl db_conn snap procs w)
    unfolding high_load
    high_load-Traced snap [] w h = inl refl
    high_load-Traced snap (t ∷ procs) w h =
        elim (Bool-cases (fl.lt (load_limit fl snap) snap.load_avg_1)) [
          | inl e ↦ rw e (throttle-Traced high_load_rule _ t w h.0)
          | inr e ↦ rw e (inl refl)
        ]

    suggest_kill-Traced :
        (snap : SystemSnapshot F) (procs : List ProcessInfo) (w : W)
        → Traced w (suggest_kill os fl db_conn snap procs w)
    unfolding suggest_kill
    suggest_kill-Traced snap [] w = inl refl
    suggest_kill-Traced snap (p ∷ procs) w = emit-Traced w w _ (inl refl)

    high_mem-Traced :
        (snap : SystemSnapshot F) (procs : List ProcessInfo) (w : W)
        → Traced w (high_mem os fl db_conn snap procs w)
    unfolding high_mem
    high_mem-Traced snap procs w = ground (arith, suggest_kill-Traced snap (top_rss procs) w)

    restore-Traced :
        (snap : SystemSnapshot F) (p : ProcessInfo) (w : W)
        → IsSound p
        → Traced w (restore os fl db_conn snap p w)
    unfolding restore
    restore-Traced snap p w h =
        renice_emit-Traced p.pid (pos 0) _ w h.0 (omega arith) λ b. ground arith

    restore_all-Traced :
        (snap : SystemSnapshot F) (procs : List ProcessInfo) (w : W)
        → All IsSound procs
        → Traced w (restore_all os fl db_conn snap procs w)
    unfolding restore_all
    restore_all-Traced snap [] w h = inl refl
    restore_all-Traced snap (p ∷ procs) w h = elim (Bool-cases (ltb_ℤ (pos 0) p.nice)) [
      | inl e ↦ rw e (
          in_turn-Traced (restore os fl db_conn snap p) (restore_all os fl db_conn snap procs) w
            (restore-Traced snap p w h.0) (λ v. restore_all-Traced snap procs v h.1))
      | inr e ↦ rw e (restore_all-Traced snap procs w h.1)
    ]

    low_cpu_restore-Traced :
        (snap : SystemSnapshot F) (procs : List ProcessInfo) (w : W)
        → All IsSound procs
        → Traced w (low_cpu_restore os fl db_conn snap procs w)
    unfolding low_cpu_restore
    low_cpu_restore-Traced snap procs w h = ground (arith, restore_all-Traced snap procs w h)

    pub apply_rules-Traced :
        (snap : SystemSnapshot F) (procs : List ProcessInfo) (w : W)
        → All IsSound procs
        → Traced w (apply_rules os fl db_conn snap procs w)
    unfolding apply_rules
    apply_rules-Traced snap procs w h =
        let load = high_load os fl db_conn snap procs in
        let low = low_cpu_restore os fl db_conn snap procs in
        let mem = high_mem os fl db_conn snap procs in
        in_turn-Traced (high_cpu os fl db_conn snap procs) (in_turn mem (in_turn load low)) w
          (high_cpu-Traced snap procs w h)
          λ v. in_turn-Traced mem (in_turn load low) v (high_mem-Traced snap procs v) λ u.
            in_turn-Traced load low u (high_load-Traced snap procs u h)
              λ x. low_cpu_restore-Traced snap procs x h
