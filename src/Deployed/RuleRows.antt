-- ===== src/Deployed/RuleRows.antt =====
-- The four deployed rules with a database that carries out every call.
use ai_m_os.Common.{
  pos, ltb_ℤ, eqb_ℤ, ◌≡◌, refl, ◌∙◌, sym, ap, Bool, none, some, List, [], ◌∷◌, ◌++◌, ok, Result,
  Text, codes, Bool-cases, inl, inr,
}
use mathlib.Core.List.{append-nil}
use ai_m_os.Common.Action.{◌>>◌, pure}
use ai_m_os.Float.{Float}
use ai_m_os.Snapshot.{SystemSnapshot}
use ai_m_os.Database.{Row}
use ai_m_os.Database.Recorder.{Store, saved, recorder}
use ai_m_os.Logger.{log_scheduler_event}
use ai_m_os.Machine.{Os}
use ai_m_os.Machine.Beside.{beside_os}
use ai_m_os.Heuristics.{
  ProcessInfo, renice_action, high_cpu_rule, high_load_rule, low_cpu_restore_rule, top_rss, mem_pct,
  load_limit, throttled,
}
use ai_m_os.Heuristics.Audit.{Audited, in_turn-Audited, renice-Audited}
use ai_m_os.Deployed.Heuristics.{
  Event, report, high_cpu, suggest_kill, high_mem, high_load, restore, restore_all, low_cpu_restore,
}
use ai_m_os.Deployed.Rows.{cpu_rows, cpu_rows-append}

module _ {W F : Type 0} (os : Os W) (fl : Float F) (snap : SystemSnapshot F) where
  abbrev pub beside : Os (W × Store F)
  beside = beside_os (Store F) os

  abbrev pub Recorded :
      List (Row F) → Result (List Event) × W → Result (List Event) × (W × Store F) → Type 0
  Recorded = Audited cpu_rows cpu_rows-append

  nothing : (rows : List (Row F)) (w : W) → Recorded rows (ok [], w) (ok [], (w, saved rows))
  nothing rows w = ap (λ l. (ok [], (w, saved l))) (sym (append-nil rows))

  -- An event that is told to the caller only.
  untold :
      (ev : Event) (rows : List (Row F)) (w : W)
      → cpu_rows {F = F} (ev ∷ []) ≡ []
      → Recorded rows (ok (ev ∷ []), w) (ok (ev ∷ []), (w, saved rows))
  untold ev rows w e =
      ap (λ l. (ok (ev ∷ []), (w, saved l))) (sym (append-nil rows) ∙ ap (λ l. rows ++ l) (sym e))

  -- The events of the three rules that call `renice`.
  abbrev cpu_reason : Text
  cpu_reason = codes "CPU " ++ fl.show_1 snap.cpu_total_pct ++ codes "% > 85%"

  abbrev cpu_event : ProcessInfo → Bool → Event
  cpu_event t done = record {
    rule = high_cpu_rule;
    pid = t.pid;
    name = t.name;
    action = renice_action;
    old_nice = some t.nice;
    new_nice = some (throttled t.nice);
    reason = cpu_reason;
    applied = some done;
  }

  abbrev load_event : ProcessInfo → Bool → Event
  load_event t done = record {
    rule = high_load_rule;
    pid = t.pid;
    name = t.name;
    action = renice_action;
    old_nice = some t.nice;
    new_nice = some (throttled t.nice);
    reason =
        codes "load_avg "
        ++ fl.show_2 snap.load_avg_1
        ++ codes " > "
        ++ fl.show_1 (load_limit fl snap);
    applied = some done;
  }

  abbrev restore_event : ProcessInfo → Event
  restore_event p = record {
    rule = low_cpu_restore_rule;
    pid = p.pid;
    name = p.name;
    action = renice_action;
    old_nice = some p.nice;
    new_nice = some (pos 0);
    reason = codes "CPU " ++ fl.show_1 snap.cpu_total_pct ++ codes "% < 20%, restoring";
    applied = none;
  }

  pub high_cpu-Recorded :
      (procs : List ProcessInfo) (rows : List (Row F)) (w : W)
      → Recorded rows
          (high_cpu os fl none snap procs w)
          (high_cpu beside fl (some recorder) snap procs (w, saved rows))
  unfolding high_cpu report log_scheduler_event
  high_cpu-Recorded [] rows w = nothing rows w
  high_cpu-Recorded (t ∷ procs) rows w =
      elim (Bool-cases (fl.lt (fl.of_int (pos 85)) snap.cpu_total_pct)) [
        | inr e ↦ rw e (nothing rows w)
        | inl e ↦ elim (Bool-cases (eqb_ℤ (throttled t.nice) t.nice)) [
          | inl f ↦ rw (e, f) (nothing rows w)
          | inr f ↦
              rw (e, f)
                (renice-Audited cpu_rows cpu_rows-append os t.pid (throttled t.nice)
                  (λ b.
                    report os fl none t.pid t.nice (throttled t.nice) cpu_reason
                    >> pure (cpu_event t b ∷ []))
                  (λ b.
                    report beside fl (some recorder) t.pid t.nice (throttled t.nice) cpu_reason
                    >> pure (cpu_event t b ∷ []))
                  rows w λ b v. refl)
        ]
      ]

  pub high_load-Recorded :
      (procs : List ProcessInfo) (rows : List (Row F)) (w : W)
      → Recorded rows
          (high_load os fl none snap procs w)
          (high_load beside fl (some recorder) snap procs (w, saved rows))
  unfolding high_load
  high_load-Recorded [] rows w = nothing rows w
  high_load-Recorded (t ∷ procs) rows w =
      elim (Bool-cases (fl.lt (load_limit fl snap) snap.load_avg_1)) [
        | inr e ↦ rw e (nothing rows w)
        | inl e ↦ elim (Bool-cases (eqb_ℤ (throttled t.nice) t.nice)) [
          | inl f ↦ rw (e, f) (nothing rows w)
          | inr f ↦
              rw (e, f)
                (renice-Audited cpu_rows cpu_rows-append os t.pid (throttled t.nice)
                  (λ b. pure (load_event t b ∷ [])) (λ b. pure (load_event t b ∷ [])) rows w
                  λ b v. untold (load_event t b) rows v refl)
        ]
      ]

  suggest_kill-Recorded :
      (procs : List ProcessInfo) (rows : List (Row F)) (w : W)
      → Recorded rows
          (suggest_kill os fl none snap procs w)
          (suggest_kill beside fl (some recorder) snap procs (w, saved rows))
  unfolding suggest_kill
  suggest_kill-Recorded [] rows w = nothing rows w
  suggest_kill-Recorded (p ∷ procs) rows w = untold _ rows w refl

  pub high_mem-Recorded :
      (procs : List ProcessInfo) (rows : List (Row F)) (w : W)
      → Recorded rows
          (high_mem os fl none snap procs w)
          (high_mem beside fl (some recorder) snap procs (w, saved rows))
  unfolding high_mem
  high_mem-Recorded procs rows w = elim (Bool-cases (ltb_ℤ (pos 0) snap.mem_total_kb)) [
    | inr e ↦ rw e (nothing rows w)
    | inl e ↦ elim (Bool-cases (fl.lt (fl.of_int (pos 90)) (mem_pct fl snap))) [
      | inl f ↦ rw (e, f) (suggest_kill-Recorded (top_rss procs) rows w)
      | inr f ↦ rw (e, f) (nothing rows w)
    ]
  ]

  restore-Recorded :
      (p : ProcessInfo) (rows : List (Row F)) (w : W)
      → Recorded rows
          (restore os fl none snap p w)
          (restore beside fl (some recorder) snap p (w, saved rows))
  unfolding restore
  restore-Recorded p rows w =
      renice-Audited cpu_rows cpu_rows-append os p.pid (pos 0) (λ _. pure (restore_event p ∷ []))
        (λ _. pure (restore_event p ∷ [])) rows w λ b v. untold (restore_event p) rows v refl

  restore_all-Recorded :
      (procs : List ProcessInfo) (rows : List (Row F)) (w : W)
      → Recorded rows
          (restore_all os fl none snap procs w)
          (restore_all beside fl (some recorder) snap procs (w, saved rows))
  unfolding restore_all
  restore_all-Recorded [] rows w = nothing rows w
  restore_all-Recorded (p ∷ procs) rows w = elim (Bool-cases (ltb_ℤ (pos 0) p.nice)) [
    | inr e ↦ rw e (restore_all-Recorded procs rows w)
    | inl e ↦ rw e (
        in_turn-Audited cpu_rows cpu_rows-append (restore os fl none snap p)
          (restore_all os fl none snap procs) (restore beside fl (some recorder) snap p)
          (restore_all beside fl (some recorder) snap procs) rows w (restore-Recorded p rows w)
          (restore_all-Recorded procs))
  ]

  pub low_cpu_restore-Recorded :
      (procs : List ProcessInfo) (rows : List (Row F)) (w : W)
      → Recorded rows
          (low_cpu_restore os fl none snap procs w)
          (low_cpu_restore beside fl (some recorder) snap procs (w, saved rows))
  unfolding low_cpu_restore
  low_cpu_restore-Recorded procs rows w =
      elim (Bool-cases (fl.lt snap.cpu_total_pct (fl.of_int (pos 20)))) [
        | inl e ↦ rw e (restore_all-Recorded procs rows w)
        | inr e ↦ rw e (nothing rows w)
      ]
