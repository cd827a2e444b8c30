-- ===== src/Heuristics/Enacts.antt =====
-- `run_heuristics` as the pure plan of the rules, carried out on the nice values.
use ai_m_os.Common.{ℤ, ◌≡◌, ◌≢◌, ◌∙◌, sym, ap, Option, none, ok, raised, Result, List, map}
use ai_m_os.Common.Lists.{All}
use ai_m_os.Float.{Float}
use ai_m_os.Snapshot.{SystemSnapshot}
use ai_m_os.Database.{Database}
use ai_m_os.Machine.{Os}
use ai_m_os.Machine.Laws.{IsLawful}
use ai_m_os.Heuristics.{ProcessInfo, Event, user_procs, list_processes, apply_rules, run_heuristics}
use ai_m_os.Heuristics.Effects.{IsSound, AllQuiet}
use ai_m_os.Heuristics.Plan.{unapplied, plan}
use ai_m_os.Heuristics.Decides.{Decides, apply_rules-Decides}
use ai_m_os.Heuristics.Decisions.{user_procs-All, run_heuristics_of_scan}
use ai_m_os.Heuristics.Changes.{changes, changes-unapplied, Performs, AreAlive}
use ai_m_os.Heuristics.Permitted.{apply_rules-Performs}

module _ {W : Type 0} (nice_of : W → ℤ → Option ℤ) where
  -- The code returned the decisions, and each nice value is what they make of the old one.
  abbrev pub Enacts : List Event → W → Result (List Event) × W → Type 0
  Enacts evs w (ok found, w') =
      (map unapplied found ≡ evs) × ((q : ℤ) → nice_of w' q ≡ changes evs (nice_of w) q)
  Enacts evs w (raised _, w') = ⊥

  Decides-Performs :
      (evs : List Event) (w : W) (out : Result (List Event) × W)
      → Decides evs out
      → Performs nice_of w out
      → Enacts evs w out
  Decides-Performs evs w (ok found, w') d p = (
    d,
    λ q.
        p q
        ∙ ap (λ f. f q) (sym (changes-unapplied found (nice_of w)))
        ∙ ap (λ l. changes l (nice_of w) q) d,
  )
  Decides-Performs evs w (raised e, w') d p = p

module _ {W F : Type 0} (nice_of : W → ℤ → Option ℤ) (os : Os W) (fl : Float F)
    (db_conn : Option (Database W F)) (laws : IsLawful nice_of os)
    (quiet : AllQuiet nice_of db_conn)
    (permits : (pid n : ℤ) (w : W)
      → nice_of w pid ≢ none
      → (w₁ : W) × (os.setpriority pid n w ≡ (ok tt, w₁))) where
  -- On a machine and a connection that meet the laws, for a caller to whom the machine refuses no
  -- priority of a live process, and for a scan that has found processes in their ranges whose user
  -- processes still live: the call returns, its events are, but for `applied`, the plan for the
  -- scan, and afterwards the nice value of every process is what the plan's events, one after the
  -- other, make of its value after the scan.
  pub run_heuristics-Enacts :
      (snap : SystemSnapshot F) (w w₀ : W) (procs : List ProcessInfo)
      → list_processes os w ≡ (ok procs, w₀)
      → All IsSound procs
      → AreAlive nice_of (user_procs procs) w₀
      → Enacts nice_of (plan fl snap (user_procs procs)) w₀ (run_heuristics os fl db_conn snap w)
  run_heuristics-Enacts snap w w₀ procs scan sound alive =
      rw (run_heuristics_of_scan nice_of os fl db_conn snap w₀ procs w scan) (
        Decides-Performs nice_of (plan fl snap (user_procs procs)) w₀
          (apply_rules os fl db_conn snap (user_procs procs) w₀)
          (apply_rules-Decides os fl db_conn snap (user_procs procs) w₀)
          (apply_rules-Performs nice_of os fl db_conn laws quiet permits snap (user_procs procs) w₀
            (user_procs-All IsSound procs sound) alive))
