-- ===== src/Daemon/Spared.antt =====
-- The processes of root, over all rounds of the daemon.
use ai_m_os.Common.{
  ℕ, ℤ, pos, eqb_ℤ, ◌≡◌, refl, ◌∙◌, false, Option, none, some, List, [], ◌∷◌, Result, ok, raised,
  arith, Bool-cases, inl, inr, ◌⊎◌, Exn, subst, ap,
}
use ai_m_os.Common.Lists.{All, filter}
use ai_m_os.Common.Sort.{All-sort_desc}
use ai_m_os.Common.Keeps.{Keeps}
use ai_m_os.Common.Yields.{Yields}
use ai_m_os.Float.{Float}
use ai_m_os.Snapshot.{SystemSnapshot}
use ai_m_os.Database.{Database}
use ai_m_os.Database.Keeps.{IsStoring, AllOf}
use ai_m_os.Database.Laws.{IsQuiet}
use ai_m_os.Machine.{Os}
use ai_m_os.Machine.Laws.{IsLawful}
use ai_m_os.Machine.Keeps.{IsReading}
use ai_m_os.Metrics.{Machinery, Sample}
use ai_m_os.Metrics.Keeps.{IsObserving}
use ai_m_os.Heuristics.{ProcessInfo, is_user, user_procs, list_processes, run_heuristics}
use ai_m_os.Heuristics.Keeps.{list_processes-Keeps}
use ai_m_os.Heuristics.Effects.{IsSound, AllQuiet}
use ai_m_os.Heuristics.Decisions.{is_listed, run_heuristics_untouched}
use ai_m_os.Daemon.{Setting, main}
use ai_m_os.Daemon.Keeps.{main-Keeps}

-- If the process is in the list, it is one of root.
abbrev pub IsOfRoot : ℤ → ProcessInfo → Type 0
IsOfRoot q p = p.pid ≡ q → p.uid ≡ pos 0

abbrev IsOther : ℤ → ProcessInfo → Type 0
IsOther q p = eqb_ℤ q p.pid ≡ false

not_of_user :
    (q : ℤ) (p : ProcessInfo) → IsOfRoot q p → eqb_ℤ p.uid (pos 0) ≡ false → eqb_ℤ q p.pid ≡ false
not_of_user q p root user = elim (Bool-cases (eqb_ℤ q p.pid)) [
  | inr e ↦ e
  | inl e ↦ ground (arith, user, root (ground (arith, e)))
]

filter-IsOther :
    (q : ℤ) (procs : List ProcessInfo)
    → All (IsOfRoot q) procs
    → All (IsOther q) (filter is_user procs)
filter-IsOther q [] root = tt
filter-IsOther q (p ∷ procs) root = elim (Bool-cases (eqb_ℤ p.uid (pos 0))) [
  | inl e ↦ rw e (filter-IsOther q procs root.1)
  | inr e ↦ rw e (not_of_user q p root.0 e, filter-IsOther q procs root.1)
]

unlisted : (q : ℤ) (procs : List ProcessInfo) → All (IsOther q) procs → is_listed q procs ≡ false
unlisted q [] others = refl
unlisted q (p ∷ procs) others = ground (arith, others.0, unlisted q procs others.1)

unlisted_root :
    (q : ℤ) (procs : List ProcessInfo)
    → All (IsOfRoot q) procs
    → is_listed q (user_procs procs) ≡ false
unfolding user_procs
unlisted_root q procs root = unlisted q (user_procs procs) (
    All-sort_desc (λ p. p.cpu_time) (IsOther q) (filter is_user procs)
      (filter-IsOther q procs root))

scan_cases :
    {W : Type 0} (out : Result (List ProcessInfo) × W)
    → ((procs : List ProcessInfo) × ((w : W) × (out ≡ (ok procs, w))))
      ⊎ ((e : Exn) × ((w : W) × (out ≡ (raised e, w))))
scan_cases (ok procs, w) = inl (procs, (w, refl))
scan_cases (raised e, w) = inr (e, (w, refl))

module _ {W F : Type 0} (nice_of : W → ℤ → Option ℤ) (os : Os W) (fl : Float F) (q : ℤ)
    (n : Option ℤ) where
  abbrev pub HasNice : W → Type 0
  HasNice w = nice_of w q ≡ n

  -- Every scan finds processes in their ranges, and the process, if at all, as one of root.
  abbrev pub Scans : Type 0
  Scans =
      (w w' : W) (procs : List ProcessInfo)
      → list_processes os w ≡ (ok procs, w')
      → All IsSound procs × All (IsOfRoot q) procs

  -- A connection that keeps the value, and touches no priority.
  abbrev pub IsGood : Database W F → Type 0
  IsGood db = IsStoring HasNice db × IsQuiet nice_of db

  good-AllQuiet :
      (db_conn : Option (Database W F)) → AllOf IsGood db_conn → AllQuiet nice_of db_conn
  good-AllQuiet none good = tt
  good-AllQuiet (some db) good = good.1

  module _ (laws : IsLawful nice_of os) (reads : IsReading HasNice os) (scans : Scans) where
    failed :
        (db_conn : Option (Database W F)) (snap : SystemSnapshot F) (w w₀ : W) (x : Exn)
        → list_processes os w ≡ (raised x, w₀)
        → run_heuristics os fl db_conn snap w ≡ (raised x, w₀)
    unfolding run_heuristics
    failed db_conn snap w w₀ x e = ground (arith, e)

    run_heuristics-HasNice :
        (db_conn : Option (Database W F))
        → AllOf IsGood db_conn
        → (snap : SystemSnapshot F) → Keeps HasNice (run_heuristics os fl db_conn snap)
    run_heuristics-HasNice db_conn good snap = record {
      at = λ w h. elim (scan_cases (list_processes os w)) [
        | inl (procs, (w₀, e)) ↦
            let found = scans w w₀ procs e in
            run_heuristics_untouched nice_of os fl db_conn snap w₀ procs laws
              (good-AllQuiet db_conn good) w q e found.0 (unlisted_root q procs found.1)
            ∙ scanned w w₀ (ok procs) e h
        | inr (x, (w₀, e)) ↦
            ap (λ out. nice_of out.1 q) (failed db_conn snap w w₀ x e) ∙ scanned w w₀ (raised x) e h
      ];
    }
      where
        scanned :
            (w w₀ : W) (r : Result (List ProcessInfo))
            → list_processes os w ≡ (r, w₀)
            → HasNice w
            → HasNice w₀
        scanned w w₀ r e h = subst (λ out. HasNice out.1) e ((list_processes-Keeps os reads).at w h)

    -- The machine and each connection meet the laws; what only looks, sleeps or talks to the database
    -- leaves the nice value of a process alone; and each scan that returns finds processes in their
    -- ranges, the process, if at all, with Uid 0. Then its nice value is never changed, in any number
    -- of rounds of the daemon and however it ends.
    pub main_spared :
        (mc : Machinery W F) (set : Setting W F)
        → IsObserving HasNice mc
        → Keeps HasNice set.sleep
        → Yields HasNice IsGood set.get_conn
        → (fuel : ℕ) (samples : List Sample) (w : W) → nice_of w q ≡ n
        → nice_of (main os fl mc set fuel (w, samples)).1.0 q ≡ n
    main_spared mc set observes sleeps opens fuel samples w h =
        (main-Keeps os fl mc reads observes set IsGood (λ db good. good.0) run_heuristics-HasNice
            sleeps opens fuel).at
          (w, samples) h
