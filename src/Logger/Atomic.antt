-- ===== src/Logger/Atomic.antt =====
-- ai-daemon/db/logger.py over a connection that keeps its transactions as PostgreSQL documents
-- them: `committed` are the rows of the tables, `pending` those of the open transaction.
use mathlib.Core.List.{append-nil, append_assoc}
use ai_m_os.Common.{
  ℤ, ◌≡◌, refl, ◌∙◌, ap, sym, subst, ◌⊎◌, inl, inr, true, List, [], ◌∷◌, ◌++◌, Text, Exn, Result,
  ok, raised, is_exception, if◌then◌else◌, Bool-cases,
}
use ai_m_os.Common.Action.{M, ◌>>◌, try_except}
use ai_m_os.Float.{Float}
use ai_m_os.Json.{Json, dict, is_true}
use ai_m_os.Snapshot.{SystemSnapshot}
use ai_m_os.Database.{Database, Row, metrics_cpu, metrics_memory, scheduler_events}
use ai_m_os.Logger.{network_rows, log_dict, log_ifaces, log_snapshot, log_scheduler_event}

module _ {W F : Type 0} (committed pending : W → List (Row F)) where
  -- The rows have joined the open transaction, or an `Exception` was raised.
  abbrev pub Adds : List (Row F) → W → Result (Unit {0}) × W → Type 0
  Adds rows w (ok _, w') = (committed w' ≡ committed w) × (pending w' ≡ pending w ++ rows)
  Adds rows w (raised e, w') = (is_exception e ≡ true) × (committed w' ≡ committed w)

  -- The open transaction and then these rows are in the tables.
  abbrev pub Commits : List (Row F) → W → Result (Unit {0}) × W → Type 0
  Commits rows w (ok _, w') =
      (committed w' ≡ committed w ++ (pending w ++ rows)) × (pending w' ≡ [])
  Commits rows w (raised e, w') = (is_exception e ≡ true) × (committed w' ≡ committed w)

  -- The open transaction is forgotten.
  abbrev pub Forgets : W → Result (Unit {0}) × W → Type 0
  Forgets w (ok _, w') = (committed w' ≡ committed w) × (pending w' ≡ [])
  Forgets w (raised e, w') = ⊥

  -- No transaction is open, and all of the rows or none of them have come into the tables.
  abbrev pub AllOrNone : List (Row F) → W → Result (Unit {0}) × W → Type 0
  AllOrNone rows w (ok _, w') =
      (pending w' ≡ []) × ((committed w' ≡ committed w ++ rows) ⊎ (committed w' ≡ committed w))
  AllOrNone rows w (raised e, w') = ⊥

  Adds-then :
      (a b : List (Row F)) (w v : W) (out : Result (Unit {0}) × W)
      → (committed v ≡ committed w) × (pending v ≡ pending w ++ a)
      → Adds b v out
      → Adds (a ++ b) w out
  Adds-then a b w v (ok _, u) h k =
      (k.0 ∙ h.0, k.1 ∙ ap (λ l. l ++ b) h.1 ∙ append_assoc (pending w) a b)
  Adds-then a b w v (raised e, u) h k = (k.0, k.1 ∙ h.0)

  Commits-then :
      (a b : List (Row F)) (w v : W) (out : Result (Unit {0}) × W)
      → (committed v ≡ committed w) × (pending v ≡ pending w ++ a)
      → Commits b v out
      → Commits (a ++ b) w out
  Commits-then a b w v (ok _, u) h k = (k.0 ∙ rw (h.0, h.1, append_assoc (pending w) a b), k.1)
  Commits-then a b w v (raised e, u) h k = (k.0, k.1 ∙ h.0)

  pub Commits-bind :
      (a b : List (Row F)) (m k : M W (Unit {0})) (w : W)
      → Adds a w (m w)
      → ((v : W) → Commits b v (k v))
      → Commits (a ++ b) w ((m >> k) w)
  Commits-bind a b m k w h g = go (m w) h
    where
      go :
          (out : Result (Unit {0}) × W)
          → Adds a w out
          → Commits (a ++ b) w (elim out.0 [ ok _ ↦ k out.1 | raised e ↦ (raised e, out.1) ])
      go (ok _, v) r = Commits-then a b w v (k v) r (g v)
      go (raised e, v) r = r

  pub AllOrNone-try_except :
      (rows : List (Row F)) (m k : M W (Unit {0})) (w : W)
      → pending w ≡ []
      → Commits rows w (m w)
      → ((v : W) → Forgets v (k v))
      → AllOrNone rows w (try_except is_exception m (λ _. k) w)
  AllOrNone-try_except rows m k w clean h g = go (m w) h
    where
      handled :
          (v : W) (out : Result (Unit {0}) × W)
          → committed v ≡ committed w
          → Forgets v out
          → AllOrNone rows w out
      handled v (ok _, u) same r = (r.1, inr (r.0 ∙ same))
      handled v (raised e, u) same r = r

      go :
          (out : Result (Unit {0}) × W)
          → Commits rows w out
          → AllOrNone rows w (elim out.0 [
            | ok a ↦ (ok a, out.1)
            | raised e ↦ if is_exception e then k out.1 else (raised e, out.1)
          ])
      go (ok _, v) r = (r.1, inl (r.0 ∙ ap (λ l. committed w ++ (l ++ rows)) clean))
      go (raised e, v) (caught, same) = rw caught (handled v (k v) same (g v))

  pub record IsTransactional (db : Database W F) : Type 0 where
    pub cursor_lem : (w : W) → Adds [] w (db.cursor w)
    pub execute_lem : (row : Row F) (w : W) → Adds (row ∷ []) w (db.execute row w)
    pub execute_values_lem : (rows : List (Row F)) (w : W) → Adds rows w (db.execute_values rows w)
    pub commit_lem : (w : W) → Commits [] w (db.commit w)
    pub rollback_lem : (w : W) → Forgets w (db.rollback w)

-- The rows of the interfaces.
iface_rows : {F : Type 0} → F → Json F → Result (List (Row F))
iface_rows ts (dict fs) = network_rows ts fs
iface_rows ts _ = raised Exn.attribute_error

abbrev behind : {F : Type 0} → Row F → Row F → Result (List (Row F)) → Result (List (Row F))
behind cpu mem (raised e) = raised e
behind cpu mem (ok rows) = ok (cpu ∷ mem ∷ rows)

-- The rows that a snapshot stands for: one of the processor, one of the memory, and one for each
-- network interface.
unfoldable pub snapshot_rows : {F : Type 0} → Float F → SystemSnapshot F → Result (List (Row F))
unfolding iface_rows
snapshot_rows fl snap =
    behind (metrics_cpu snap.timestamp snap.cpu_total_pct snap.cpu_cores_pct snap.load_avg_1)
      (metrics_memory snap.timestamp snap.mem_total_kb snap.mem_used_kb snap.swap_total_kb
        snap.swap_used_kb)
      (if is_true fl snap.net_ifaces then iface_rows snap.timestamp snap.net_ifaces else ok [])

module _ {W F : Type 0} (committed pending : W → List (Row F)) (db : Database W F)
    (laws : IsTransactional committed pending db) where
  log_dict-Adds :
      (ts : F) (j : Json F) (rows : List (Row F)) (w : W)
      → iface_rows ts j ≡ ok rows
      → Adds committed pending rows w (log_dict db ts j w)
  unfolding log_dict iface_rows
  log_dict-Adds ts (dict fs) rows w e =
      subst
        (λ r.
          Adds committed pending rows w
            (elim r [ ok a ↦ db.execute_values a w | raised x ↦ (raised x, w) ]))
        (sym e) (laws.execute_values_lem rows w)
  log_dict-Adds ts _ rows w e = cc

  log_ifaces-Adds :
      (fl : Float F) (ts : F) (j : Json F) (rows : List (Row F)) (w : W)
      → (if is_true fl j then iface_rows ts j else ok []) ≡ ok rows
      → Adds committed pending rows w (log_ifaces db fl ts j w)
  unfolding log_ifaces
  log_ifaces-Adds fl ts j rows w e = elim (Bool-cases (is_true fl j)) [
    | inl some_json ↦ rw some_json (log_dict-Adds ts j rows w (rw some_json at e))
    | inr nothing ↦
        let empty : ok [] ≡ ok rows = rw nothing at e in
        let same : [] ≡ rows = cc in rw nothing (refl, rw (← same) (sym (append-nil (pending w))))
  ]

  -- Over a connection that keeps its transactions and has none open, for a snapshot whose
  -- interfaces make rows: the call returns, no transaction is open, and all of the snapshot's rows
  -- or none of them have come into the tables.
  pub log_snapshot-AllOrNone :
      (fl : Float F) (snap : SystemSnapshot F) (rows : List (Row F)) (w : W)
      → pending w ≡ []
      → snapshot_rows fl snap ≡ ok rows
      → AllOrNone committed pending rows w (log_snapshot db fl snap w)
  unfolding log_snapshot snapshot_rows
  log_snapshot-AllOrNone fl snap rows w clean e =
      go (if is_true fl snap.net_ifaces then iface_rows snap.timestamp snap.net_ifaces else ok [])
        refl e
    where
      cpu_row : Row F
      cpu_row = metrics_cpu snap.timestamp snap.cpu_total_pct snap.cpu_cores_pct snap.load_avg_1

      mem_row : Row F
      mem_row =
          metrics_memory snap.timestamp snap.mem_total_kb snap.mem_used_kb snap.swap_total_kb
            snap.swap_used_kb

      go :
          (net : Result (List (Row F)))
          → (if is_true fl snap.net_ifaces
              then iface_rows snap.timestamp snap.net_ifaces
              else ok [])
            ≡ net
          → behind cpu_row mem_row net ≡ ok rows
          → AllOrNone committed pending rows w (log_snapshot db fl snap w)
      go (raised x) n r = cc
      go (ok net) n r =
          let all : cpu_row ∷ mem_row ∷ net ≡ rows = cc in
          let ifaces : M W (Unit {0}) = log_ifaces db fl snap.timestamp snap.net_ifaces in
          let last : M W (Unit {0}) = ifaces >> db.commit in
          let mem : M W (Unit {0}) = db.execute mem_row in
          let cpu : M W (Unit {0}) = db.execute cpu_row in
          let tail : M W (Unit {0}) = mem >> last in
          let store : M W (Unit {0}) = cpu >> tail in
          let body : M W (Unit {0}) = db.cursor >> store in
          subst (λ l. AllOrNone committed pending l w (log_snapshot db fl snap w)) all
            (AllOrNone-try_except committed pending (cpu_row ∷ mem_row ∷ net) body db.rollback w
              clean
              (Commits-bind committed pending [] (cpu_row ∷ mem_row ∷ net) db.cursor store w
                (laws.cursor_lem w)
                λ v₁.
                  Commits-bind committed pending (cpu_row ∷ []) (mem_row ∷ net) cpu tail v₁
                    (laws.execute_lem cpu_row v₁)
                    λ v₂.
                      Commits-bind committed pending (mem_row ∷ []) net mem last v₂
                        (laws.execute_lem mem_row v₂)
                        λ v₃.
                          subst (λ l. Commits committed pending l v₃ (last v₃)) (append-nil net)
                            (Commits-bind committed pending net [] ifaces db.commit v₃
                              (log_ifaces-Adds fl snap.timestamp snap.net_ifaces net v₃ n)
                              laws.commit_lem))
              laws.rollback_lem)

  -- Over a connection that keeps its transactions and has none open, logging an event returns, no
  -- transaction is open, and the event's row has come into the tables or the tables are as before.
  pub log_scheduler_event-AllOrNone :
      (pid : ℤ) (action : Text) (old new : ℤ) (reason : Text) (w : W)
      → pending w ≡ []
      → AllOrNone committed pending
          (scheduler_events pid action old new reason ∷ [])
          w
          (log_scheduler_event db pid action old new reason w)
  unfolding log_scheduler_event
  log_scheduler_event-AllOrNone pid action old new reason w clean =
      let row = scheduler_events pid action old new reason in
      let insert : M W (Unit {0}) = db.execute row in
      let store : M W (Unit {0}) = insert >> db.commit in
      let body : M W (Unit {0}) = db.cursor >> store in
      AllOrNone-try_except committed pending (row ∷ []) body db.rollback w clean
        (Commits-bind committed pending [] (row ∷ []) db.cursor store w (laws.cursor_lem w) λ v.
          Commits-bind committed pending (row ∷ []) [] insert db.commit v (laws.execute_lem row v)
            laws.commit_lem)
        laws.rollback_lem
