-- ===== src/Examples/Storage.antt =====
-- A connection to a database that may be full, in a transaction.
use mathlib.Core.List.{append-nil}
use ai_m_os.Common.{
  ℕ, pos, refl, sym, Bool, false, List, [], ◌∷◌, ◌++◌, Exn, ok, raised, if◌then◌else◌, Bool-cases,
  inl, inr, codes,
}
use ai_m_os.Common.Action.{M}
use ai_m_os.Database.{Database, Row, scheduler_events}
use ai_m_os.Json.{Fields, field, dict, end, int, is_true}
use ai_m_os.Snapshot.{SystemSnapshot}
use ai_m_os.Logger.{log_snapshot, network_rows}
use ai_m_os.Logger.Atomic.{IsTransactional, Adds, AllOrNone, snapshot_rows, log_snapshot-AllOrNone}
use ai_m_os.Examples.Fixed.{fixed}
use ai_m_os.Examples.Laptop.{busy}

record Tables : Type 0 where
  pub committed : List (Row ℕ)
  pub pending : List (Row ℕ)
  pub full : Bool

abbrev insert_rows : List (Row ℕ) → M Tables (Unit {0})
insert_rows rows w =
    if w.full then (raised Exn.db_error, w) else (ok tt, record w { pending = w.pending ++ rows })

abbrev tables_db : Database Tables ℕ
tables_db = record {
  cursor = λ w. (ok tt, w);
  execute = λ row. insert_rows (row ∷ []);
  execute_values = insert_rows;
  execute_script = λ sql w. (ok tt, w);
  commit = λ w. (ok tt, record w { committed = w.committed ++ w.pending; pending = [] });
  rollback = λ w. (ok tt, record w { pending = [] });
  close = λ w. (ok tt, w);
}

insert_rows-Adds :
    (rows : List (Row ℕ)) (w : Tables)
    → Adds (λ v. v.committed) (λ v. v.pending) rows w (insert_rows rows w)
insert_rows-Adds rows w = elim (Bool-cases w.full) [
  | inl full ↦ rw full (refl, refl)
  | inr room ↦ rw room (refl, refl)
]

tables-IsTransactional : IsTransactional (λ w. w.committed) (λ w. w.pending) tables_db
tables-IsTransactional = record {
  cursor_lem = λ w. (refl, sym (append-nil w.pending));
  execute_lem = λ row. insert_rows-Adds (row ∷ []);
  execute_values_lem = insert_rows-Adds;
  commit_lem = λ w. (rw (append-nil w.pending) refl, refl);
  rollback_lem = λ w. (refl, refl);
}

old_row : Row ℕ
old_row = scheduler_events (pos 3) (codes "renice") (pos 0) (pos 5) []

abbrev tables : Tables
tables = record { committed = old_row ∷ []; pending = []; full = false }

abbrev ifaces : Fields ℕ
ifaces = field (codes "wlan0") (dict (field (codes "rx_bps") (int (pos 12)) end)) end

abbrev online : SystemSnapshot ℕ
online = record busy { net_ifaces = dict ifaces }

abbrev online_rows : List (Row ℕ)
online_rows = elim (snapshot_rows fixed online) [ ok rows ↦ rows | raised _ ↦ [] ]

log_snapshot-AllOrNone_example :
    AllOrNone
      (λ w. w.committed)
      (λ w. w.pending)
      online_rows
      tables
      (log_snapshot tables_db fixed online tables)
unfolding snapshot_rows network_rows is_true
log_snapshot-AllOrNone_example =
    log_snapshot-AllOrNone (λ w. w.committed) (λ w. w.pending) tables_db tables-IsTransactional
      fixed online online_rows tables refl refl
