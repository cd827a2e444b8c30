-- ===== src/Logger.antt =====
-- ai-daemon/db/logger.py. Log lines are left out.
pub mod Quiet
pub mod Atomic
pub mod Keeps
use ai_m_os.Common.{
  ℤ, pos, List, [], ◌∷◌, Text, codes, is_exception, Exn, raised, ok, Result, if◌then◌else◌,
}
use ai_m_os.Common.Action.{M, ◌>>=◌, ◌>>◌, pure, raise, try_except, from_result}
use ai_m_os.Float.{Float}
use ai_m_os.Json
use ai_m_os.Json.{Json, int, dict, Fields, end, field, is_true}
use ai_m_os.Snapshot.{SystemSnapshot}
use ai_m_os.Database.{Database, Row, metrics_cpu, metrics_memory, metrics_network, scheduler_events}
use ai_m_os.Machine.{Os}

module _ {F : Type 0} where
  -- `stats.get(…)` of one interface: only a dict has the method
  row_of : F → Text → Json F → Result (Row F)
  unfolding Json.get
  row_of ts iface (dict stats) = ok (
      metrics_network ts iface (Json.get_or (codes "rx_bps") (int (pos 0)) stats)
        (Json.get_or (codes "tx_bps") (int (pos 0)) stats))
  row_of ts iface _ = raised Exn.attribute_error

  -- the comprehension over `snap.net_ifaces.items()`
  unfoldable pub network_rows : F → Fields F → Result (List (Row F))
  unfolding row_of
  network_rows ts end = ok []
  network_rows ts (field iface stats fs) =
      let rest = network_rows ts fs in
      elim (row_of ts iface stats) [
        | raised e ↦ raised e
        | ok row ↦ elim rest [ raised e ↦ raised e | ok rows ↦ ok (row ∷ rows) ]
      ]

-- The body of `if snap.net_ifaces:`; a value that is true and no dict has no `items`.
log_dict : {W F : Type 0} → Database W F → F → Json F → M W (Unit {0})
unfolding network_rows
log_dict db ts (dict fs) = do rows ← from_result (network_rows ts fs); db.execute_values rows
log_dict db ts _ = raise Exn.attribute_error

module _ {W F : Type 0} (db : Database W F) where
  log_ifaces : Float F → F → Json F → M W (Unit {0})
  unfolding log_dict is_true
  log_ifaces fl ts ifaces = if is_true fl ifaces then log_dict db ts ifaces else pure tt

  unfoldable pub log_snapshot : Float F → SystemSnapshot F → M W (Unit {0})
  unfolding log_ifaces
  log_snapshot fl snap =
      try_except is_exception
        (do
          db.cursor
          db.execute
              (metrics_cpu snap.timestamp snap.cpu_total_pct snap.cpu_cores_pct snap.load_avg_1)
          db.execute (
              metrics_memory snap.timestamp snap.mem_total_kb snap.mem_used_kb snap.swap_total_kb
                snap.swap_used_kb)
          log_ifaces fl snap.timestamp snap.net_ifaces
          db.commit)
        (λ _. db.rollback)

  unfoldable pub log_scheduler_event : ℤ → Text → ℤ → ℤ → Text → M W (Unit {0})
  log_scheduler_event pid action old_nice new_nice reason =
      try_except is_exception
        (do db.cursor; db.execute (scheduler_events pid action old_nice new_nice reason); db.commit)
        (λ _. db.rollback)

  -- The schema file lies beside the module, at `schema_path`.
  unfoldable pub init_schema : Os W → Text → M W (Unit {0})
  init_schema os schema_path = do
    sql ← os.read_text schema_path
    db.cursor
    db.execute_script sql
    db.commit
