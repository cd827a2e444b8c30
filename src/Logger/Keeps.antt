-- ===== src/Logger/Keeps.antt =====
-- ai-daemon/db/logger.py: what its functions keep of the world.
use ai_m_os.Common.{ℤ, Text, is_exception}
use ai_m_os.Common.Keeps.{Keeps, Keeps-try_except, Keeps-then, Keeps-bind, keeps_rules}
use ai_m_os.Common.Action.{M, ◌>>◌}
use ai_m_os.Float.{Float}
use ai_m_os.Json.{Json, dict}
use ai_m_os.Snapshot.{SystemSnapshot}
use ai_m_os.Machine.{Os}
use ai_m_os.Machine.Keeps.{IsReading}
use ai_m_os.Database.{Database, metrics_cpu, metrics_memory, scheduler_events}
use ai_m_os.Database.Keeps.{IsStoring}
use ai_m_os.Logger.{log_dict, log_ifaces, log_snapshot, log_scheduler_event, init_schema}

module _ {W F : Type 0} {P : W → Type 0} (db : Database W F) (stores : IsStoring P db) where
  log_dict-Keeps : (ts : F) (j : Json F) → Keeps P (log_dict db ts j)
  unfolding log_dict
  log_dict-Keeps ts (dict fs) = search (keeps_rules, stores.execute_values_keeps)
  log_dict-Keeps ts _ = search keeps_rules

  log_ifaces-Keeps : (fl : Float F) (ts : F) (j : Json F) → Keeps P (log_ifaces db fl ts j)
  unfolding log_ifaces
  log_ifaces-Keeps fl ts j = search (keeps_rules, log_dict-Keeps)

  pub log_snapshot-Keeps :
      (fl : Float F) (snap : SystemSnapshot F) → Keeps P (log_snapshot db fl snap)
  unfolding log_snapshot
  log_snapshot-Keeps fl snap =
      let ifaces : M W (Unit {0}) = log_ifaces db fl snap.timestamp snap.net_ifaces in
      let last : M W (Unit {0}) = ifaces >> db.commit in
      let mem : M W (Unit {0}) = db.execute (
        metrics_memory snap.timestamp snap.mem_total_kb snap.mem_used_kb snap.swap_total_kb
          snap.swap_used_kb) in
      let cpu : M W (Unit {0}) =
        db.execute
          (metrics_cpu snap.timestamp snap.cpu_total_pct snap.cpu_cores_pct snap.load_avg_1) in
      Keeps-try_except is_exception (db.cursor >> (cpu >> (mem >> last))) (λ _. db.rollback)
        (Keeps-then db.cursor (cpu >> (mem >> last)) stores.cursor_keeps (
          Keeps-then cpu (mem >> last) (stores.execute_keeps _) (
            Keeps-then mem last (stores.execute_keeps _) (
              Keeps-then ifaces db.commit (log_ifaces-Keeps fl snap.timestamp snap.net_ifaces)
                stores.commit_keeps))))
        (λ _. stores.rollback_keeps)

  pub log_scheduler_event-Keeps :
      (pid : ℤ) (action : Text) (old new : ℤ) (reason : Text)
      → Keeps P (log_scheduler_event db pid action old new reason)
  unfolding log_scheduler_event
  log_scheduler_event-Keeps pid action old new reason =
      let insert : M W (Unit {0}) = db.execute (scheduler_events pid action old new reason) in
      Keeps-try_except is_exception (db.cursor >> (insert >> db.commit)) (λ _. db.rollback)
        (Keeps-then db.cursor (insert >> db.commit) stores.cursor_keeps
          (Keeps-then insert db.commit (stores.execute_keeps _) stores.commit_keeps))
        (λ _. stores.rollback_keeps)

  pub init_schema-Keeps :
      (os : Os W) → IsReading P os → (path : Text) → Keeps P (init_schema db os path)
  unfolding init_schema
  init_schema-Keeps os reads path =
      Keeps-bind (os.read_text path) (λ sql. db.cursor >> (db.execute_script sql >> db.commit))
        (reads.read_text_keeps path)
        λ sql. Keeps-then db.cursor (db.execute_script sql >> db.commit) stores.cursor_keeps (
          Keeps-then (db.execute_script sql) db.commit (stores.execute_script_keeps sql)
            stores.commit_keeps)
