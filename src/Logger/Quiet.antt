-- ===== src/Logger/Quiet.antt =====
-- The writing functions of ai-daemon/db/logger.py over a connection that touches no priority.
use ai_m_os.Common.{ℤ, Option, Text}
use ai_m_os.Common.Action.{M, ◌>>◌}
use ai_m_os.Database.{Database, scheduler_events}
use ai_m_os.Database.Laws.{IsQuiet, Returned, Settled-bind, Returned-try_except}
use ai_m_os.Logger.{log_scheduler_event}

module _ {W F : Type 0} (nice_of : W → ℤ → Option ℤ) (db : Database W F)
    (q : IsQuiet nice_of db) where
  pub log_scheduler_event-Returned :
      (pid : ℤ) (action : Text) (old new : ℤ) (reason : Text) (w : W)
      → Returned nice_of w (log_scheduler_event db pid action old new reason w)
  unfolding log_scheduler_event
  log_scheduler_event-Returned pid action old new reason w =
      let insert : M W (Unit {0}) = db.execute (scheduler_events pid action old new reason) in
      let store : M W (Unit {0}) = insert >> db.commit in
      let body : M W (Unit {0}) = db.cursor >> store in
      Returned-try_except nice_of body db.rollback w
        (Settled-bind nice_of db.cursor store w (q.cursor_lem w) λ v.
          Settled-bind nice_of insert db.commit v
            (q.execute_lem (scheduler_events pid action old new reason) v) q.commit_lem)
        q.rollback_lem
