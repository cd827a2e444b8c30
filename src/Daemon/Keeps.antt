-- ===== src/Daemon/Keeps.antt =====
-- What a round, the loop and `main` keep of the world.
use ai_m_os.Common.{ℕ, zero, suc, Bool, true, false, Option, none, some, List, is_exception}
use ai_m_os.Common.Keeps.{Keeps, Keeps-bind, Keeps-then, Keeps-lift, Keeps-if, Keeps-pure}
use ai_m_os.Common.Yields.{
  Yields, Yields-pure, Yields-if, Yields-try_except, Yields-bind, Yields-Keeps-bind,
  Keeps-lift-Yields,
}
use ai_m_os.Common.Action.{M, ◌>>◌, pure, lift}
use ai_m_os.Float.{Float}
use ai_m_os.Database.{Database}
use ai_m_os.Database.Keeps.{IsStoring, AllOf}
use ai_m_os.Machine.{Os}
use ai_m_os.Snapshot.{SystemSnapshot}
use ai_m_os.Machine.Keeps.{IsReading}
use ai_m_os.Metrics.{Machinery, State, Sample, collect}
use ai_m_os.Metrics.Keeps.{IsObserving, collect-Keeps}
use ai_m_os.Logger.{log_snapshot, init_schema}
use ai_m_os.Logger.Keeps.{log_snapshot-Keeps, init_schema-Keeps}
use ai_m_os.Heuristics.{run_heuristics}
use ai_m_os.Daemon.{Setting, Turn, go_on, stop, if_connected, round, tick, loop, connect, main}

if_connected-Keeps :
    {W F : Type 0} {P : W → Type 0} (G : Database W F → Type 0) (db_conn : Option (Database W F))
    (f : Database W F → M W (Unit {0}))
    → AllOf G db_conn
    → ((db : Database W F) → G db → Keeps P (f db))
    → Keeps P (if_connected db_conn f)
if_connected-Keeps G none f good kf = Keeps-pure tt
if_connected-Keeps G (some db) f good kf = kf db good

module _ {W F : Type 0} {P : W → Type 0} (os : Os W) (fl : Float F) (mc : Machinery W F)
    (reads : IsReading P os) (observes : IsObserving P mc) (set : Setting W F)
    (G : Database W F → Type 0) (stores : (db : Database W F) → G db → IsStoring P db)
    (rules : (db_conn : Option (Database W F))
      → AllOf G db_conn
      → (snap : SystemSnapshot F) → Keeps P (run_heuristics os fl db_conn snap)) where
  abbrev PState : W × List Sample → Type 0
  PState s = P s.0

  round-Keeps :
      (db_conn : Option (Database W F))
      → AllOf G db_conn
      → Keeps PState (round os fl mc set db_conn)
  unfolding round
  round-Keeps db_conn good =
      Keeps-bind (collect os fl mc) _ (collect-Keeps os fl mc reads observes) λ snap.
        Keeps-then (lift (if_connected db_conn (λ db. log_snapshot db fl snap))) _
          (Keeps-lift _ (
            if_connected-Keeps G db_conn (λ db. log_snapshot db fl snap) good
              λ db g. log_snapshot-Keeps db (stores db g) fl snap))
          (Keeps-then (lift (run_heuristics os fl db_conn snap)) _
            (Keeps-lift _ (rules db_conn good snap)) (Keeps-pure tt))

  tick-Keeps :
      (db_conn : Option (Database W F)) → AllOf G db_conn → Keeps PState (tick os fl mc set db_conn)
  unfolding tick
  tick-Keeps db_conn good = record { at = (round-Keeps db_conn good).at }

  module _ (sleeps : Keeps P set.sleep) where
    turn-Keeps :
        (turn : Turn) (rest : M (State os fl mc) Bool)
        → Keeps PState rest
        → Keeps {A = Bool} PState (elim turn as (λ t. M (State os fl mc) Bool) [
          | stop ↦ pure true
          | go_on ↦ lift set.sleep >> rest
        ])
    turn-Keeps stop rest kr = Keeps-pure true
    turn-Keeps go_on rest kr = Keeps-then (lift set.sleep) rest (Keeps-lift set.sleep sleeps) kr

    loop-Keeps :
        (fuel : ℕ) (db_conn : Option (Database W F))
        → AllOf G db_conn
        → Keeps PState (loop os fl mc set fuel db_conn)
    unfolding loop
    loop-Keeps zero db_conn good = Keeps-pure false
    loop-Keeps (suc fuel) db_conn good =
        Keeps-bind (tick os fl mc set db_conn) _ (tick-Keeps db_conn good)
          λ turn. turn-Keeps turn (loop os fl mc set fuel db_conn) (loop-Keeps fuel db_conn good)

    -- `get_conn` keeps `P`, and returns a good connection.
    module _ (opens : Yields P (G) set.get_conn) where
      connect-Yields : Yields P (AllOf G) (connect os fl mc set)
      unfolding connect
      connect-Yields = Yields-if (AllOf G) set.no_db (pure none) _ (Yields-pure (AllOf G) none tt) (
          Yields-try_except (AllOf G) is_exception _ (λ _. pure none)
            (Yields-bind G (AllOf G) set.get_conn _ opens λ db good.
              Yields-Keeps-bind (AllOf G) (init_schema db os set.schema_path) (pure (some db))
                (init_schema-Keeps db (stores db good) os reads set.schema_path)
                (Yields-pure (AllOf G) (some db) good))
            λ _. Yields-pure (AllOf G) none tt)

      -- A property of the world that looking, the rules, the database, the readings and the sleep
      -- keep is kept by the whole program, for any number of rounds, however it ends.
      pub main-Keeps : (fuel : ℕ) → Keeps PState (main os fl mc set fuel)
      unfolding main
      main-Keeps fuel =
          Keeps-lift-Yields (AllOf G) (connect os fl mc set) _ connect-Yields λ db_conn good.
            Keeps-bind (loop os fl mc set fuel db_conn) _ (loop-Keeps fuel db_conn good) λ ended.
              Keeps-if ended _ (pure false)
                (Keeps-then (lift (if_connected db_conn (λ db. db.close))) (pure true)
                  (Keeps-lift _ (
                    if_connected-Keeps G db_conn (λ db. db.close) good
                      λ db g. (stores db g).close_keeps))
                  (Keeps-pure true))
                (Keeps-pure false)
