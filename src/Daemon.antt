-- ===== src/Daemon.antt =====
-- ai-daemon/daemon.py. Log lines are left out. The state is the world and the collector's global.
pub mod Survival
pub mod Keeps
pub mod Spared
use ai_m_os.Common.{
  ℕ, zero, suc, Bool, true, false, Option, none, some, Exn, Result, ok, raised, is_exception, Text,
  if◌then◌else◌,
}
use ai_m_os.Common.Action.{M, ◌>>=◌, ◌>>◌, pure, try_except, lift}
use ai_m_os.Float.{Float}
use ai_m_os.Database.{Database}
use ai_m_os.Logger.{log_snapshot, init_schema}
use ai_m_os.Machine.{Os}
use ai_m_os.Metrics.{Machinery, State, collect}
use ai_m_os.Heuristics.{run_heuristics}

-- How a round of the loop ends: by the `break`, or on the way to the `sleep`.
pub data Turn : Type 0 where
  go_on stop : Turn

-- What the process is started with: `NO_DB`, the schema file, `psycopg2.connect(DSN)` and
-- `time.sleep(INTERVAL)`.
pub record Setting (W F : Type 0) : Type 0 where
  pub no_db : Bool
  pub schema_path : Text
  pub get_conn : M W (Database W F)
  pub sleep : M W (Unit {0})

-- `if db_conn:`
abbrev pub if_connected :
    {W F : Type 0} → Option (Database W F) → (Database W F → M W (Unit {0})) → M W (Unit {0})
if_connected none f = pure tt
if_connected (some db) f = f db

module _ {W F : Type 0} (os : Os W) (fl : Float F) (mc : Machinery W F) (set : Setting W F) where
  -- the two `except` clauses of the loop
  pub end_of_turn : Result (Unit {0}) → Result Turn
  end_of_turn (ok _) = ok go_on
  end_of_turn (raised Exn.keyboard_interrupt) = ok stop
  end_of_turn (raised e) = if is_exception e then ok go_on else raised e

  -- the body of the `try`
  unfoldable pub round : Option (Database W F) → M (State os fl mc) (Unit {0})
  round db_conn = do
    snap ← collect os fl mc
    lift (if_connected db_conn (λ db. log_snapshot db fl snap))
    lift (run_heuristics os fl db_conn snap)
    pure tt

  unfoldable pub tick : Option (Database W F) → M (State os fl mc) Turn
  unfolding end_of_turn
  tick db_conn s = let (r, s') = round db_conn s in (end_of_turn r, s')

  -- The `while True`, for `fuel` rounds; true means that the `break` has ended it.
  unfoldable pub loop : ℕ → Option (Database W F) → M (State os fl mc) Bool
  loop zero db_conn = pure false
  loop (suc fuel) db_conn = do
    turn ← tick db_conn
    elim turn [ stop ↦ pure true | go_on ↦ lift set.sleep >> loop fuel db_conn ]

  -- The connection, or `None` if it cannot be had or the schema cannot be set up.
  unfoldable pub connect : M W (Option (Database W F))
  connect =
      if set.no_db
      then pure none
      else try_except is_exception
          (do db ← set.get_conn; init_schema db os set.schema_path; pure (some db)) (λ _. pure none)

  -- `main()` for `fuel` rounds.
  unfoldable pub main : ℕ → M (State os fl mc) Bool
  main fuel = do
    db_conn ← lift connect
    ended ← loop fuel db_conn
    if ended then lift (if_connected db_conn (λ db. db.close)) >> pure true else pure false
