-- ===== src/Deployed/Daemon.antt =====
-- iso-profile/airootfs/opt/aimos/ai-daemon/daemon.py: the loop around the deployed heuristics. The
-- connection and the `except` clauses have the text of ai-daemon/daemon.py.
use ai_m_os.Common.{ℕ, zero, suc, Bool, true, false, Option, if◌then◌else◌}
use ai_m_os.Common.Action.{M, ◌>>=◌, ◌>>◌, pure, lift}
use ai_m_os.Float.{Float}
use ai_m_os.Database.{Database}
use ai_m_os.Logger.{log_snapshot}
use ai_m_os.Machine.{Os}
use ai_m_os.Metrics.{Machinery, State, collect}
use ai_m_os.Daemon.{Turn, go_on, stop, Setting, if_connected, end_of_turn, connect}
use ai_m_os.Deployed.Heuristics.{run_heuristics}

module _ {W F : Type 0} (os : Os W) (fl : Float F) (mc : Machinery W F) (set : Setting W F) where
  -- the body of the `try`
  unfoldable pub round : Option (Database W F) → M (State os fl mc) (Unit {0})
  round db_conn = do
    snap ← collect os fl mc
    lift (if_connected db_conn (λ db. log_snapshot db fl snap))
    lift (run_heuristics os fl db_conn snap)
    pure tt

  unfoldable pub tick : Option (Database W F) → M (State os fl mc) Turn
  tick db_conn s = let (r, s') = round db_conn s in (end_of_turn os fl mc set r, s')

  -- The `while True`, for `fuel` rounds; true means that the `break` has ended it.
  unfoldable pub loop : ℕ → Option (Database W F) → M (State os fl mc) Bool
  loop zero db_conn = pure false
  loop (suc fuel) db_conn = do
    turn ← tick db_conn
    elim turn [ stop ↦ pure true | go_on ↦ lift set.sleep >> loop fuel db_conn ]

  -- `main()` for `fuel` rounds.
  unfoldable pub main : ℕ → M (State os fl mc) Bool
  main fuel = do
    db_conn ← lift (connect os fl mc set)
    ended ← loop fuel db_conn
    if ended then lift (if_connected db_conn (λ db. db.close)) >> pure true else pure false
