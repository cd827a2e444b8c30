-- ===== src/Daemon/Survival.antt =====
-- What can end the daemon's loop, and what a round does when the database is gone.
use ai_m_os.Common.{
  ℕ, suc, ◌≡◌, true, false, Option, some, Exn, Result, ok, raised, is_exception, arith,
}
use ai_m_os.Float.{Float}
use ai_m_os.Snapshot.{SystemSnapshot}
use ai_m_os.Database.{Database}
use ai_m_os.Logger.{log_snapshot}
use ai_m_os.Machine.{Os}
use ai_m_os.Metrics.{Machinery, State, collect}
use ai_m_os.Daemon.{Setting, go_on, stop, end_of_turn, round, tick, loop, connect, main}

module _ {W F : Type 0} (os : Os W) (fl : Float F) (mc : Machinery W F) (set : Setting W F) where
  end_of_turn-raised :
      (r : Result (Unit {0})) (e : Exn)
      → end_of_turn os fl mc set r ≡ raised e
      → is_exception e ≡ false
  unfolding end_of_turn
  end_of_turn-raised (ok _) e h = cc
  end_of_turn-raised (raised x) e h = ground arith

  -- No `Exception` of any part of a round leaves the round: what it raises is none.
  pub tick-raised :
      (db_conn : Option (Database W F)) (s : State os fl mc) (e : Exn)
      → (tick os fl mc set db_conn s).0 ≡ raised e
      → is_exception e ≡ false
  unfolding tick
  tick-raised db_conn s e h = end_of_turn-raised (round os fl mc set db_conn s).0 e h

  -- A round with a connection on which the cursor and then the rollback raise an `Exception` goes
  -- on to the next without its heuristics: the world is the one that the failed rollback has left.
  pub tick_dead_db :
      (db : Database W F) (s s₁ : State os fl mc) (snap : SystemSnapshot F) (e x : Exn) (w₁ w₂ : W)
      → collect os fl mc s ≡ (ok snap, s₁)
      → db.cursor s₁.0 ≡ (raised e, w₁)
      → is_exception e ≡ true
      → db.rollback w₁ ≡ (raised x, w₂)
      → is_exception x ≡ true
      → tick os fl mc set (some db) s ≡ (ok go_on, (w₂, s₁.1))
  unfolding tick round log_snapshot end_of_turn
  tick_dead_db db s s₁ snap e x w₁ w₂ got cursor caught rollback lost = ground arith

  -- If the first round of a daemon with a connection ends by a `KeyboardInterrupt`, and the
  -- connection can be closed, then `main` closes it and ends in order.
  pub main_interrupted :
      (fuel : ℕ) (db : Database W F) (s s₂ : State os fl mc) (w₁ w₃ : W)
      → connect os fl mc set s.0 ≡ (ok (some db), w₁)
      → tick os fl mc set (some db) (w₁, s.1) ≡ (ok stop, s₂)
      → db.close s₂.0 ≡ (ok tt, w₃)
      → main os fl mc set (suc fuel) s ≡ (ok true, (w₃, s₂.1))
  unfolding main loop
  main_interrupted fuel db s s₂ w₁ w₃ c t k = ground arith

  -- A `KeyboardInterrupt` in the sleep after the first round leaves `main` as it is: the world is
  -- the one that the sleep has left, and nothing is closed.
  pub main_interrupted_asleep :
      (fuel : ℕ) (db_conn : Option (Database W F)) (s s₂ : State os fl mc) (w₁ w₃ : W)
      → connect os fl mc set s.0 ≡ (ok db_conn, w₁)
      → tick os fl mc set db_conn (w₁, s.1) ≡ (ok go_on, s₂)
      → set.sleep s₂.0 ≡ (raised Exn.keyboard_interrupt, w₃)
      → main os fl mc set (suc fuel) s ≡ (raised Exn.keyboard_interrupt, (w₃, s₂.1))
  unfolding main loop
  main_interrupted_asleep fuel db_conn s s₂ w₁ w₃ c t k = ground arith
