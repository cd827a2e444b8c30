-- ===== src/Database/Recorder.antt =====
-- A connection that carries out every call: the rows of the open transaction and those committed.
use ai_m_os.Common.{List, [], ◌++◌, ◌∷◌, ok}
use ai_m_os.Database.{Database, Row}

pub record Store (F : Type 0) : Type 0 where
  pub committed : List (Row F)
  pub pending : List (Row F)

-- No transaction is open.
abbrev pub saved : {F : Type 0} → List (Row F) → Store F
saved rows = record { committed = rows; pending = [] }

abbrev pub recorder : {W F : Type 0} → Database (W × Store F) F
recorder = record {
  cursor = λ s. (ok tt, s);
  execute = λ row s. (ok tt, (s.0, record (s.1) { pending = s.1.pending ++ row ∷ [] }));
  execute_values = λ rows s. (ok tt, (s.0, record (s.1) { pending = s.1.pending ++ rows }));
  execute_script = λ sql s. (ok tt, s);
  commit = λ s. (ok tt, (s.0, saved (s.1.committed ++ s.1.pending)));
  rollback = λ s. (ok tt, (s.0, saved s.1.committed));
  close = λ s. (ok tt, s);
}
