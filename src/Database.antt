-- ===== src/Database.antt =====
-- What the logger asks of psycopg2: an interface. A row stands for an `INSERT` with its values, by
-- the table that it goes to.
pub mod Laws
pub mod Keeps
pub mod Recorder
use ai_m_os.Common.{ℤ, List, Text}
use ai_m_os.Common.Action.{M}
use ai_m_os.Json.{Json}

pub data Row (F : Type 0) : Type 0 where
  metrics_cpu : F → F → List F → F → Row F
  metrics_memory : F → ℤ → ℤ → ℤ → ℤ → Row F
  metrics_network : F → Text → Json F → Json F → Row F
  scheduler_events : ℤ → Text → ℤ → ℤ → Text → Row F

-- An open connection.
pub record Database (W F : Type 0) : Type 0 where
  -- `conn.cursor()`
  pub cursor : M W (Unit {0})
  -- `cur.execute("INSERT …", …)`
  pub execute : Row F → M W (Unit {0})
  -- `execute_values(cur, "INSERT …", …)`
  pub execute_values : List (Row F) → M W (Unit {0})
  -- `cur.execute(sql)` of a whole script
  pub execute_script : Text → M W (Unit {0})
  pub commit : M W (Unit {0})
  pub rollback : M W (Unit {0})
  pub close : M W (Unit {0})
