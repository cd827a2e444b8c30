-- ===== src/Machine.antt =====
-- The operating system as the Python code reaches it (`os`, `open`, `pathlib`): an interface over
-- an unknown world, and what the code relies on.
pub mod Laws
pub mod Keeps
pub mod Beside
use ai_m_os.Common.{ℤ, Bool, List, Text}
use ai_m_os.Common.Action.{M}

pub record Os (W : Type 0) : Type 0 where
  -- `os.path.exists(p)`
  pub path_exists : Text → M W Bool
  -- `open(p).read()`
  pub read_text : Text → M W Text
  -- `open(p, "w")`, one `write`, and the close that flushes it
  pub write_text : Text → Text → M W (Unit {0})
  -- the names that `os.scandir(p)` yields
  pub scandir : Text → M W (List Text)
  -- `os.getpriority(os.PRIO_PROCESS, pid)` and `os.setpriority`
  pub getpriority : ℤ → M W ℤ
  pub setpriority : ℤ → ℤ → M W (Unit {0})
