-- ===== src/Machine/Keeps.antt =====
-- Which calls of the operating system keep a property of the world.
use ai_m_os.Common.{ℤ, Text}
use ai_m_os.Common.Keeps.{Keeps}
use ai_m_os.Machine.{Os}
use ai_m_os.Machine.Laws.{proc_iface}

module _ {W : Type 0} (P : W → Type 0) (os : Os W) where
  -- The calls that only look.
  pub record IsReading : Type 0 where
    pub path_exists_keeps : (p : Text) → Keeps P (os.path_exists p)
    pub read_text_keeps : (p : Text) → Keeps P (os.read_text p)
    pub scandir_keeps : (p : Text) → Keeps P (os.scandir p)
    pub getpriority_keeps : (pid : ℤ) → Keeps P (os.getpriority pid)

  -- The calls that set a priority.
  pub record IsWriting : Type 0 where
    pub write_line_keeps : (line : Text) → Keeps P (os.write_text proc_iface line)
    pub setpriority_keeps : (pid n : ℤ) → Keeps P (os.setpriority pid n)
