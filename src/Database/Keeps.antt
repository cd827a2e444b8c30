-- ===== src/Database/Keeps.antt =====
-- A connection whose calls keep a property of the world.
use ai_m_os.Common.{List, Option, none, some, Text}
use ai_m_os.Common.Keeps.{Keeps}
use ai_m_os.Database.{Database, Row}

-- A connection, if there is one, that meets a requirement.
abbrev pub AllOf : {W F : Type 0} → (Database W F → Type 0) → Option (Database W F) → Type 0
AllOf G none = Unit {0}
AllOf G (some db) = G db

module _ {W F : Type 0} (P : W → Type 0) where
  pub record IsStoring (db : Database W F) : Type 0 where
    pub cursor_keeps : Keeps P db.cursor
    pub execute_keeps : (row : Row F) → Keeps P (db.execute row)
    pub execute_values_keeps : (rows : List (Row F)) → Keeps P (db.execute_values rows)
    pub execute_script_keeps : (sql : Text) → Keeps P (db.execute_script sql)
    pub commit_keeps : Keeps P db.commit
    pub rollback_keeps : Keeps P db.rollback
    pub close_keeps : Keeps P db.close

  abbrev pub AllStoring : Option (Database W F) → Type 0
  AllStoring = AllOf IsStoring
