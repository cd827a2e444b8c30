-- ===== src/Window/Listing.antt =====
-- What listing the processes keeps of the world, and what it raises.
use ai_m_os.Common.{ℤ, ◌≡◌, refl, false, List, [], ◌∷◌, ◌++◌, Exn, Text}
use ai_m_os.Common.Str.{is_digits}
use ai_m_os.Common.Number.{read_ℤ}
use ai_m_os.Common.Action.{from_result}
use ai_m_os.Common.Raises.{
  Raises, Raises-pure, Raises-or_raise, Raises-if, Raises-try_except, Raises-bind,
}
use ai_m_os.Common.Outcome.{or_raise}
use ai_m_os.Common.Keeps.{Keeps, Keeps-if, Keeps-bind, Keeps-pure, keeps_rules}
use ai_m_os.Machine.{Os}
use ai_m_os.Machine.Keeps.{IsReading}
use ai_m_os.Window.{row_entry, row_entries, list_rows, is_dbus_error, is_gone}

abbrev pub IsNoDbus : Exn → Type 0
IsNoDbus e = is_dbus_error e ≡ false

module _ {W : Type 0} {P : W → Type 0} (os : Os W) (reads : IsReading P os) where
  row_entry-Keeps : (entry : Text) → Keeps P (row_entry os entry)
  unfolding row_entry
  row_entry-Keeps entry = search (keeps_rules, reads.read_text_keeps, reads.getpriority_keeps)

  row_entries-Keeps : (entries : List Text) → Keeps P (row_entries os entries)
  unfolding row_entries
  row_entries-Keeps [] = Keeps-pure []
  row_entries-Keeps (entry ∷ entries) =
      let rest = row_entries-Keeps entries in
      Keeps-if (is_digits entry) _ (row_entries os entries)
        (Keeps-bind (row_entry os entry) _ (row_entry-Keeps entry)
          λ found. Keeps-bind (row_entries os entries) _ rest λ rows. Keeps-pure (found ++ rows))
        rest

  pub list_rows-Keeps : Keeps P (list_rows os)
  unfolding list_rows
  list_rows-Keeps = search (keeps_rules, reads.scandir_keeps, row_entries-Keeps)

-- No system call of the list raises a `DBusException`.
pub record IsApart {W : Type 0} (os : Os W) : Type 0 where
  pub read_text_apart : (p : Text) → Raises IsNoDbus (os.read_text p)
  pub scandir_apart : (p : Text) → Raises IsNoDbus (os.scandir p)
  pub getpriority_apart : (pid : ℤ) → Raises IsNoDbus (os.getpriority pid)

module _ {W : Type 0} (os : Os W) (apart : IsApart os) where
  row_entry-Raises : (entry : Text) → Raises IsNoDbus (row_entry os entry)
  unfolding row_entry
  row_entry-Raises entry =
      Raises-bind (from_result (or_raise (read_ℤ entry) Exn.value_error)) _
        (Raises-or_raise (read_ℤ entry) Exn.value_error refl)
        λ pid.
          Raises-try_except is_gone _ _
            (Raises-bind (os.read_text _) _ (apart.read_text_apart _) λ name.
              Raises-bind (os.getpriority pid) _ (apart.getpriority_apart pid)
                λ nice. Raises-pure _)
            λ _. Raises-pure []

  row_entries-Raises : (entries : List Text) → Raises IsNoDbus (row_entries os entries)
  unfolding row_entries
  row_entries-Raises [] = Raises-pure []
  row_entries-Raises (entry ∷ entries) =
      let rest = row_entries-Raises entries in
      Raises-if (is_digits entry) _ (row_entries os entries)
        (Raises-bind (row_entry os entry) _ (row_entry-Raises entry)
          λ found. Raises-bind (row_entries os entries) _ rest λ rows. Raises-pure (found ++ rows))
        rest

  pub list_rows-Raises : Raises IsNoDbus (list_rows os)
  unfolding list_rows
  list_rows-Raises = Raises-bind (os.scandir _) _ (apart.scandir_apart _) λ entries.
      Raises-bind (row_entries os entries) _ (row_entries-Raises entries) λ rows. Raises-pure _
