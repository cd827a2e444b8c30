-- ===== src/Window.antt =====
-- ai-daemon/dbus/aimos_scheduler_app.py: the process window. The widgets are reduced to what they
-- show and hold; the proxy of the D-Bus service is an interface. Layout is left out.
pub mod Handlers
pub mod Start
pub mod Keeps
pub mod Session
pub mod Listing
pub mod Bus
use ai_m_os.Common.{
  ℤ, leb_ℤ, Bool, true, false, List, [], ◌∷◌, ◌++◌, Option, none, some, Text, codes, Exn, ok,
  if◌then◌else◌,
}
use ai_m_os.Common.Str.{strip, is_digits}
use ai_m_os.Common.Number.{show_ℤ, read_ℤ}
use ai_m_os.Common.Outcome.{or_raise}
use ai_m_os.Common.Action.{M, ◌>>=◌, ◌>>◌, pure, from_result, lift, try_except}
use ai_m_os.Machine.{Os}

-- pid, name, nice value; `sorted(…, key=lambda x: x[0])` is stable
pub record ProcRow : Type 0 where
  pub pid : ℤ
  pub name : Text
  pub nice : ℤ

-- the two calls that the window makes of the service
pub record Proxy (W : Type 0) : Type 0 where
  pub is_kernel_module_loaded : M W Bool
  pub set_process_priority : ℤ → ℤ → M W Bool

pub record Window : Type 0 where
  pub status : Text
  pub result : Text
  pub rows : List ProcRow
  pub selected : Option ProcRow
  -- the value of the spin button, whose range is -20 to 19
  pub nice_spin : ℤ

abbrev is_gone : Exn → Bool
is_gone Exn.file_not_found = true
is_gone Exn.process_lookup = true
is_gone Exn.permission_error = true
is_gone _ = false

insert_asc : ProcRow → List ProcRow → List ProcRow
insert_asc x [] = x ∷ []
insert_asc x (y ∷ ys) = if leb_ℤ x.pid y.pid then x ∷ y ∷ ys else y ∷ insert_asc x ys

unfoldable pub sort_by_pid : List ProcRow → List ProcRow
unfolding insert_asc
sort_by_pid [] = []
sort_by_pid (x ∷ xs) = insert_asc x (sort_by_pid xs)

-- `while True: row = get_row_at_index(0) …; remove(row)`. Removing the selected row unselects it.
pub remove_rows : List ProcRow → Window → Window
remove_rows [] win = record win { rows = []; selected = none }
remove_rows (_ ∷ rest) win = remove_rows rest (record win { rows = rest })

-- `except dbus.DBusException`
abbrev is_dbus_error : Exn → Bool
is_dbus_error (Exn.dbus_error _) = true
is_dbus_error _ = false

-- `e.get_dbus_message()`
abbrev dbus_message : Exn → Text
dbus_message (Exn.dbus_error message) = message
dbus_message _ = []

module _ {W : Type 0} (os : Os W) where
  row_entry : Text → M W (List ProcRow)
  unfolding read_ℤ show_ℤ strip
  row_entry entry = do
    pid ← from_result (or_raise (read_ℤ entry) Exn.value_error)
    try_except is_gone
        (do
          name ← os.read_text (codes "/proc/" ++ show_ℤ pid ++ codes "/comm")
          nice ← os.getpriority pid
          pure (record { pid = pid; name = strip name; nice = nice } ∷ []))
        (λ _. pure [])

  row_entries : List Text → M W (List ProcRow)
  unfolding row_entry is_digits
  row_entries [] = pure []
  row_entries (entry ∷ entries) =
      let rest = row_entries entries in
      if is_digits entry
      then (do found ← row_entry entry; rows ← rest; pure (found ++ rows))
      else rest

  unfoldable pub list_rows : M W (List ProcRow)
  unfolding row_entries sort_by_pid
  list_rows = do
    entries ← os.scandir (codes "/proc")
    rows ← row_entries entries
    pure (sort_by_pid rows)

  abbrev pub WindowState : Type 0
  WindowState = W × Window

  unfoldable pub set_result : Text → M WindowState (Unit {0})
  set_result text s = (ok tt, (s.0, record (s.1) { result = text }))

  unfoldable pub set_status : Text → M WindowState (Unit {0})
  set_status text s = (ok tt, (s.0, record (s.1) { status = text }))

  unfoldable pub update_status : Option (Proxy W) → M WindowState (Unit {0})
  unfolding set_status
  update_status none = set_status (codes "D-Bus: not connected  |  Kernel module: unknown")
  update_status (some proxy) =
      try_except is_dbus_error
        (do
          loaded ← lift proxy.is_kernel_module_loaded
          let km = if loaded then codes "loaded" else codes "not loaded"
          set_status (codes "D-Bus: connected  |  Kernel module: " ++ km))
        (λ _. set_status (codes "D-Bus: error"))

  clear_rows : M WindowState (Unit {0})
  unfolding remove_rows
  clear_rows s = (ok tt, (s.0, remove_rows s.1.rows s.1))

  add_rows : List ProcRow → M WindowState (Unit {0})
  add_rows rows s = (ok tt, (s.0, record (s.1) { rows = s.1.rows ++ rows }))

  unfoldable pub load_processes : M WindowState (Unit {0})
  unfolding clear_rows add_rows
  load_processes = do clear_rows; rows ← lift list_rows; add_rows rows

  unfoldable pub on_refresh : Option (Proxy W) → M WindowState (Unit {0})
  unfolding set_result
  on_refresh proxy = do update_status proxy; load_processes; set_result (codes "Refreshed")

  -- The call of `_on_apply` for a selected row.
  apply_to : Proxy W → ProcRow → ℤ → M WindowState (Unit {0})
  unfolding set_result
  apply_to proxy row nice = do
    done ← lift (proxy.set_process_priority row.pid nice)
    if done
        then set_result
            (codes "PID " ++ show_ℤ row.pid ++ codes " -> nice " ++ show_ℤ nice ++ codes ": OK")
          >> load_processes
        else set_result (codes "PID " ++ show_ℤ row.pid ++ codes ": failed")

  unfoldable pub on_apply : Option (Proxy W) → M WindowState (Unit {0})
  unfolding set_result apply_to
  on_apply proxy s = elim s.1.selected [
    | none ↦ set_result (codes "Select a process first") s
    | some row ↦ elim proxy [
      | none ↦ set_result (codes "D-Bus not connected") s
      | some p ↦
          try_except is_dbus_error (apply_to p row s.1.nice_spin)
            (λ e. set_result (codes "D-Bus error: " ++ dbus_message e)) s
    ]
  ]
