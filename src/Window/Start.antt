-- ===== src/Window/Start.antt =====
-- ai-daemon/dbus/aimos_scheduler_app.py: how the window comes up, and what its widgets call. GTK
-- hands over one event after the other.
use ai_m_os.Common.{ℕ, ℤ, pos, [], Option, none, some, ok, raised}
use ai_m_os.Common.Lists.{get_elem?}
use ai_m_os.Common.Action.{M, ◌>>=◌, ◌>>◌, pure, try_except}
use ai_m_os.Machine.{Os}
use ai_m_os.Machine.Laws.{clamp_nice}
use ai_m_os.Window.{
  Proxy, Window, WindowState, is_dbus_error, update_status, load_processes, on_refresh, on_apply,
}

-- What the user does. A list of rows takes a click on one of them only.
pub data UserEvent : Type 0 where
  select_row : ℕ → UserEvent
  turn_spin : ℤ → UserEvent
  click_refresh click_apply : UserEvent

-- `get_object` is `dbus.SystemBus().get_object(BUS_NAME, OBJ_PATH)`.
unfoldable pub get_proxy : {W : Type 0} → M W (Proxy W) → M W (Option (Proxy W))
get_proxy get_object =
    try_except is_dbus_error (do proxy ← get_object; pure (some proxy)) (λ _. pure none)

-- The widgets before anything is shown in them.
abbrev pub new_window : Window
new_window = record { status = []; result = []; rows = []; selected = none; nice_spin = pos 0 }

module _ {W : Type 0} (os : Os W) where
  -- `SchedulerWindow(app)`: the window, with its proxy
  unfoldable pub open_window : M W (Proxy W) → M W (Option (Proxy W) × Window)
  open_window get_object = do
    proxy ← get_proxy get_object
    λ w.
        let (r, s) = (update_status os proxy >> load_processes os) (w, new_window) in
        (elim r [ ok _ ↦ ok (proxy, s.1) | raised e ↦ raised e ], s.0)

  -- The call that an event makes. The spin button keeps its value in -20 to 19.
  unfoldable pub handle : Option (Proxy W) → UserEvent → M (WindowState os) (Unit {0})
  handle proxy (select_row i) s = (
    ok tt,
    (
      s.0,
      elim (get_elem? s.1.rows i) [ none ↦ s.1 | some row ↦ record (s.1) { selected = some row } ],
    ),
  )
  handle proxy (turn_spin n) s = (ok tt, (s.0, record (s.1) { nice_spin = clamp_nice n }))
  handle proxy click_refresh s = on_refresh os proxy s
  handle proxy click_apply s = on_apply os proxy s
