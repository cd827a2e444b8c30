-- ===== src/SchedulerService.antt =====
-- ai-daemon/dbus/scheduler_service.py: the object on the system bus. Its state is the world of the
-- kernel interface and the `PriorityChanged` signals that have been sent. D-Bus hands its `i`
-- arguments over as integers, which `int(…)` leaves alone.
pub mod Laws
use ai_m_os.Common.{
  ℤ, pos, negsuc, leb_ℤ, Bool, true, false, not, ◌&&◌, List, [], ◌∷◌, ◌++◌, ok, Exn, Text, codes,
  if◌then◌else◌,
}
use ai_m_os.Common.Str.{text_eq}
use ai_m_os.Common.Action.{M, ◌>>=◌, ◌>>◌, pure, raise, try_except, lift, when}
use ai_m_os.Machine.{Os}
use ai_m_os.KernelIface.{renice_via_kernel, is_kernel_module_loaded}

-- pid, old nice value, new nice value
abbrev pub Signal : Type 0
Signal = ℤ × ℤ × ℤ

abbrev pub version : Text
version = codes "0.9.0"

-- `except (ProcessLookupError, PermissionError)`
abbrev is_lookup_refusal : Exn → Bool
is_lookup_refusal Exn.process_lookup = true
is_lookup_refusal Exn.permission_error = true
is_lookup_refusal _ = false

-- `Get` of `org.freedesktop.DBus.Properties`
unfoldable pub get_property : {S : Type 0} → Text → Text → M S Text
unfolding text_eq
get_property interface prop =
    if text_eq prop (codes "Version")
    then pure version
    else raise (Exn.dbus_error (codes "Unknown property"))

module _ {W : Type 0} (os : Os W) where
  abbrev pub Service : Type 0
  Service = W × List Signal

  unfoldable pub get_nice : ℤ → M Service ℤ
  get_nice pid = try_except is_lookup_refusal (lift (os.getpriority pid)) (λ _. pure (pos 0))

  unfoldable pub priority_changed : ℤ → ℤ → ℤ → M Service (Unit {0})
  priority_changed pid old_nice new_nice s = (ok tt, (s.0, s.1 ++ (pid, old_nice, new_nice) ∷ []))

  unfoldable pub set_process_priority : ℤ → ℤ → M Service Bool
  unfolding get_nice priority_changed
  set_process_priority pid nice =
      if not (leb_ℤ (negsuc 19) nice && leb_ℤ nice (pos 19)) then pure false else (do
        old ← get_nice pid
        result ← lift (renice_via_kernel os pid nice)
        when result (priority_changed pid old nice)
        pure result)

  unfoldable pub get_process_priority : ℤ → M Service ℤ
  unfolding get_nice
  get_process_priority pid = get_nice pid

  unfoldable pub is_module_loaded : M Service Bool
  unfolding is_kernel_module_loaded
  is_module_loaded = lift (is_kernel_module_loaded os)
