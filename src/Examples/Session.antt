-- ===== src/Examples/Session.antt =====
-- The process window and the D-Bus object on the example machine.
use ai_m_os.Common.{
  List, ℤ, pos, Result, raised, Option-cases, refl, some, none, [], ◌∷◌, Exn, Text, codes, ok,
  arith, Bool-cases, inl, inr,
}
use ai_m_os.Common.Str.{text_eq}
use ai_m_os.Common.Raises.{Fine}
use ai_m_os.Machine.{Os}
use ai_m_os.Machine.Laws.{Same, proc_iface}
use ai_m_os.Machine.Beside.{beside_os}
use ai_m_os.SchedulerService.{Signal}
use ai_m_os.Machine.Keeps.{IsReading}
use ai_m_os.Host.{Host, host_nice, host_os}
use ai_m_os.Host.Laws.{host-IsLawful}
use ai_m_os.Window.{
  ProcRow, Proxy, Window, WindowState, on_apply, list_rows, load_processes, update_status,
}
use ai_m_os.Window.Start.{select_row, turn_spin, open_window, handle, get_proxy, new_window}
use ai_m_os.Window.Keeps.{IsWindow}
use ai_m_os.Window.Listing.{IsApart, IsNoDbus}
use ai_m_os.Window.Bus.{service_proxy, Told, on_apply-Told}
use ai_m_os.Window.Session.{opened, event, Session-IsWindow}
use ai_m_os.Examples.Laptop.{laptop}

abbrev edit_row : ProcRow
edit_row = record { pid = pos 800; name = codes "edit"; nice = pos 0 }

abbrev window : Window
window = record {
  status = [];
  result = [];
  rows = edit_row ∷ [];
  selected = some edit_row;
  nice_spin = pos 7;
}

abbrev message : Exn → Text
message e = codes "the method has failed"

read_text-Same :
    (w : Host) (p : Text) (h : Host)
    → Same host_nice w h
    → Same host_nice w (host_os.read_text p h).1
read_text-Same w p h same = elim (Bool-cases (text_eq p proc_iface)) [
  | inl e ↦ rw e same
  | inr e ↦ rw e same
]

reads : (w : Host) → IsReading (Same host_nice w) host_os
reads w = record {
  path_exists_keeps = λ p. record { at = λ h same. same };
  read_text_keeps = λ p. record { at = read_text-Same w p };
  scandir_keeps = λ p. record { at = λ h same. same };
  getpriority_keeps = λ pid. record { at = λ h same. same };
}

read_text-Fine : (p : Text) (h : Host) → Fine IsNoDbus (host_os.read_text p h).0
read_text-Fine p h = elim (Bool-cases (text_eq p proc_iface)) [
  | inl e ↦ elim (Bool-cases h.loaded) [ inl f ↦ rw (e, f) tt | inr f ↦ rw (e, f) refl ]
  | inr e ↦ elim (Option-cases (h.files p)) [ inl f ↦ rw (e, f) refl | inr (t, f) ↦ rw (e, f) tt ]
]

getpriority-Fine : (pid : ℤ) (h : Host) → Fine IsNoDbus (host_os.getpriority pid h).0
getpriority-Fine pid h =
    elim (host_nice h pid)
      as (λ x.
        Fine IsNoDbus
          (elim x as (λ y. Result ℤ) [ none ↦ raised Exn.process_lookup | some n ↦ ok n ])) [
            | none ↦ refl
            | some n ↦ tt
          ]

apart : IsApart host_os
apart = record {
  read_text_apart = λ p. record { at = read_text-Fine p };
  scandir_apart = λ p. record { at = λ h. tt };
  getpriority_apart = λ pid. record { at = getpriority-Fine pid };
}

on_apply-Told_example :
    Told host_nice host_os message edit_row
      (laptop, [])
      window
      (on_apply
        (beside_os (List Signal) host_os)
        (some (service_proxy host_os message))
        ((laptop, []), window)).1
on_apply-Told_example =
    on_apply-Told host_nice host_os message host-IsLawful reads apart edit_row (laptop, []) window
      refl (omega arith, omega arith)

abbrev get_object : Host → Result (Proxy Host) × Host
get_object h = (raised (Exn.dbus_error (codes "no such name")), h)

-- Every `comm` file reads the same here.
abbrev comm_os : Os Host
comm_os = record host_os { read_text = λ p h. (ok (codes "task\n"), h) }

abbrev opened_window : Window
opened_window = elim (open_window comm_os get_object laptop).0 [
  | ok (_, win) ↦ win
  | raised _ ↦ new_window
]

abbrev chosen : WindowState comm_os
chosen = (handle comm_os none (select_row 1) (laptop, opened_window)).1

Session-IsWindow_example : IsWindow (handle comm_os none (turn_spin (pos 40)) chosen).1.1
unfolding open_window get_proxy update_status load_processes list_rows host_nice
Session-IsWindow_example =
    Session-IsWindow comm_os get_object none laptop laptop opened_window
      (handle comm_os none (turn_spin (pos 40)) chosen).1 refl
      (event (turn_spin (pos 40)) (event (select_row 1) opened))
