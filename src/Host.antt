-- ===== src/Host.antt =====
-- A machine on which the Python code can be run: files as a table, and the tasks with the kernel
-- module of this repository, loaded or not. Who calls is root or an ordinary user.
pub mod Laws
use ai_m_os.Common.{
  ℤ, pos, negsuc, eqb_ℤ, ltb_ℤ, Bool, true, false, List, Option, none, some, Text, codes, Exn, ok,
  raised, if◌then◌else◌, Result,
}
use ai_m_os.Common.Str.{text_eq}
use ai_m_os.Machine.{Os}
use ai_m_os.Machine.Laws.{clamp_nice, proc_iface}
use ai_m_os.KernelModule.{
  Tasks, Slot, no_pid, no_task, task, scheduler_write, set_user_nice, status_message,
}

pub record Host : Type 0 where
  pub loaded : Bool
  pub root : Bool
  pub tasks : Tasks
  pub files : Text → Option Text
  pub entries : List Text

unfoldable pub host_nice : Host → ℤ → Option ℤ
host_nice h pid = elim (h.tasks.slot pid) [ no_pid ↦ none | no_task ↦ none | task n ↦ some n ]

-- The exception for a negative result of a system call.
pub errno : ℤ → Exn
errno e = if eqb_ℤ e (negsuc 2) then Exn.process_lookup else Exn.os_error

-- A result that the module has returned.
unfoldable pub written : ℤ × Tasks → Host → Result (Unit {0}) × Host
unfolding errno
written (ret, ts) h =
    if ltb_ℤ ret (pos 0) then (raised (errno ret), h) else (ok tt, record h { tasks = ts })

unfoldable pub write_module : Text → Host → Result (Unit {0}) × Host
unfolding written
write_module t h =
    if h.loaded then written (scheduler_write false t h.tasks) h else (raised Exn.file_not_found, h)

unfoldable pub host_setpriority : ℤ → ℤ → Host → Result (Unit {0}) × Host
host_setpriority pid n h = elim (h.tasks.slot pid) [
  | no_pid ↦ (raised Exn.process_lookup, h)
  | no_task ↦ (raised Exn.process_lookup, h)
  | task m ↦
      if h.root
      then (ok tt, record h { tasks = set_user_nice pid (clamp_nice n) h.tasks })
      else (raised Exn.permission_error, h)
]

-- The files beside the module's, and a file system that is not written to.
abbrev pub host_os : Os Host
host_os = record {
  path_exists = λ p h. (ok (if text_eq p proc_iface then h.loaded else false), h);
  read_text = λ p h.
      if text_eq p proc_iface
      then (if h.loaded then ok status_message else raised Exn.file_not_found, h)
      else (elim (h.files p) [ none ↦ raised Exn.file_not_found | some t ↦ ok t ], h);
  write_text =
      λ p t h. if text_eq p proc_iface then write_module t h else (raised Exn.permission_error, h);
  scandir = λ p h. (ok h.entries, h);
  getpriority =
      λ pid h. (elim (host_nice h pid) [ none ↦ raised Exn.process_lookup | some n ↦ ok n ], h);
  setpriority = host_setpriority;
}
