-- ===== src/Examples/Priorities.antt =====
-- The kernel interface, the D-Bus object and the kernel module on the example machine.
use ai_m_os.Common.{
  ◌++◌, ◌∷◌, ℤ, pos, negsuc, ◌≡◌, refl, arith, some, ok, true, false, [], eqb_ℤ, if◌then◌else◌,
}
use ai_m_os.Common.Lists.{length}
use ai_m_os.Machine.Laws.{clamp_nice, Sets, renice_line}
use ai_m_os.KernelIface.{renice_via_kernel, renice_fallback}
use ai_m_os.KernelIface.Renice.{Reniced, renice_via_kernel_lem}
use ai_m_os.SchedulerService.{Service, set_process_priority, get_process_priority}
use ai_m_os.SchedulerService.Laws.{
  SetPriority, set_process_priority_lem, set_process_priority_permitted, get-set_process_priority,
}
use ai_m_os.Common.Number.{show_ℤ, show_ℕ}
use ai_m_os.Common.Str.{text_eq}
use ai_m_os.KernelModule.{
  scheduler_write, sscanf_two, task, scan_int, scan_number, scan_digits, skip_spaces, renice_task,
}
use ai_m_os.KernelModule.Line.{sscanf_two-renice_line}
use ai_m_os.KernelModule.Write.{scheduler_write-renice_line}
use ai_m_os.Host.{Host, host_nice, host_os, host_setpriority, write_module}
use ai_m_os.Host.Laws.{host-IsLawful}
use ai_m_os.Examples.Laptop.{laptop, tasks}

renice_via_kernel_lem_example :
    Reniced host_nice laptop
      (pos 800)
      (clamp_nice (pos 40))
      (renice_via_kernel host_os (pos 800) (pos 40) laptop)
renice_via_kernel_lem_example =
    renice_via_kernel_lem host_nice host_os host-IsLawful (pos 800) (pos 40) laptop
      (omega arith, omega arith) (omega arith, omega arith)

set_process_priority_lem_example :
    SetPriority host_nice host_os
      (laptop, [])
      (pos 700)
      (negsuc 4)
      (set_process_priority host_os (pos 700) (negsuc 4) (laptop, []))
set_process_priority_lem_example =
    set_process_priority_lem host_nice host_os host-IsLawful (pos 700) (negsuc 4) (laptop, [])
      (omega arith, omega arith)

scheduler_write-renice_line_example :
    let (ret, ts) = scheduler_write false (renice_line (pos 700) (negsuc 4)) tasks in
    (ret ≡ pos (length (renice_line (pos 700) (negsuc 4))))
    × ((q : ℤ) → ts.slot q ≡ (if eqb_ℤ q (pos 700) then task (negsuc 4) else tasks.slot q))
    × (ts.refs ≡ tasks.refs)
scheduler_write-renice_line_example =
    scheduler_write-renice_line (pos 700) (negsuc 4) (pos 3) tasks (omega arith, omega arith)
      (omega arith, omega arith) refl

sscanf_two-renice_line_example :
    sscanf_two (renice_line (pos 700) (negsuc 4)) ≡ some (pos 700, negsuc 4)
sscanf_two-renice_line_example =
    sscanf_two-renice_line (pos 700) (negsuc 4) (omega arith, omega arith)
      (omega arith, omega arith)

abbrev after : Service host_os
after = (set_process_priority host_os (pos 700) (negsuc 4) (laptop, [])).1

accepted : set_process_priority host_os (pos 700) (negsuc 4) (laptop, []) ≡ (ok true, after)
unfolding set_process_priority renice_via_kernel renice_fallback write_module scheduler_write
    sscanf_two scan_int scan_number scan_digits skip_spaces renice_line renice_task show_ℤ show_ℕ
    text_eq host_nice
accepted = refl

get-set_process_priority_example :
    get_process_priority host_os (pos 700) after ≡ (ok (negsuc 4), after)
get-set_process_priority_example =
    get-set_process_priority host_nice host_os host-IsLawful (pos 700) (negsuc 4) (laptop, []) after
      (omega arith, omega arith) accepted

abbrev reniced : Host
reniced = (host_os.setpriority (pos 700) (negsuc 4) laptop).1

set_process_priority_permitted_example :
    (w : Host) × (set_process_priority host_os (pos 700) (negsuc 4) (laptop, [])
      ≡ (ok true, (w, [] ++ (pos 700, pos 3, negsuc 4) ∷ [])))
    × Sets host_nice laptop (pos 700) (negsuc 4) w
unfolding host_nice host_setpriority
set_process_priority_permitted_example =
    set_process_priority_permitted host_nice host_os host-IsLawful (pos 700) (negsuc 4) (pos 3)
      (laptop, []) reniced (omega arith, omega arith) (omega arith, omega arith) refl refl
