-- ===== src/Examples/System.antt =====
-- The daemon on the example machine, as steps of its kernel.
use ai_m_os.Common.{ℤ, refl, [], arith}
use ai_m_os.Database.Keeps.{IsStoring}
use ai_m_os.KernelModule.Write.{IsNiceSlot}
use ai_m_os.Host.{host_os}
use ai_m_os.Daemon.{main}
use ai_m_os.Metrics.Keeps.{IsObserving}
use ai_m_os.System.Steps.{Reach, IsSane, Reach-IsSane}
use ai_m_os.System.Programs.{main-Reach}
use ai_m_os.Examples.Fixed.{fixed}
use ai_m_os.Examples.Laptop.{laptop}
use ai_m_os.Examples.Service.{machinery, setting, live_db}

laptop-IsSane : IsSane 4 laptop
laptop-IsSane = record { in_range = in_range; balanced = refl }
  where
    in_range : (q : ℤ) → IsNiceSlot (laptop.tasks.slot q)
    in_range q = ground arith

observes : IsObserving (Reach laptop) machinery
observes = record {
  time_keeps = record { at = λ h r. r };
  read_daemon_keeps = λ name. record { at = λ h r. r };
}

works_keeps : IsStoring (Reach laptop) live_db
works_keeps = record {
  cursor_keeps = record { at = λ h r. r };
  execute_keeps = λ row. record { at = λ h r. r };
  execute_values_keeps = λ rows. record { at = λ h r. r };
  execute_script_keeps = λ sql. record { at = λ h r. r };
  commit_keeps = record { at = λ h r. r };
  rollback_keeps = record { at = λ h r. r };
  close_keeps = record { at = λ h r. r };
}

daemon_run : Reach laptop (main host_os fixed machinery setting 3 (laptop, [])).1.0
daemon_run =
    main-Reach fixed machinery setting laptop observes (record { at = λ h r. r })
      (record { at = λ h r. (works_keeps, r) }) 3 []

Reach-IsSane_example : IsSane 4 (main host_os fixed machinery setting 3 (laptop, [])).1.0
Reach-IsSane_example =
    Reach-IsSane 4 laptop (main host_os fixed machinery setting 3 (laptop, [])).1.0 daemon_run
      laptop-IsSane
