-- ===== src/Examples/Copies.antt =====
-- The rules with a database that carries out every call, and those of the deployed copy.
use ai_m_os.Common.{true, refl, ℕ, ◌≡◌, some, none, []}
use ai_m_os.Database.Recorder.{Store, saved, recorder}
use ai_m_os.Machine.Beside.{beside_os}
use ai_m_os.Host.{Host, host_os}
use ai_m_os.Daemon.{Setting, main}
use ai_m_os.Heuristics.{run_heuristics}
use ai_m_os.Heuristics.Recorded.{Recorded, run_heuristics-Recorded}
use ai_m_os.Deployed.Heuristics as Deployed
use ai_m_os.Deployed.Daemon as DeployedDaemon
use ai_m_os.Deployed.Unconnected.{main_deployed}
use ai_m_os.Deployed.RuleRows
use ai_m_os.Deployed.Recorded.{run_heuristics_cpu_rows}
use ai_m_os.Examples.Fixed.{fixed}
use ai_m_os.Examples.Service.{machinery, setting}
use ai_m_os.Examples.Laptop.{laptop, busy, idle}

run_heuristics-Recorded_example :
    Recorded host_os fixed idle []
      (run_heuristics host_os fixed none idle laptop)
      (run_heuristics (beside_os (Store ℕ) host_os) fixed (some recorder) idle (laptop, saved []))
run_heuristics-Recorded_example = run_heuristics-Recorded host_os fixed idle [] laptop

-- The unit of the image sets `AIMOS_NO_DB`.
abbrev unit_setting : Setting Host ℕ
unit_setting = record setting { no_db = true }

main_deployed_example :
    DeployedDaemon.main host_os fixed machinery unit_setting 5 (laptop, [])
    ≡ main host_os fixed machinery unit_setting 5 (laptop, [])
main_deployed_example = main_deployed host_os fixed machinery unit_setting 5 (laptop, []) refl

run_heuristics_cpu_rows_example :
    RuleRows.Recorded host_os fixed busy []
      (Deployed.run_heuristics host_os fixed none busy laptop)
      (Deployed.run_heuristics
        (beside_os (Store ℕ) host_os)
        fixed
        (some recorder)
        busy
        (laptop, saved []))
run_heuristics_cpu_rows_example = run_heuristics_cpu_rows host_os fixed busy [] laptop
