-- ===== src/Snapshot.antt =====
-- `SystemSnapshot` of ai-daemon/collectors/metrics.py.
use ai_m_os.Common.{ℤ, List, Text}
use ai_m_os.Json.{Json}

pub record SystemSnapshot (F : Type 0) : Type 0 where
  pub timestamp : F
  pub cpu_total_pct : F
  pub cpu_cores_pct : List F
  pub mem_total_kb : ℤ
  pub mem_used_kb : ℤ
  pub swap_total_kb : ℤ
  pub swap_used_kb : ℤ
  pub net_ifaces : Json F
  pub load_avg_1 : F
  pub cpu_temp_c : F
  pub cpu_governor : Text
