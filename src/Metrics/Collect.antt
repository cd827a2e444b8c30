-- ===== src/Metrics/Collect.antt =====
-- The readings as actions, and `collect`.
use ai_m_os.Common.{
  ℤ, pos, List, Text, codes, Option, none, some, Exn, Result, ok, raised, if◌then◌else◌,
}
use ai_m_os.Common.Action.{M, ◌>>=◌, pure, from_result, lift}
use ai_m_os.Float.{Float}
use ai_m_os.Json
use ai_m_os.Json.{Json, dict, float, int, str, end, is_true}
use ai_m_os.Snapshot.{SystemSnapshot}
use ai_m_os.Machine.{Os}
use ai_m_os.Metrics.Cpu.{Sample, read_cpu_raw, cpu_usage}
use ai_m_os.Metrics.Meminfo.{parse_meminfo, parse_load_avg}

-- What `collect` calls outside of `/proc`: `time.time()`, `read_daemon`, and the conversions
-- `float(v)` and `str(v)` of a parsed value.
pub record Machinery (W F : Type 0) : Type 0 where
  pub time : M W F
  pub read_daemon : Text → M W (Option (Json F))
  pub float_of : Json F → Result F
  pub str_of : Json F → Text

module _ {W F : Type 0} (os : Os W) (fl : Float F) (mc : Machinery W F) where
  abbrev pub State : Type 0
  State = W × List Sample

  -- `_prev_cpu = curr` stands on both ways out.
  unfoldable pub read_cpu_usage : M State (F × List F)
  unfolding read_cpu_raw cpu_usage
  read_cpu_usage = do
    text ← lift (os.read_text (codes "/proc/stat"))
    curr ← from_result (read_cpu_raw text)
    λ s. (ok (cpu_usage fl s.1 curr), (s.0, curr))

  unfoldable pub read_meminfo : M W (ℤ × ℤ × ℤ × ℤ)
  unfolding parse_meminfo
  read_meminfo = do text ← os.read_text (codes "/proc/meminfo"); from_result (parse_meminfo text)

  unfoldable pub read_load_avg : M W F
  unfolding parse_load_avg
  read_load_avg = do
    text ← os.read_text (codes "/proc/loadavg")
    from_result (parse_load_avg fl text)

  -- `read_daemon(name) or {}`, on which `get` is called: only a dict has that.
  unfoldable pub get_from : Option (Json F) → Text → Json F → Result (Json F)
  unfolding is_true Json.get
  get_from none key d = ok d
  get_from (some (dict fs)) key d = ok (Json.get_or key d fs)
  get_from (some v) key d = if is_true fl v then raised Exn.attribute_error else ok d

  unfoldable pub collect : M State (SystemSnapshot F)
  unfolding read_cpu_usage read_meminfo read_load_avg get_from
  collect = do
    (cpu_total, cpu_cores) ← read_cpu_usage
    (mem_total, mem_used, swap_total, swap_used) ← lift read_meminfo
    net_data ← lift (mc.read_daemon (codes "network"))
    net_ifaces ← from_result (get_from net_data (codes "ifaces") (dict end))
    sensor_data ← lift (mc.read_daemon (codes "sensor"))
    power_data ← lift (mc.read_daemon (codes "power"))
    load ← lift read_load_avg
    now ← lift mc.time
    temp ← from_result (get_from sensor_data (codes "cpu_temp_c") (float (fl.of_int (pos 0))))
    cpu_temp_c ← from_result (mc.float_of temp)
    governor ← from_result (get_from power_data (codes "cpu_governor") (str (codes "unknown")))
    pure (record {
      timestamp = now;
      cpu_total_pct = cpu_total;
      cpu_cores_pct = cpu_cores;
      mem_total_kb = mem_total;
      mem_used_kb = mem_used;
      swap_total_kb = swap_total;
      swap_used_kb = swap_used;
      net_ifaces = net_ifaces;
      load_avg_1 = load;
      cpu_temp_c = cpu_temp_c;
      cpu_governor = mc.str_of governor;
    })
