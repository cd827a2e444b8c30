-- ===== src/Metrics.antt =====
-- ai-daemon/collectors/metrics.py. `/proc` is read through the operating system's interface; the
-- module's global `_prev_cpu` is the second part of the state.
mod Cpu
mod Meminfo
mod Collect
pub mod Keeps
pub mod Bounds
pub use Cpu.{Sample}
unfoldable pub use Cpu.{
  cpu_sample, cpu_line, read_cpu_lines, read_cpu_raw, usage, usages, cpu_usage,
}
pub use Meminfo.{Info}
unfoldable pub use Meminfo.{insert, get_or_zero, scan_meminfo, parse_meminfo, parse_load_avg}
pub use Collect.{Machinery, State}
unfoldable pub use Collect.{read_cpu_usage, read_meminfo, read_load_avg, get_from, collect}
