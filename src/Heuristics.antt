-- ===== src/Heuristics.antt =====
-- ai-daemon/scheduler/heuristics.py. Log lines are left out, and a file's lines are taken after it
-- has been read.
pub mod Parse
mod Listing
mod Rules
pub mod Effects
pub mod Plan
pub mod Decides
pub mod Decisions
pub mod Order
pub mod Success
pub mod Changes
pub mod Permitted
pub mod Enacts
pub mod Keeps
pub mod ReadBack
pub mod Lifts
pub mod Audit
pub mod Recorded
pub use Listing.{ProcessInfo}
unfoldable pub use Parse.{parse_stat, scan_status}
unfoldable pub use Listing.{read_proc, list_entry, list_entries, list_processes}
pub use Rules.{Event, Rule, RuleAction, max_renice, renice_step}
pub use Rules.{high_cpu_rule, high_mem_rule, high_load_rule, low_cpu_restore_rule}
pub use Rules.{in_turn, renice_action, kill_suggestion, action_text}
unfoldable pub use Rules.{
  is_user, user_procs, throttled, top_rss, suggest_kill, emit, restore, report, throttle, high_cpu,
  load_limit, high_load, mem_pct, high_mem, restore_all, low_cpu_restore, apply_rules,
  run_heuristics,
}
