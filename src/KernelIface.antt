-- ===== src/KernelIface.antt =====
-- ai-daemon/scheduler/kernel_iface.py. Log lines are left out.
pub mod Renice
use ai_m_os.Common.{
  ℤ, Bool, true, false, not, Option, none, some, ok, is_os_error, Exn, Text, codes, [], ◌∷◌,
  if◌then◌else◌,
}
use ai_m_os.Common.Str.{strip, lower, has_part}
use ai_m_os.Common.Action.{M, ◌>>=◌, ◌>>◌, pure, raise, try_except}
use ai_m_os.Machine.{Os}
use ai_m_os.Machine.Laws.{proc_iface, renice_line}

pub record SchedulerStatus : Type 0 where
  pub active : Bool
  pub raw : Text

pub record SchedulerInfo : Type 0 where
  pub loaded : Bool
  pub active : Bool
  pub raw : Text

-- `not raw`
unfoldable pub parse_scheduler_status : Text → SchedulerStatus
unfolding has_part lower
parse_scheduler_status [] = record { active = false; raw = [] }
parse_scheduler_status (c ∷ s) = record {
  active = has_part (lower (c ∷ s)) (codes "active");
  raw = c ∷ s;
}

-- the two arms of `except` in `_renice_fallback`
abbrev is_renice_refusal : Exn → Bool
is_renice_refusal Exn.permission_error = true
is_renice_refusal Exn.process_lookup = true
is_renice_refusal _ = false

module _ {W : Type 0} (os : Os W) where
  unfoldable pub is_kernel_module_loaded : M W Bool
  is_kernel_module_loaded = os.path_exists proc_iface

  unfoldable pub read_scheduler_status : M W (Option Text)
  unfolding strip
  read_scheduler_status = do
    there ← os.path_exists proc_iface
    if there
        then try_except is_os_error
            (do status ← os.read_text proc_iface; pure (some (strip status))) (λ _. pure none)
        else pure none

  unfoldable pub renice_fallback : ℤ → ℤ → M W Bool
  renice_fallback pid new_nice =
      try_except is_renice_refusal (do os.getpriority pid; os.setpriority pid new_nice; pure true)
        (λ _. pure false)

  unfoldable pub renice_via_kernel : ℤ → ℤ → M W Bool
  unfolding renice_fallback
  renice_via_kernel pid new_nice = do
    there ← os.path_exists proc_iface
    if there
        then try_except is_os_error
            (do os.write_text proc_iface (renice_line pid new_nice); pure true)
            (λ _. renice_fallback pid new_nice)
        else renice_fallback pid new_nice

  unfoldable pub get_scheduler_info : M W SchedulerInfo
  unfolding is_kernel_module_loaded read_scheduler_status parse_scheduler_status
  get_scheduler_info = do
    loaded ← is_kernel_module_loaded
    if loaded
        then (do
          raw ← read_scheduler_status
          let info = parse_scheduler_status (elim raw [ none ↦ [] | some s ↦ s ])
          pure (record { loaded = true; active = info.active; raw = info.raw }))
        else pure (record { loaded = false; active = false; raw = [] })
