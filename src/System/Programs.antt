-- ===== src/System/Programs.antt =====
-- The daemon on a machine with its kernel module, as steps of the kernel.
use ai_m_os.Common.{
  ℕ, ℤ, pos, ltb_ℤ, Bool, true, false, Text, List, ◌≡◌, refl, Exn, Result, ok, raised, Bool-cases,
  inl, inr, if◌then◌else◌,
}
use ai_m_os.Common.Str.{text_eq}
use ai_m_os.Common.Keeps.{Keeps}
use ai_m_os.Common.Yields.{Yields}
use ai_m_os.Float.{Float}
use ai_m_os.Database.Keeps.{IsStoring}
use ai_m_os.Machine.Laws.{clamp_nice, proc_iface}
use ai_m_os.Machine.Keeps.{IsReading, IsWriting}
use ai_m_os.KernelModule.{Slot, no_pid, no_task, task, scheduler_write, set_user_nice}
use ai_m_os.Host.{Host, host_os, host_setpriority, write_module, written, errno}
use ai_m_os.Metrics.{Machinery, Sample}
use ai_m_os.Metrics.Keeps.{IsObserving}
use ai_m_os.Heuristics.Keeps.{run_heuristics-Keeps}
use ai_m_os.Daemon.{Setting, main}
use ai_m_os.Daemon.Keeps.{main-Keeps}
use ai_m_os.System.Steps.{Step, Reach, here, next, write, renice}

module _ (h₀ : Host) where
  read_text-Reach : (p : Text) (h : Host) → Reach h₀ h → Reach h₀ (host_os.read_text p h).1
  read_text-Reach p h r = elim (Bool-cases (text_eq p proc_iface)) [
    | inl e ↦ rw e r
    | inr e ↦ rw e r
  ]

  Reach-IsReading : IsReading (Reach h₀) host_os
  Reach-IsReading = record {
    path_exists_keeps = λ p. record { at = λ h r. r };
    read_text_keeps = λ p. record { at = read_text-Reach p };
    scandir_keeps = λ p. record { at = λ h r. r };
    getpriority_keeps = λ pid. record { at = λ h r. r };
  }

  -- An outcome with the old world, or the one that a step leads to.
  abbrev either : Bool → Exn → Host → Host → Result (Unit {0}) × Host
  either b e h h' = if b then (ok tt, h') else (raised e, h)

  either-Reach :
      (b : Bool) (e : Exn) (h h' : Host)
      → Reach h₀ h
      → (b ≡ true → Step h h')
      → Reach h₀ (either b e h h').1
  either-Reach true e h h' r step = next r (step refl)
  either-Reach false e h h' r step = r

  write_module-Reach : (line : Text) (h : Host) → Reach h₀ h → Reach h₀ (write_module line h).1
  unfolding write_module written
  write_module-Reach line h r = go h.loaded refl
    where
      go :
          (b : Bool)
          → h.loaded ≡ b
          → Reach h₀
              (if◌then◌else◌ {A = Result (Unit {0}) × Host} b
                (written (scheduler_write false line h.tasks) h)
                (raised Exn.file_not_found, h)).1
      go false e = r
      go true e =
          elim (ltb_ℤ (scheduler_write false line h.tasks).0 (pos 0))
            as (λ b.
              Reach h₀
                (if◌then◌else◌ {A = Result (Unit {0}) × Host} b
                  (raised (errno (scheduler_write false line h.tasks).0), h)
                  (ok tt, record h { tasks = (scheduler_write false line h.tasks).1 })).1) [
                    | true ↦ r
                    | false ↦ next r (write false line e refl)
                  ]

  setpriority-Reach : (pid n : ℤ) (h : Host) → Reach h₀ h → Reach h₀ (host_setpriority pid n h).1
  unfolding host_setpriority
  setpriority-Reach pid n h r = go (h.tasks.slot pid) refl
    where
      go :
          (s : Slot)
          → h.tasks.slot pid ≡ s
          → Reach h₀
              (elim s as (λ x. Result (Unit {0}) × Host) [
                | no_pid ↦ (raised Exn.process_lookup, h)
                | no_task ↦ (raised Exn.process_lookup, h)
                | task m ↦
                    either h.root Exn.permission_error h
                      (record h { tasks = set_user_nice pid (clamp_nice n) h.tasks })
              ]).1
      go no_pid e = r
      go no_task e = r
      go (task m) e = either-Reach h.root Exn.permission_error h _ r λ _. renice pid n m e refl

  Reach-IsWriting : IsWriting (Reach h₀) host_os
  unfolding text_eq write_module
  Reach-IsWriting = record {
    write_line_keeps = λ line. record { at = write_module-Reach line };
    setpriority_keeps = λ pid n. record { at = setpriority-Reach pid n };
  }

-- The daemon's environment: the readings that are no files, the sleep, and the database.
module _ {F : Type 0} (fl : Float F) (mc : Machinery Host F) (set : Setting Host F) (h₀ : Host)
    (observes : IsObserving (Reach h₀) mc) (sleeps : Keeps (Reach h₀) set.sleep)
    (opens : Yields (Reach h₀) (IsStoring (Reach h₀)) set.get_conn) where
  -- With readings, a sleep and a connection that do kernel steps at most (those of other programs):
  -- what the daemon does to the machine in any number of rounds, however it ends, is a run of
  -- kernel steps.
  pub main-Reach :
      (fuel : ℕ) (samples : List Sample) → Reach h₀ (main host_os fl mc set fuel (h₀, samples)).1.0
  main-Reach fuel samples =
      (main-Keeps host_os fl mc (Reach-IsReading h₀) observes set (IsStoring (Reach h₀))
          (λ db stores. stores)
          (run_heuristics-Keeps host_os (Reach-IsReading h₀) (Reach-IsWriting h₀) fl) sleeps opens
          fuel).at
        (h₀, samples) here
