-- ===== src/KernelModule/Write.antt =====
-- What a write to `/proc/aimos_scheduler` does to the tasks.
use ai_m_os.Common.{
  ℕ, ◌+◌, ◌-◌, ◌≡◌, refl, ℤ, pos, negsuc, ◌≤◌, ◌<ℤ◌, leb, eqb_ℤ, ltb_ℤ, Bool, false, ◌||◌, some,
  Text, if◌then◌else◌, arith,
}
use ai_m_os.Common.Lists.{length}
use ai_m_os.Machine.Laws.{IsPid, IsNice, renice_line}
use ai_m_os.KernelModule.{Tasks, Slot, task, sscanf_two, renice_task, scheduler_write, buffer_size}
use ai_m_os.KernelModule.Line.{sscanf_two-renice_line, length-renice_line}

-- A task's nice value lies in its range.
abbrev pub IsNiceSlot : Slot → Type 0
IsNiceSlot (task n) = IsNice n
IsNiceSlot _ = Unit

pub renice_task_line :
    (count : ℕ) (pid n m : ℤ) (ts : Tasks)
    → ts.slot pid ≡ task m
    → renice_task count pid n ts ≡ (
      pos count,
      record { slot = λ q. if eqb_ℤ q pid then task n else ts.slot q; refs = ts.refs + 1 - 1 },
    )
unfolding renice_task
renice_task_line count pid n m ts e = rw (e, renice_task)

pub scheduler_write_of_scan :
    (buf : Text) (pid n : ℤ) (ts : Tasks)
    → length buf ≤ 24
    → IsNice n
    → sscanf_two buf ≡ some (pid, n)
    → scheduler_write false buf ts ≡ renice_task (length buf) pid n ts
unfolding scheduler_write
scheduler_write_of_scan buf pid n ts short h e =
    let fits : leb buffer_size (length buf) ≡ false = ground arith in
    let in_range : (ltb_ℤ n (negsuc 19) || ltb_ℤ (pos 19) n) ≡ false = ground arith in
    rw (fits, e, scheduler_write) (rw in_range)

-- For a process number that a `pid_t` holds, a live task and a value in [-20, 19], the line that
-- `renice_via_kernel` writes is taken whole, sets that value, and leaves all other tasks and the
-- references as they were.
pub scheduler_write-renice_line :
    (pid n m : ℤ) (ts : Tasks)
    → IsPid pid
    → IsNice n
    → ts.slot pid ≡ task m
    → let (ret, ts') = scheduler_write false (renice_line pid n) ts in
      (ret ≡ pos (length (renice_line pid n)))
      × ((q : ℤ) → ts'.slot q ≡ (if eqb_ℤ q pid then task n else ts.slot q))
      × (ts'.refs ≡ ts.refs)
scheduler_write-renice_line pid n m ts hp hn live =
    rw
      (
        scheduler_write_of_scan (renice_line pid n) pid n ts
            (length-renice_line pid n (omega arith) (omega arith)) hn
            (sscanf_two-renice_line pid n (omega arith) (omega arith)),
        renice_task_line (length (renice_line pid n)) pid n m ts live,
      )
      (refl, (λ q. refl), omega arith)

-- Whatever is written, by whatever path the call returns, the references to `struct pid` that it
-- took are given back.
pub refs-scheduler_write :
    (faults : Bool) (buf : Text) (ts : Tasks) → (scheduler_write faults buf ts).1.refs ≡ ts.refs
unfolding scheduler_write renice_task
refs-scheduler_write faults buf ts = ground arith

-- Whatever is written, a task's nice value in [-20, 19] stays in it, and a call that returns an
-- error code changes no task.
pub scheduler_write-IsNice :
    (faults : Bool) (buf : Text) (ts : Tasks) (q : ℤ)
    → IsNiceSlot (ts.slot q)
    → let (ret, ts') = scheduler_write faults buf ts in
      IsNiceSlot (ts'.slot q) × (ret <ℤ pos 0 → ts'.slot q ≡ ts.slot q)
unfolding scheduler_write renice_task
scheduler_write-IsNice faults buf ts q h = ground arith
