-- ===== src/System/Steps.antt =====
-- The steps, and what every run of them keeps.
use ai_m_os.Common.{ℕ, ℤ, eqb_ℤ, Bool, true, ◌≡◌, Text, ◌∙◌, Bool-cases, inl, inr, if◌then◌else◌}
use ai_m_os.Machine.Laws.{clamp_nice, clamp_nice-IsNice, IsNice}
use ai_m_os.KernelModule.{Tasks, Slot, no_pid, task, scheduler_write, set_user_nice}
use ai_m_os.KernelModule.Write.{IsNiceSlot, scheduler_write-IsNice, refs-scheduler_write}
use ai_m_os.Host.{Host}

-- A task that starts or ends.
abbrev set_slot : ℤ → Slot → Tasks → Tasks
set_slot pid s ts = record ts { slot = λ q. if eqb_ℤ q pid then s else ts.slot q }

-- One step of the kernel. The file of the module can be written by every user, with any bytes.
pub data Step (h h' : Host) : Type 0 where
  write :
      (faults : Bool) (buf : Text)
      → h.loaded ≡ true
      → h' ≡ record h { tasks = (scheduler_write faults buf h.tasks).1 }
      → Step h h'
  renice :
      (pid n m : ℤ)
      → h.tasks.slot pid ≡ task m
      → h' ≡ record h { tasks = set_user_nice pid (clamp_nice n) h.tasks }
      → Step h h'
  start :
      (pid n : ℤ)
      → h.tasks.slot pid ≡ no_pid
      → IsNice n
      → h' ≡ record h { tasks = set_slot pid (task n) h.tasks }
      → Step h h'
  finish : (pid : ℤ) → h' ≡ record h { tasks = set_slot pid no_pid h.tasks } → Step h h'
  load_or_unload : (loaded : Bool) → h' ≡ record h { loaded = loaded } → Step h h'

pub data Reach (h : Host) : Host → Type 0 where
  here : Reach h h
  next : {u v : Host} → Reach h u → Step u v → Reach h v

-- Every task's nice value is in [-20, 19], and so many references to `struct pid` are held.
pub record IsSane (refs : ℕ) (h : Host) : Type 0 where
  pub in_range : (q : ℤ) → IsNiceSlot (h.tasks.slot q)
  pub balanced : h.tasks.refs ≡ refs

set_slot-IsNiceSlot :
    (pid : ℤ) (new : Slot) (ts : Tasks) (q : ℤ)
    → IsNiceSlot new
    → IsNiceSlot (ts.slot q)
    → IsNiceSlot ((set_slot pid new ts).slot q)
set_slot-IsNiceSlot pid new ts q fits h = elim (Bool-cases (eqb_ℤ q pid)) [
  | inl e ↦ rw e fits
  | inr e ↦ rw e h
]

Step-IsSane : (refs : ℕ) (h h' : Host) → Step h h' → IsSane refs h → IsSane refs h'
Step-IsSane refs h h' (write faults buf loaded e) s = rw e (record {
  in_range = λ q. (scheduler_write-IsNice faults buf h.tasks q (s.in_range q)).0;
  balanced = refs-scheduler_write faults buf h.tasks ∙ s.balanced;
})
Step-IsSane refs h h' (renice pid n m live e) s = rw e (record {
  in_range = λ q.
      set_slot-IsNiceSlot pid (task (clamp_nice n)) h.tasks q (clamp_nice-IsNice n) (s.in_range q);
  balanced = s.balanced;
})
Step-IsSane refs h h' (start pid n free fits e) s = rw e (record {
  in_range = λ q. set_slot-IsNiceSlot pid (task n) h.tasks q fits (s.in_range q);
  balanced = s.balanced;
})
Step-IsSane refs h h' (finish pid e) s = rw e (record {
  in_range = λ q. set_slot-IsNiceSlot pid no_pid h.tasks q tt (s.in_range q);
  balanced = s.balanced;
})
Step-IsSane refs h h' (load_or_unload loaded e) s =
    rw e (record { in_range = s.in_range; balanced = s.balanced })

-- A run of kernel steps from a machine whose nice values are in [-20, 19] ends in one whose nice
-- values are, with as many references to `struct pid` held as at its start: whatever is written to
-- the module's file and whichever priorities are set, in whatever order with the tasks that start
-- and end, and whether the module is loaded or unloaded in between.
pub Reach-IsSane : (refs : ℕ) (h h' : Host) → Reach h h' → IsSane refs h → IsSane refs h'
Reach-IsSane refs h h' here s = s
Reach-IsSane refs h h' (next {u} r step) s = Step-IsSane refs u h' step (Reach-IsSane refs h u r s)
