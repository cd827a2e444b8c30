-- ===== src/Host/Laws.antt =====
-- The machine with the kernel module against what the Python code relies on.
use ai_m_os.Common.{
  ℤ, pos, negsuc, ltb_ℤ, true, false, none, Exn, ok, raised, ◌||◌, ◌≡◌, ◌≢◌, ◌⊎◌, ◌<ℤ◌, ◌+◌, ◌-◌,
  ◌∙◌, ℕ, subst, sym, ap, Text, inl, inr, refl, arith, is_os_error, Bool-cases, leb,
}
use ai_m_os.Common.Str.{text_eq}
use ai_m_os.Common.Lists.{length}
use ai_m_os.Machine.Laws.{
  clamp_nice, clamp_nice-eq_self, proc_iface, renice_line, IsPid, IsInt, IsNice, Sets, IsLawful,
}
use ai_m_os.KernelModule.{
  Tasks, Slot, no_pid, no_task, task, scheduler_write, renice_task, einval, buffer_size,
  set_user_nice,
}
use ai_m_os.KernelModule.Line.{sscanf_two-renice_line, length-renice_line}
use ai_m_os.KernelModule.Write.{scheduler_write_of_scan, renice_task_line}
use ai_m_os.Host.{Host, host_nice, host_os, host_setpriority, write_module, written, errno}

pub Slot-cases : (s : Slot) → (s ≡ no_pid) ⊎ (s ≡ no_task) ⊎ ((n : ℤ) × (s ≡ task n))
Slot-cases no_pid = inl refl
Slot-cases no_task = inr (inl refl)
Slot-cases (task n) = inr (inr (n, refl))

-- What the kernel does to a task shows as one new nice value.
pub Sets-task :
    (pid n : ℤ) (h : Host)
    → Sets host_nice h pid n (record h { tasks = set_user_nice pid n h.tasks })
unfolding host_nice
Sets-task pid n h q = ground arith

setpriority_live :
    (pid n : ℤ) (h : Host)
    → host_nice h pid ≢ none
    → ((h' : Host) × (host_setpriority pid n h ≡ (ok tt, h'))
        × Sets host_nice h pid (clamp_nice n) h')
      ⊎ (host_setpriority pid n h ≡ (raised Exn.permission_error, h))
unfolding host_setpriority host_nice
setpriority_live pid n h live = elim (Slot-cases (h.tasks.slot pid)) [
  | inl e ↦ absurd (live (rw (e, host_nice)))
  | inr (inl e) ↦ absurd (live (rw (e, host_nice)))
  | inr (inr (m, e)) ↦ elim (Bool-cases h.root) [
    | inl r ↦ inl (
      record h { tasks = set_user_nice pid (clamp_nice n) h.tasks },
      rw (e, host_setpriority) (rw r),
      Sets-task pid (clamp_nice n) h,
    )
    | inr r ↦ inr (rw (e, host_setpriority) (rw r))
  ]
]

-- The line outside of the range of nice values is refused.
write_out_of_range :
    (pid n : ℤ) (ts : Tasks)
    → IsPid pid
    → IsInt n
    → (ltb_ℤ n (negsuc 19) || ltb_ℤ (pos 19) n) ≡ true
    → scheduler_write false (renice_line pid n) ts ≡ (einval, ts)
unfolding scheduler_write
write_out_of_range pid n ts hp hn out =
    let fits : leb buffer_size (length (renice_line pid n)) ≡ false =
      ground (arith, length-renice_line pid n (omega arith) hn) in
    rw (fits, sscanf_two-renice_line pid n (omega arith) hn, scheduler_write) (rw out)

errno_negative :
    (e : ℤ) (ts : Tasks) (h : Host)
    → e <ℤ pos 0
    → (x : Exn) × (written (e, ts) h ≡ (raised x, h)) × (is_os_error x ≡ true)
unfolding written
errno_negative e ts h neg = (errno e, ground arith, ground arith)

write_live :
    (pid n m : ℤ) (h : Host) (count : ℕ) (ts : Tasks)
    → scheduler_write false (renice_line pid n) h.tasks ≡ (pos count, ts)
    → written (scheduler_write false (renice_line pid n) h.tasks) h
      ≡ (ok tt, record h { tasks = ts })
unfolding written
write_live pid n m h count ts e = rw (e, written) (ground arith)

-- The module under a line for a value in range.
write_in_range :
    (pid n : ℤ) (h : Host)
    → IsPid pid
    → IsNice n
    → ((h' : Host) × (written (scheduler_write false (renice_line pid n) h.tasks) h ≡ (ok tt, h'))
        × (host_nice h pid ≢ none)
        × Sets host_nice h pid n h')
      ⊎ ((e : Exn) × (written (scheduler_write false (renice_line pid n) h.tasks) h ≡ (raised e, h))
          × (is_os_error e ≡ true))
unfolding renice_task host_nice written
write_in_range pid n h hp hn =
    let scan =
      scheduler_write_of_scan (renice_line pid n) pid n h.tasks
        (length-renice_line pid n (omega arith) (omega arith)) hn
        (sscanf_two-renice_line pid n (omega arith) (omega arith)) in
    elim (Slot-cases (h.tasks.slot pid)) [
      | inl e ↦ inr (Exn.process_lookup, ground (arith, scan), refl)
      | inr (inl e) ↦ inr (Exn.process_lookup, ground (arith, scan), refl)
      | inr (inr (m, e)) ↦ inl (
        record h { tasks = record (set_user_nice pid n h.tasks) { refs = h.tasks.refs + 1 - 1 } },
        write_live pid n m h (length (renice_line pid n)) _
            (scan ∙ renice_task_line _ pid n m h.tasks e),
        ground arith,
        Sets-task pid n h,
      )
    ]

-- The write goes to the module, if that is loaded.
write_loaded :
    (t : Text) (h : Host)
    → h.loaded ≡ true
    → host_os.write_text proc_iface t h ≡ written (scheduler_write false t h.tasks) h
unfolding write_module text_eq
write_loaded t h e = ground arith

write_absent :
    (t : Text) (h : Host)
    → h.loaded ≡ false
    → host_os.write_text proc_iface t h ≡ (raised Exn.file_not_found, h)
unfolding write_module text_eq
write_absent t h e = ground arith

write_line :
    (pid n : ℤ) (h : Host)
    → IsPid pid
    → IsInt n
    → ((h' : Host) × (host_os.write_text proc_iface (renice_line pid n) h ≡ (ok tt, h'))
        × (host_nice h pid ≢ none)
        × Sets host_nice h pid (clamp_nice n) h')
      ⊎ ((e : Exn) × (host_os.write_text proc_iface (renice_line pid n) h ≡ (raised e, h))
          × (is_os_error e ≡ true))
write_line pid n h hp hn = elim (Bool-cases h.loaded) [
  | inr absent ↦ inr (Exn.file_not_found, write_absent (renice_line pid n) h absent, refl)
  | inl loaded ↦ elim (Bool-cases (ltb_ℤ n (negsuc 19) || ltb_ℤ (pos 19) n)) [
    | inl out ↦
        let w = errno_negative einval h.tasks h (omega arith) in
        inr (
          w.0,
          write_loaded (renice_line pid n) h loaded
              ∙ ap (λ r. written r h) (write_out_of_range pid n h.tasks hp hn out)
              ∙ w.1,
          w.2,
        )
    | inr fits ↦
        let hn' : IsNice n = ground arith in
        rw (write_loaded (renice_line pid n) h loaded) (
          subst
            (λ v.
              ((h' : Host) × (written (scheduler_write false (renice_line pid n) h.tasks) h
                  ≡ (ok tt, h'))
                × (host_nice h pid ≢ none)
                × Sets host_nice h pid v h')
              ⊎ ((e : Exn) × (written (scheduler_write false (renice_line pid n) h.tasks) h
                    ≡ (raised e, h))
                  × (is_os_error e ≡ true)))
            (sym (clamp_nice-eq_self n hn')) (write_in_range pid n h hp hn'))
  ]
]

-- The machine whose `/proc/aimos_scheduler` is this module meets `IsLawful`, with the module loaded or
-- not, for root or another user. The test of a path returns; getpriority tells the nice value of a
-- live process and finds no other; setpriority gives a live process the clamped value, or is not
-- permitted and changes nothing. A line of the Python code with numbers that the kernel's types hold
-- gives a live process the clamped value and changes no other, or raises an `OSError` and changes
-- nothing.
pub host-IsLawful : IsLawful host_nice host_os
unfolding host_nice
host-IsLawful = record {
  exists_lem = λ p w. (_, refl);
  getpriority_live = λ pid w e. rw (e, host_nice);
  getpriority_dead = λ pid w e. rw (e, host_nice);
  setpriority_live = setpriority_live;
  write_line = write_line;
}
