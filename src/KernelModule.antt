-- ===== src/KernelModule.antt =====
-- kernel-modules/aimos_scheduler/aimos_scheduler.c: what a write to and a read of
-- `/proc/aimos_scheduler` do. `sscanf` is the kernel's own, as its library defines it for "%d %d".
pub mod Line
pub mod Write
use ai_m_os.Common.{
  ℕ, ◌+◌, ◌-◌, ◌*◌, ◌%◌, ◌^◌, ℤ, pos, negsuc, ltb_ℤ, eqb_ℤ, ltb, leb, ◌==◌, Bool, true, false, ◌&&◌,
  ◌||◌, Option, none, some, List, [], ◌∷◌, Text, codes, if◌then◌else◌,
}
use ai_m_os.Common.Lists.{length}
use ai_m_os.Common.Str.{is_digit}

-- What `find_get_pid` and then `pid_task` find under a number.
pub data Slot : Type 0 where
  no_pid no_task : Slot
  task : ℤ → Slot

-- The tasks by number, and the references to `struct pid` that are held.
pub record Tasks : Type 0 where
  pub slot : ℤ → Slot
  pub refs : ℕ

abbrev pub buffer_size : ℕ
buffer_size = 64

abbrev pub einval : ℤ
einval = negsuc 21

abbrev pub efault : ℤ
efault = negsuc 13

abbrev pub esrch : ℤ
esrch = negsuc 2

abbrev is_c_space : ℕ → Bool
is_c_space c = (leb 9 c && leb c 13) || c == 32 || c == 0xa0

unfoldable pub skip_spaces : Text → Text
skip_spaces [] = []
skip_spaces (c ∷ s) = let rest = skip_spaces s in if is_c_space c then rest else c ∷ s

-- The number at the front, after `acc`, and what follows it.
unfoldable pub scan_digits : Text → ℕ → ℕ × Text
scan_digits [] acc = (acc, [])
scan_digits (c ∷ s) acc =
    let more = scan_digits s (acc * 10 + (c - b'0')) in if is_digit c then more else (acc, c ∷ s)

-- The `int` that a number becomes.
abbrev pub wrap_int : ℕ → ℤ
wrap_int m = let r = m % 2 ^ 32 in if ltb r (2 ^ 31) then pos r else negsuc (2 ^ 32 - r - 1)

abbrev pub to_int : Bool → ℕ → ℤ
to_int minus n = if minus then wrap_int (2 ^ 32 - n % 2 ^ 32) else wrap_int n

abbrev pub starts_digit : Text → Bool
starts_digit [] = false
starts_digit (c ∷ _) = is_digit c

-- The digits, which have to be there, as an `int`.
unfoldable pub scan_number : Bool → Text → Option (ℤ × Text)
scan_number minus s =
    let (n, rest) = scan_digits s 0 in if starts_digit s then some (to_int minus n, rest) else none

abbrev scan_signed : Text → Option (ℤ × Text)
scan_signed [] = none
scan_signed (c ∷ s) = if c == b'-' then scan_number true s else scan_number false (c ∷ s)

-- `%d`
unfoldable pub scan_int : Text → Option (ℤ × Text)
scan_int s = scan_signed (skip_spaces s)

-- `sscanf(kbuf, "%d %d", &pid, &nice_val) == 2`
unfoldable pub sscanf_two : Text → Option (ℤ × ℤ)
sscanf_two s = elim (scan_int s) [
  | none ↦ none
  | some (pid, rest) ↦ elim (scan_int rest) [ none ↦ none | some (nice, _) ↦ some (pid, nice) ]
]

-- `set_user_nice`
abbrev pub set_user_nice : ℤ → ℤ → Tasks → Tasks
set_user_nice pid nice ts = record ts { slot = λ q. if eqb_ℤ q pid then task nice else ts.slot q }

abbrev get_pid : Tasks → Tasks
get_pid ts = record ts { refs = ts.refs + 1 }

abbrev put_pid : Tasks → Tasks
put_pid ts = record ts { refs = ts.refs - 1 }

-- The part of `scheduler_write` after the checks of the line.
unfoldable pub renice_task : ℕ → ℤ → ℤ → Tasks → ℤ × Tasks
renice_task count pid nice_val ts = elim (ts.slot pid) [
  | no_pid ↦ (esrch, ts)
  | no_task ↦ (esrch, put_pid (get_pid ts))
  | task _ ↦ (pos count, put_pid (set_user_nice pid nice_val (get_pid ts)))
]

-- `scheduler_write` on the bytes of the caller; `faults` tells whether they cannot be copied.
unfoldable pub scheduler_write : Bool → Text → Tasks → ℤ × Tasks
scheduler_write faults buf ts =
    if leb buffer_size (length buf)
    then (einval, ts)
    else if faults
    then (efault, ts)
    else elim (sscanf_two buf) [
      | none ↦ (einval, ts)
      | some (pid, nice_val) ↦
          if ltb_ℤ nice_val (negsuc 19) || ltb_ℤ (pos 19) nice_val
          then (einval, ts)
          else renice_task (length buf) pid nice_val ts
    ]

abbrev pub status_message : Text
status_message = codes "AI_M_OS Scheduler active. Write: <pid> <nice_value>\n"

-- `scheduler_read` at a position of the file: what is copied, the result and the new position.
unfoldable pub scheduler_read : Bool → ℕ → Text × ℤ × ℕ
scheduler_read faults ppos =
    let len = length status_message in
    if leb len ppos
    then ([], pos 0, ppos)
    else if faults
    then ([], efault, ppos)
    else (status_message, pos len, ppos + len)
