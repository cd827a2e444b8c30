-- ===== src/Machine/Laws.antt =====
-- What the code relies on of the system calls around priorities, as getpriority(2) documents
-- them, while no other program interferes: `nice_of` is the nice value of each live process.
use ai_m_os.Common.{
  ◌≡◌, ◌≢◌, ◌⊎◌, ◌≤ℤ◌, ℤ, pos, negsuc, ltb_ℤ, eqb_ℤ, Bool, true, Option, none, some, ok, raised,
  Exn, is_os_error, if◌then◌else◌, Text, codes, ◌++◌, arith,
}
use ai_m_os.Common.Number.{show_ℤ}
use ai_m_os.Machine.{Os}

-- `setpriority` brings a value outside of [-20, 19] into it.
abbrev pub clamp_nice : ℤ → ℤ
clamp_nice n = if ltb_ℤ n (negsuc 19) then negsuc 19 else if ltb_ℤ (pos 19) n then pos 19 else n

abbrev pub IsNice : ℤ → Type 0
IsNice n = (negsuc 19 ≤ℤ n) × (n ≤ℤ pos 19)

pub clamp_nice-eq_self : (n : ℤ) → IsNice n → clamp_nice n ≡ n
clamp_nice-eq_self n h = ground arith

pub clamp_nice-IsNice : (n : ℤ) → IsNice (clamp_nice n)
clamp_nice-IsNice n = ground arith

abbrev pub proc_iface : Text
proc_iface = codes "/proc/aimos_scheduler"

-- f"{pid} {new_nice}\n"
unfoldable pub renice_line : ℤ → ℤ → Text
renice_line pid n = show_ℤ pid ++ (codes " " ++ (show_ℤ n ++ codes "\n"))

-- A process number that the kernel's `pid_t` holds; 0 and below name no single process.
abbrev pub IsPid : ℤ → Type 0
IsPid p = (pos 1 ≤ℤ p) × (p ≤ℤ pos 2147483647)

-- Nice values that a C `int` holds.
abbrev pub IsInt : ℤ → Type 0
IsInt n = (negsuc 2147483647 ≤ℤ n) × (n ≤ℤ pos 2147483647)

module _ {W : Type 0} (nice_of : W → ℤ → Option ℤ) where
  -- Nothing but the nice value of `pid` differs, and that is `n`.
  abbrev pub Sets : W → ℤ → ℤ → W → Type 0
  Sets w pid n w' = (q : ℤ) → nice_of w' q ≡ (if eqb_ℤ q pid then some n else nice_of w q)

  abbrev pub Same : W → W → Type 0
  Same w w' = (q : ℤ) → nice_of w' q ≡ nice_of w q

  pub record IsLawful (os : Os W) : Type 0 where
    pub exists_lem : (p : Text) (w : W) → (b : Bool) × (os.path_exists p w ≡ (ok b, w))
    pub getpriority_live :
        (pid : ℤ) (w : W) {n : ℤ} → nice_of w pid ≡ some n → os.getpriority pid w ≡ (ok n, w)
    pub getpriority_dead :
        (pid : ℤ) (w : W)
        → nice_of w pid ≡ none
        → os.getpriority pid w ≡ (raised Exn.process_lookup, w)
    -- A live process takes the value, or the caller is not permitted to set it.
    pub setpriority_live :
        (pid n : ℤ) (w : W)
        → nice_of w pid ≢ none
        → ((w' : W) × (os.setpriority pid n w ≡ (ok tt, w')) × Sets w pid (clamp_nice n) w')
          ⊎ (os.setpriority pid n w ≡ (raised Exn.permission_error, w))
    -- A line for the kernel module is carried out for a live process and a value in range, or
    -- fails with an `OSError`.
    pub write_line :
        (pid n : ℤ) (w : W)
        → IsPid pid
        → IsInt n
        → ((w' : W) × (os.write_text proc_iface (renice_line pid n) w ≡ (ok tt, w'))
            × (nice_of w pid ≢ none)
            × Sets w pid (clamp_nice n) w')
          ⊎ ((e : Exn) × (os.write_text proc_iface (renice_line pid n) w ≡ (raised e, w))
              × (is_os_error e ≡ true))
