-- ===== src/Common/Outcome.antt =====
-- A call that may raise: the exception classes that the program tells apart, and chains of such
-- calls. `BaseException`s that are no `Exception` are `keyboard_interrupt` and `system_exit`.

use Prim.Native.Nat.{ℕ}
use mathlib.Core.Bool.{Bool, true, false}
use mathlib.Core.Option.{Option, none, some}
use mathlib.Core.List.{List}

pub data Exn : Type 0 where
  file_not_found process_lookup permission_error os_error : Exn
  value_error index_error key_error attribute_error overflow_error db_error other_error : Exn
  dbus_error : List ℕ → Exn
  keyboard_interrupt : Exn
  system_exit : ℕ → Exn
  -- no exception of the program: a loop of the model has used up its fuel
  out_of_fuel : Exn

-- `except OSError`
abbrev pub is_os_error : Exn → Bool
is_os_error Exn.file_not_found = true
is_os_error Exn.process_lookup = true
is_os_error Exn.permission_error = true
is_os_error Exn.os_error = true
is_os_error _ = false

-- `except Exception`
abbrev pub is_exception : Exn → Bool
is_exception Exn.keyboard_interrupt = false
is_exception (Exn.system_exit _) = false
is_exception Exn.out_of_fuel = false
is_exception _ = true

pub data Result (A : Type 0) : Type 0 where
  ok : A → Result A
  raised : Exn → Result A

infixl 5 ◌>>=◌ ◌>>◌
abbrev pub ◌>>=◌ : {A B : Type 0} → Result A → (A → Result B) → Result B
ok a >>= f = f a
raised e >>= f = raised e

abbrev pub ◌>>◌ : {A B : Type 0} → Result A → Result B → Result B
m >> k = m >>= λ _. k

abbrev pub or_raise : {A : Type 0} → Option A → Exn → Result A
or_raise none e = raised e
or_raise (some a) e = ok a
