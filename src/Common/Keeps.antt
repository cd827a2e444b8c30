-- ===== src/Common/Keeps.antt =====
-- Invariants of imperative code: a rule for each way in which an action is built.

use mathlib.Core.Bool.{Bool, true, false}
use ai_m_os.Common.Tests.{if◌then◌else◌}
use ai_m_os.Common.Outcome.{Exn, Result, ok, raised}
use ai_m_os.Common.Action.{M, ◌>>=◌, ◌>>◌, pure, raise, from_result, try_except, when, lift}

-- `m` keeps `P`, whether it returns or raises.
pub record Keeps {W A : Type 0} (P : W → Type 0) (m : M W A) : Type 0 where
  pub at : (w : W) → P w → P (m w).1

module _ {W A : Type 0} {P : W → Type 0} where
  pub Keeps-pure : (a : A) → Keeps P (pure a)
  Keeps-pure a = record { at = λ w h. h }

  pub Keeps-raise : (e : Exn) → Keeps P (raise {A = A} e)
  Keeps-raise e = record { at = λ w h. h }

  pub Keeps-from_result : (r : Result A) → Keeps P (from_result r)
  Keeps-from_result r = record { at = λ w h. h }

  pub Keeps-if : (b : Bool) (m n : M W A) → Keeps P m → Keeps P n → Keeps P (if b then m else n)
  Keeps-if true m n km kn = km
  Keeps-if false m n km kn = kn

  pub Keeps-try_except :
      (caught : Exn → Bool) (m : M W A) (handler : Exn → M W A)
      → Keeps P m
      → ((e : Exn) → Keeps P (handler e))
      → Keeps P (try_except caught m handler)
  Keeps-try_except caught m handler km kh = record { at = λ w h. go (m w) (km.at w h) }
    where
      go :
          (out : Result A × W)
          → P out.1
          → P
              (elim out.0 as (λ x. Result A × W) [
                | ok a ↦ (ok a, out.1)
                | raised e ↦ if caught e then handler e out.1 else (raised e, out.1)
              ]).1
      go (ok a, v) p = p
      go (raised e, v) p =
          elim (caught e) as (λ b. P (if b then handler e v else (raised e, v)).1) [
            | true ↦ (kh e).at v p
            | false ↦ p
          ]

module _ {W A B : Type 0} {P : W → Type 0} where
  pub Keeps-bind :
      (m : M W A) (f : A → M W B) → Keeps P m → ((a : A) → Keeps P (f a)) → Keeps P (m >>= f)
  Keeps-bind m f km kf = record { at = λ w h. go (m w) (km.at w h) }
    where
      go :
          (out : Result A × W)
          → P out.1
          → P
              (elim out.0 as (λ x. Result B × W) [
                | ok a ↦ f a out.1
                | raised e ↦ (raised e, out.1)
              ]).1
      go (ok a, v) p = (kf a).at v p
      go (raised e, v) p = p

  pub Keeps-then : (m : M W A) (k : M W B) → Keeps P m → Keeps P k → Keeps P (m >> k)
  Keeps-then m k km kk = Keeps-bind m (λ _. k) km (λ _. kk)

module _ {W : Type 0} {P : W → Type 0} where
  pub Keeps-when : (b : Bool) (m : M W (Unit {0})) → Keeps P m → Keeps P (when b m)
  Keeps-when true m km = record { at = λ w h. km.at w h }
  Keeps-when false m km = record { at = λ w h. h }

module _ {W S A : Type 0} {P : W → Type 0} where
  -- An action on the first part of a larger state, of which `P` speaks.
  pub Keeps-lift : (m : M W A) → Keeps P m → Keeps (λ (s : W × S). P s.0) (lift m)
  Keeps-lift m km = record { at = λ s h. km.at s.0 h }

pub ruleset keeps_rules = (
  Keeps-pure, Keeps-raise, Keeps-from_result, Keeps-if, Keeps-try_except, Keeps-bind, Keeps-then,
  Keeps-when, Keeps-lift,
)
