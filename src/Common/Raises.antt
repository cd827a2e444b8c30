-- ===== src/Common/Raises.antt =====
-- Which exceptions imperative code lets out: a rule for each way in which an action is built.
use mathlib.Core.Bool.{Bool, true, false}
use mathlib.Core.Option.{Option, none, some}
use ai_m_os.Common.Tests.{if◌then◌else◌}
use ai_m_os.Common.Outcome.{Exn, Result, ok, raised, or_raise}
use ai_m_os.Common.Action.{M, ◌>>=◌, pure, from_result, try_except, lift}

module _ {A : Type 0} (Q : Exn → Type 0) where
  abbrev pub Fine : Result A → Type 0
  Fine (ok a) = Unit {0}
  Fine (raised e) = Q e

-- What `m` raises, if anything, is `Q`.
pub record Raises {W A : Type 0} (Q : Exn → Type 0) (m : M W A) : Type 0 where
  pub at : (w : W) → Fine Q (m w).0

module _ {W A : Type 0} {Q : Exn → Type 0} where
  pub Raises-pure : (a : A) → Raises {W = W} Q (pure a)
  Raises-pure a = record { at = λ w. tt }

  pub Raises-or_raise :
      (o : Option A) (e : Exn) → Q e → Raises {W = W} Q (from_result (or_raise o e))
  Raises-or_raise none e q = record { at = λ w. q }
  Raises-or_raise (some a) e q = record { at = λ w. tt }

  pub Raises-if : (b : Bool) (m n : M W A) → Raises Q m → Raises Q n → Raises Q (if b then m else n)
  Raises-if true m n rm rn = rm
  Raises-if false m n rm rn = rn

  pub Raises-try_except :
      (caught : Exn → Bool) (m : M W A) (handler : Exn → M W A)
      → Raises Q m
      → ((e : Exn) → Raises Q (handler e))
      → Raises Q (try_except caught m handler)
  Raises-try_except caught m handler rm rh = record { at = λ w. go (m w) (rm.at w) }
    where
      go :
          (out : Result A × W)
          → Fine Q out.0
          → Fine Q
              (elim out.0 as (λ x. Result A × W) [
                | ok a ↦ (ok a, out.1)
                | raised e ↦ if caught e then handler e out.1 else (raised e, out.1)
              ]).0
      go (ok a, v) q = tt
      go (raised e, v) q =
          elim (caught e) as (λ b. Fine Q (if b then handler e v else (raised e, v)).0) [
            | true ↦ (rh e).at v
            | false ↦ q
          ]

module _ {W A B : Type 0} {Q : Exn → Type 0} where
  pub Raises-bind :
      (m : M W A) (f : A → M W B) → Raises Q m → ((a : A) → Raises Q (f a)) → Raises Q (m >>= f)
  Raises-bind m f rm rf = record { at = λ w. go (m w) (rm.at w) }
    where
      go :
          (out : Result A × W)
          → Fine Q out.0
          → Fine Q
              (elim out.0 as (λ x. Result B × W) [
                | ok a ↦ f a out.1
                | raised e ↦ (raised e, out.1)
              ]).0
      go (ok a, v) q = (rf a).at v
      go (raised e, v) q = q

module _ {W S A : Type 0} {Q : Exn → Type 0} where
  pub Raises-lift : (m : M W A) → Raises Q m → Raises {W = W × S} Q (lift m)
  Raises-lift m rm = record { at = λ s. rm.at s.0 }
