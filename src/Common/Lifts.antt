-- ===== src/Common/Lifts.antt =====
-- Code that is run beside a further piece of state, which it leaves alone: a rule for each way in
-- which an action is built.
use mathlib.Core.Path.{◌≡◌, refl, ◌∙◌, ap}
use mathlib.Core.Bool.{Bool, true, false}
use ai_m_os.Common.Tests.{if◌then◌else◌}
use ai_m_os.Common.Outcome.{Exn, Result, ok, raised}
use ai_m_os.Common.Action.{M, ◌>>=◌, pure, from_result, try_except, lift}

module _ {W : Type 0} (S : Type 0) where
  -- `m` on the first part of the state, by another action.
  pub record Lifts {A : Type 0} (m : M W A) (m' : M (W × S) A) : Type 0 where
    pub at : (w : W) (s : S) → m' (w, s) ≡ lift m (w, s)

module _ {W S A : Type 0} where
  pub Lifts-lift : (m : M W A) → Lifts S m (lift m)
  Lifts-lift m = record { at = λ w s. refl }

  pub Lifts-pure : (a : A) → Lifts {W = W} S (pure a) (pure a)
  Lifts-pure a = record { at = λ w s. refl }

  pub Lifts-from_result : (r : Result A) → Lifts {W = W} S (from_result r) (from_result r)
  Lifts-from_result r = record { at = λ w s. refl }

  pub Lifts-if :
      (b : Bool) (m n : M W A) (m' n' : M (W × S) A)
      → Lifts S m m'
      → Lifts S n n'
      → Lifts S (if b then m else n) (if b then m' else n')
  Lifts-if true m n m' n' lm ln = lm
  Lifts-if false m n m' n' lm ln = ln

  pub Lifts-try_except :
      (caught : Exn → Bool) (m : M W A) (m' : M (W × S) A) (handler : Exn → M W A)
      (handler' : Exn → M (W × S) A)
      → Lifts S m m'
      → ((e : Exn) → Lifts S (handler e) (handler' e))
      → Lifts S (try_except caught m handler) (try_except caught m' handler')
  Lifts-try_except caught m m' handler handler' lm lh = record {
    at = λ w s. ap next (lm.at w s) ∙ go s (m w);
  }
    where
      next : Result A × (W × S) → Result A × (W × S)
      next out = elim out.0 as (λ x. Result A × (W × S)) [
        | ok a ↦ (ok a, out.1)
        | raised e ↦ if caught e then handler' e out.1 else (raised e, out.1)
      ]

      go :
          (s : S) (out : Result A × W)
          → next (out.0, (out.1, s))
            ≡ lift
                (λ _. elim out.0 as (λ x. Result A × W) [
                  | ok a ↦ (ok a, out.1)
                  | raised e ↦ if caught e then handler e out.1 else (raised e, out.1)
                ])
                (out.1, s)
      go s (ok a, v) = refl
      go s (raised e, v) =
          elim (caught e)
            as (λ b.
              Path (Result A × (W × S)) (if b then handler' e (v, s) else (raised e, (v, s)))
                (lift (λ _. if b then handler e v else (raised e, v)) (v, s))) [
                  | true ↦ (lh e).at v s
                  | false ↦ refl
                ]

module _ {W S A B : Type 0} where
  pub Lifts-bind :
      (m : M W A) (m' : M (W × S) A) (f : A → M W B) (f' : A → M (W × S) B)
      → Lifts S m m'
      → ((a : A) → Lifts S (f a) (f' a))
      → Lifts S (m >>= f) (m' >>= f')
  Lifts-bind m m' f f' lm lf = record { at = λ w s. ap next (lm.at w s) ∙ go s (m w) }
    where
      next : Result A × (W × S) → Result B × (W × S)
      next out = elim out.0 as (λ x. Result B × (W × S)) [
        | ok a ↦ f' a out.1
        | raised e ↦ (raised e, out.1)
      ]

      go :
          (s : S) (out : Result A × W)
          → next (out.0, (out.1, s))
            ≡ lift
                (λ _. elim out.0 as (λ x. Result B × W) [
                  | ok a ↦ f a out.1
                  | raised e ↦ (raised e, out.1)
                ])
                (out.1, s)
      go s (ok a, v) = (lf a).at v s
      go s (raised e, v) = refl

pub ruleset lifts_rules =
    (Lifts-lift, Lifts-pure, Lifts-from_result, Lifts-if, Lifts-try_except, Lifts-bind)
