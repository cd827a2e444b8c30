-- ===== src/Common/Yields.antt =====
-- Code that keeps a property of the world, with what holds of the value that it returns.
use mathlib.Core.Bool.{Bool, true, false}
use ai_m_os.Common.Tests.{if◌then◌else◌}
use ai_m_os.Common.Outcome.{Exn, Result, ok, raised}
use ai_m_os.Common.Action.{M, ◌>>=◌, ◌>>◌, pure, try_except, lift}
use ai_m_os.Common.Keeps.{Keeps}

module _ {W A : Type 0} (P : W → Type 0) (Q : A → Type 0) where
  abbrev pub Post : Result A × W → Type 0
  Post (ok a, w) = Q a × P w
  Post (raised e, w) = P w

  pub record Yields (m : M W A) : Type 0 where
    pub at : (w : W) → P w → Post (m w)

module _ {W A : Type 0} {P : W → Type 0} where
  pub Yields-pure : (Q : A → Type 0) (a : A) → Q a → Yields P Q (pure a)
  Yields-pure Q a q = record { at = λ w h. (q, h) }

  pub Yields-if :
      (Q : A → Type 0) (b : Bool) (m n : M W A)
      → Yields P Q m
      → Yields P Q n
      → Yields P Q (if b then m else n)
  Yields-if Q true m n ym yn = ym
  Yields-if Q false m n ym yn = yn

  pub Yields-try_except :
      (Q : A → Type 0) (caught : Exn → Bool) (m : M W A) (handler : Exn → M W A)
      → Yields P Q m
      → ((e : Exn) → Yields P Q (handler e))
      → Yields P Q (try_except caught m handler)
  Yields-try_except Q caught m handler ym yh = record { at = λ w h. go (m w) (ym.at w h) }
    where
      go :
          (out : Result A × W)
          → Post P Q out
          → Post P Q (elim out.0 as (λ x. Result A × W) [
            | ok a ↦ (ok a, out.1)
            | raised e ↦ if caught e then handler e out.1 else (raised e, out.1)
          ])
      go (ok a, v) p = p
      go (raised e, v) p =
          elim (caught e) as (λ b. Post P Q (if b then handler e v else (raised e, v))) [
            | true ↦ (yh e).at v p
            | false ↦ p
          ]

module _ {W A B : Type 0} {P : W → Type 0} where
  pub Yields-bind :
      (Q : A → Type 0) (R : B → Type 0) (m : M W A) (f : A → M W B)
      → Yields P Q m
      → ((a : A) → Q a → Yields P R (f a))
      → Yields P R (m >>= f)
  Yields-bind Q R m f ym yf = record { at = λ w h. go (m w) (ym.at w h) }
    where
      go :
          (out : Result A × W)
          → Post P Q out
          → Post P R (elim out.0 as (λ x. Result B × W) [
            | ok a ↦ f a out.1
            | raised e ↦ (raised e, out.1)
          ])
      go (ok a, v) (q, p) = (yf a q).at v p
      go (raised e, v) p = p

  pub Yields-Keeps-bind :
      (R : B → Type 0) (m : M W A) (k : M W B) → Keeps P m → Yields P R k → Yields P R (m >> k)
  Yields-Keeps-bind R m k km yk = record { at = λ w h. go (m w) (km.at w h) }
    where
      go :
          (out : Result A × W)
          → P out.1
          → Post P R
              (elim out.0 as (λ x. Result B × W) [ ok a ↦ k out.1 | raised e ↦ (raised e, out.1) ])
      go (ok a, v) p = yk.at v p
      go (raised e, v) p = p

module _ {W S A B : Type 0} {P : W → Type 0} where
  pub Keeps-lift-Yields :
      (Q : A → Type 0) (m : M W A) (f : A → M (W × S) B)
      → Yields P Q m
      → ((a : A) → Q a → Keeps (λ (s : W × S). P s.0) (f a))
      → Keeps (λ (s : W × S). P s.0) (lift m >>= f)
  Keeps-lift-Yields Q m f ym kf = record { at = λ s h. go s.1 (m s.0) (ym.at s.0 h) }
    where
      go :
          (x : S) (out : Result A × W)
          → Post P Q out
          → P
              (elim out.0 as (λ r. Result B × (W × S)) [
                | ok a ↦ f a (out.1, x)
                | raised e ↦ (raised e, (out.1, x))
              ]).1.0
      go x (ok a, v) (q, p) = (kf a q).at (v, x) p
      go x (raised e, v) p = p
