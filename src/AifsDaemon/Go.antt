-- ===== src/AifsDaemon/Go.antt =====
-- A call of a Go function over a world `W`: a value, an error with its text, or a panic, and the
-- world that it leaves.
use ai_m_os.Common.{Text}

pub data Outcome (A : Type 0) : Type 0 where
  value : A → Outcome A
  fault : Text → Outcome A
  panic : Outcome A

abbrev pub G : Type 0 → Type 0 → Type 0
G W A = W → Outcome A × W

infixl 5 ◌>>=◌ ◌>>◌
-- `if err != nil { return … }`
abbrev pub ◌>>=◌ : {W A B : Type 0} → G W A → (A → G W B) → G W B
◌>>=◌ m f w =
    let (r, w') = m w in elim r [ value a ↦ f a w' | fault e ↦ (fault e, w') | panic ↦ (panic, w') ]

abbrev pub ◌>>◌ : {W A B : Type 0} → G W A → G W B → G W B
m >> k = m >>= λ _. k

module _ {W A : Type 0} where
  abbrev pub pure : A → G W A
  pure a w = (value a, w)
