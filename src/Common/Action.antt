-- ===== src/Common/Action.antt =====
-- A piece of imperative code over a world `W`: it returns or raises, and the world that it leaves
-- comes back in both cases.
use ai_m_os.Common.Tests.{if◌then◌else◌}
use ai_m_os.Common.Outcome.{Exn, Result, ok, raised}
use mathlib.Core.Bool.{Bool}

abbrev pub M : Type 0 → Type 0 → Type 0
M W A = W → Result A × W

infixl 5 ◌>>=◌ ◌>>◌
abbrev pub ◌>>=◌ : {W A B : Type 0} → M W A → (A → M W B) → M W B
◌>>=◌ m f w = let (r, w') = m w in elim r [ ok a ↦ f a w' | raised e ↦ (raised e, w') ]

abbrev pub ◌>>◌ : {W A B : Type 0} → M W A → M W B → M W B
m >> k = m >>= λ _. k

module _ {W A : Type 0} where
  abbrev pub pure : A → M W A
  pure a w = (ok a, w)

  abbrev pub raise : Exn → M W A
  raise e w = (raised e, w)

  abbrev pub from_result : Result A → M W A
  from_result r w = (r, w)

  -- `try: m  except …: handler`, where `caught` says which classes the `except` names.
  abbrev pub try_except : (Exn → Bool) → M W A → (Exn → M W A) → M W A
  try_except caught m handler w =
      let (r, w') = m w in
      elim r [ ok a ↦ (ok a, w') | raised e ↦ if caught e then handler e w' else (raised e, w') ]

-- An `if` with no `else`.
abbrev pub when : {W : Type 0} → Bool → M W (Unit {0}) → M W (Unit {0})
when b m w = if b then m w else (ok tt, w)

-- An action on the first part of a larger state.
abbrev pub lift : {W S A : Type 0} → M W A → M (W × S) A
lift m s = let (r, w') = m s.0 in (r, (w', s.1))
