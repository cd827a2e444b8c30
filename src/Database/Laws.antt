-- ===== src/Database/Laws.antt =====
-- What the code relies on of a connection, as far as the processes are concerned: its calls touch
-- no priority, what they raise is an `Exception`, and a rollback succeeds.
use ai_m_os.Common.{ℤ, ◌≡◌, ◌∙◌, if◌then◌else◌, Option, ok, raised, Result, is_exception, true}
use ai_m_os.Common.Action.{M, ◌>>◌, try_except}
use ai_m_os.Database.{Database, Row}

module _ {W : Type 0} (nice_of : W → ℤ → Option ℤ) where
  abbrev pub Settled : W → Result (Unit {0}) × W → Type 0
  Settled w (ok _, w') = (q : ℤ) → nice_of w' q ≡ nice_of w q
  Settled w (raised e, w') = (is_exception e ≡ true) × ((q : ℤ) → nice_of w' q ≡ nice_of w q)

  abbrev pub Returned : W → Result (Unit {0}) × W → Type 0
  Returned w (ok _, w') = (q : ℤ) → nice_of w' q ≡ nice_of w q
  Returned w (raised e, w') = ⊥

  pub record IsQuiet {F : Type 0} (db : Database W F) : Type 0 where
    pub cursor_lem : (w : W) → Settled w (db.cursor w)
    pub execute_lem : (row : Row F) (w : W) → Settled w (db.execute row w)
    pub commit_lem : (w : W) → Settled w (db.commit w)
    pub rollback_lem : (w : W) → Returned w (db.rollback w)

  -- From a world with the same priorities.
  Settled-same :
      (w v : W) (out : Result (Unit {0}) × W)
      → ((q : ℤ) → nice_of v q ≡ nice_of w q)
      → Settled v out
      → Settled w out
  Settled-same w v (ok _, w') same h = λ q. h q ∙ same q
  Settled-same w v (raised e, w') same h = (h.0, λ q. h.1 q ∙ same q)

  -- Two calls one after the other.
  pub Settled-bind :
      (m k : M W (Unit {0})) (w : W)
      → Settled w (m w)
      → ((v : W) → Settled v (k v))
      → Settled w ((m >> k) w)
  Settled-bind m k w h g = go (m w) h
    where
      go :
          (out : Result (Unit {0}) × W)
          → Settled w out
          → Settled w (elim out.0 [ ok _ ↦ k out.1 | raised e ↦ (raised e, out.1) ])
      go (ok _, v) same = Settled-same w v (k v) same (g v)
      go (raised e, v) same = same

  -- `except Exception` with a handler that returns.
  pub Returned-try_except :
      (m k : M W (Unit {0})) (w : W)
      → Settled w (m w)
      → ((v : W) → Returned v (k v))
      → Returned w (try_except is_exception m (λ _. k) w)
  Returned-try_except m k w h g = go (m w) h
    where
      handled :
          (v : W) (out : Result (Unit {0}) × W)
          → ((q : ℤ) → nice_of v q ≡ nice_of w q)
          → Returned v out
          → Returned w out
      handled v (ok _, w') same r = λ q. r q ∙ same q
      handled v (raised e, w') same r = absurd r

      go :
          (out : Result (Unit {0}) × W)
          → Settled w out
          → Returned w (elim out.0 [
            | ok a ↦ (ok a, out.1)
            | raised e ↦ if is_exception e then k out.1 else (raised e, out.1)
          ])
      go (ok _, v) same = same
      go (raised e, v) (caught, same) = rw caught (handled v (k v) same (g v))
