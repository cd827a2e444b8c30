-- ===== src/Heuristics/Audit.antt =====
-- Code with a database that carries out every call, beside the same code without one.
use ai_m_os.Common.{ℤ, Bool, refl, ◌≡◌, ◌∙◌, sym, ap, subst, List, ◌++◌, ok, raised, Result}
use mathlib.Core.List.{append_assoc}
use ai_m_os.Common.Action.{M, ◌>>=◌, pure}
use ai_m_os.Database.{Row}
use ai_m_os.Database.Recorder.{Store, saved}
use ai_m_os.Heuristics.{in_turn}
use ai_m_os.Machine.{Os}
use ai_m_os.Machine.Beside.{beside_os}
use ai_m_os.KernelIface.{renice_via_kernel}
use ai_m_os.Heuristics.Lifts.{renice_via_kernel-Lifts}

module _ {W F Ev : Type 0} (rows_of : List Ev → List (Row F))
    (rows_of-append : (a b : List Ev) → rows_of (a ++ b) ≡ rows_of a ++ rows_of b) where
  -- With the database the code did to the machine what it did without, and returned the same
  -- events, whose rows are committed after those before; or it raised the same exception.
  abbrev pub Audited :
      List (Row F) → Result (List Ev) × W → Result (List Ev) × (W × Store F) → Type 0
  Audited rows (ok evs, w) out = out ≡ (ok evs, (w, saved (rows ++ rows_of evs)))
  Audited rows (raised e, w) (ok _, s) = ⊥
  Audited rows (raised e, w) (raised x, s) = (x ≡ e) × (s.0 ≡ w)

  pub in_turn-Audited :
      (m k : M W (List Ev)) (m' k' : M (W × Store F) (List Ev)) (rows : List (Row F)) (w : W)
      → Audited rows (m w) (m' (w, saved rows))
      → ((more : List (Row F)) (v : W) → Audited more (k v) (k' (v, saved more)))
      → Audited rows (in_turn m k w) (in_turn m' k' (w, saved rows))
  in_turn-Audited m k m' k' rows w am ak = go (m w) (m' (w, saved rows)) am
    where
      join : List Ev → Result (List Ev) × (W × Store F) → Result (List Ev) × (W × Store F)
      join a out = elim out.0 as (λ x. Result (List Ev) × (W × Store F)) [
        | ok b ↦ (ok (a ++ b), out.1)
        | raised e ↦ (raised e, out.1)
      ]

      second :
          (a : List Ev) (out : Result (List Ev) × W) (out' : Result (List Ev) × (W × Store F))
          → Audited (rows ++ rows_of a) out out'
          → Audited rows
              (elim out.0 as (λ x. Result (List Ev) × W) [
                | ok b ↦ (ok (a ++ b), out.1)
                | raised e ↦ (raised e, out.1)
              ])
              (join a out')
      second a (ok b, v) out' h =
          ap (join a) h
          ∙ ap (λ l. (ok (a ++ b), (v, saved l)))
              (append_assoc rows (rows_of a) (rows_of b)
                ∙ ap (λ l. rows ++ l) (sym (rows_of-append a b)))
      second a (raised e, v) (ok b, s) h = absurd h
      second a (raised e, v) (raised x, s) h = h

      next : Result (List Ev) × (W × Store F) → Result (List Ev) × (W × Store F)
      next out = elim out.0 as (λ x. Result (List Ev) × (W × Store F)) [
        | ok a ↦ join a (k' out.1)
        | raised e ↦ (raised e, out.1)
      ]

      go :
          (out : Result (List Ev) × W) (out' : Result (List Ev) × (W × Store F))
          → Audited rows out out'
          → Audited rows
              (elim out.0 as (λ x. Result (List Ev) × W) [
                | ok a ↦ (k >>= λ b. pure (a ++ b)) out.1
                | raised e ↦ (raised e, out.1)
              ])
              (next out')
      go (ok a, v) out' h =
          subst
            (λ o.
              Audited rows
                (elim (k v).0 as (λ x. Result (List Ev) × W) [
                  | ok b ↦ (ok (a ++ b), (k v).1)
                  | raised e ↦ (raised e, (k v).1)
                ])
                (next o))
            (sym h) (second a (k v) (k' (v, saved (rows ++ rows_of a))) (ak (rows ++ rows_of a) v))
      go (raised e, v) (ok b, s) h = absurd h
      go (raised e, v) (raised x, s) h = h

  -- A call of `renice`, with code behind it that records its events.
  pub renice-Audited :
      (os : Os W) (pid n : ℤ) (k : Bool → M W (List Ev)) (k' : Bool → M (W × Store F) (List Ev))
      (rows : List (Row F)) (w : W)
      → ((b : Bool) (v : W) → Audited rows (k b v) (k' b (v, saved rows)))
      → Audited rows
          ((renice_via_kernel os pid n >>= k) w)
          ((renice_via_kernel (beside_os (Store F) os) pid n >>= k') (w, saved rows))
  renice-Audited os pid n k k' rows w rk =
      subst
        (λ (out : Result Bool × (W × Store F)).
          Audited rows ((renice_via_kernel os pid n >>= k) w)
            (elim out.0 as (λ x. Result (List Ev) × (W × Store F)) [
              | ok b ↦ k' b out.1
              | raised e ↦ (raised e, out.1)
            ]))
        (sym ((renice_via_kernel-Lifts (Store F) os pid n).at w (saved rows)))
        (go (renice_via_kernel os pid n w))
    where
      go :
          (out : Result Bool × W)
          → Audited rows
              (elim out.0 as (λ x. Result (List Ev) × W) [
                | ok b ↦ k b out.1
                | raised e ↦ (raised e, out.1)
              ])
              (elim out.0 as (λ x. Result (List Ev) × (W × Store F)) [
                | ok b ↦ k' b (out.1, saved rows)
                | raised e ↦ (raised e, (out.1, saved rows))
              ])
      go (ok b, v) = rk b v
      go (raised e, v) = (refl, refl)
