-- ===== src/Heuristics/Changes.antt =====
-- What a call of `run_heuristics` does to the nice values where the caller may set all of them:
-- each event as a function on nice values.
use ai_m_os.Common.{
  map, ℤ, eqb_ℤ, ◌≡◌, ◌≢◌, refl, ◌∙◌, sym, ap, Option, none, some, ok, raised, Result, List, [],
  ◌∷◌, ◌++◌, arith, if◌then◌else◌,
}
use ai_m_os.Common.Lists.{All}
use ai_m_os.Common.Action.{M, ◌>>=◌, pure}
use ai_m_os.Heuristics.{ProcessInfo, Event, renice_action, kill_suggestion, in_turn}
use ai_m_os.Heuristics.Plan.{unapplied}

-- The nice values that an event tells of, from those before it.
abbrev pub change_by : Event → (ℤ → Option ℤ) → ℤ → Option ℤ
change_by ev f q = elim (ev.action) [
  | kill_suggestion ↦ f q
  | renice_action ↦ if eqb_ℤ q ev.pid then some ev.new_nice else f q
]

abbrev pub changes : List Event → (ℤ → Option ℤ) → ℤ → Option ℤ
changes [] f = f
changes (ev ∷ evs) f = changes evs (change_by ev f)

change_by_ext :
    (ev : Event) (f g : ℤ → Option ℤ)
    → ((q : ℤ) → f q ≡ g q)
    → (q : ℤ) → change_by ev f q ≡ change_by ev g q
change_by_ext ev f g e q = ground (arith, e q)

changes_ext :
    (evs : List Event) (f g : ℤ → Option ℤ)
    → ((q : ℤ) → f q ≡ g q)
    → (q : ℤ) → changes evs f q ≡ changes evs g q
changes_ext [] f g e q = e q
changes_ext (ev ∷ evs) f g e q =
    changes_ext evs (change_by ev f) (change_by ev g) (change_by_ext ev f g e) q

changes-append :
    (a b : List Event) (f : ℤ → Option ℤ) → changes (a ++ b) f ≡ changes b (changes a f)
changes-append [] b f = refl
changes-append (ev ∷ a) b f = changes-append a b (change_by ev f)

-- Whether a `renice` is told to have been applied makes no difference.
pub changes-unapplied :
    (evs : List Event) (f : ℤ → Option ℤ) → changes (map unapplied evs) f ≡ changes evs f
changes-unapplied [] f = refl
changes-unapplied (ev ∷ evs) f = changes-unapplied evs (change_by ev f)

-- No event ends a process.
changes-none : (evs : List Event) (f : ℤ → Option ℤ) (q : ℤ) → changes evs f q ≡ none → f q ≡ none
changes-none [] f q e = e
changes-none (ev ∷ evs) f q e = ground (arith, changes-none evs (change_by ev f) q e)

module _ {W : Type 0} (nice_of : W → ℤ → Option ℤ) where
  -- The code returned, and the nice values are those of its events.
  abbrev pub Performs : W → Result (List Event) × W → Type 0
  Performs w (ok evs, w') = (q : ℤ) → nice_of w' q ≡ changes evs (nice_of w) q
  Performs w (raised _, w') = ⊥

  -- The processes live.
  abbrev pub AreAlive : List ProcessInfo → W → Type 0
  AreAlive procs w = All (λ p. nice_of w p.pid ≢ none) procs

  AreAlive-changes :
      (procs : List ProcessInfo) (evs : List Event) (w v : W)
      → ((q : ℤ) → nice_of v q ≡ changes evs (nice_of w) q)
      → AreAlive procs w
      → AreAlive procs v
  AreAlive-changes [] evs w v e h = tt
  AreAlive-changes (p ∷ procs) evs w v e h = (
    (λ dead. h.0 (changes-none evs (nice_of w) p.pid (sym (e p.pid) ∙ dead))),
    AreAlive-changes procs evs w v e h.1,
  )

  pub in_turn-Performs :
      (procs : List ProcessInfo) (m k : M W (List Event)) (w : W)
      → AreAlive procs w
      → Performs w (m w)
      → ((v : W) → AreAlive procs v → Performs v (k v))
      → Performs w (in_turn m k w)
  in_turn-Performs procs m k w alive pm pk = go (m w) pm
    where
      second :
          (a : List Event) (v : W)
          → ((q : ℤ) → nice_of v q ≡ changes a (nice_of w) q)
          → (out : Result (List Event) × W) → Performs v out
          → Performs w (elim out.0 as (λ x. Result (List Event) × W) [
            | ok b ↦ (ok (a ++ b), out.1)
            | raised e ↦ (raised e, out.1)
          ])
      second a v e (ok b, u) h = λ q.
          h q
          ∙ changes_ext b (nice_of v) (changes a (nice_of w)) e q
          ∙ ap (λ f. f q) (sym (changes-append a b (nice_of w)))
      second a v e (raised x, u) h = h

      go :
          (out : Result (List Event) × W)
          → Performs w out
          → Performs w (elim out.0 as (λ x. Result (List Event) × W) [
            | ok a ↦ (k >>= λ b. pure (a ++ b)) out.1
            | raised e ↦ (raised e, out.1)
          ])
      go (ok a, v) h = second a v h (k v) (pk v (AreAlive-changes procs a w v h alive))
      go (raised x, v) h = h
