-- ===== src/Deployed/Outcome.antt =====
-- The outcome of the heuristics of the source, as the deployed ones tell it.
use ai_m_os.Common.{◌≡◌, refl, ◌∙◌, sym, ap, none, some, List, ◌++◌, map, ok, raised, Result}
use mathlib.Core.List.{map-append}
use ai_m_os.Common.Action.{M, ◌>>=◌, pure}
use ai_m_os.Heuristics
use ai_m_os.Heuristics.{
  ProcessInfo, RuleAction, renice_action, kill_suggestion, in_turn, user_procs, top_rss, mem_pct,
  load_limit, throttled, list_processes, throttle, emit,
}
use ai_m_os.Deployed.Heuristics.{Event}

-- What the older code puts into an event: no nice values where none is changed.
abbrev pub as_deployed : Heuristics.Event → Event
as_deployed ev = record {
  rule = ev.rule;
  pid = ev.pid;
  name = ev.name;
  action = ev.action;
  old_nice = elim (ev.action) [ renice_action ↦ some ev.old_nice | kill_suggestion ↦ none ];
  new_nice = elim (ev.action) [ renice_action ↦ some ev.new_nice | kill_suggestion ↦ none ];
  reason = ev.reason;
  applied = ev.applied;
}

module _ {W : Type 0} where
  -- The same outcome and world, with the events as the older code writes them.
  abbrev pub deployed_outcome : Result (List Heuristics.Event) × W → Result (List Event) × W
  deployed_outcome (ok evs, w) = (ok (map as_deployed evs), w)
  deployed_outcome (raised e, w) = (raised e, w)

  pub in_turn-deployed :
      (m k : M W (List Event)) (m' k' : M W (List Heuristics.Event)) (w : W)
      → m w ≡ deployed_outcome (m' w)
      → ((v : W) → k v ≡ deployed_outcome (k' v))
      → in_turn m k w ≡ deployed_outcome (in_turn m' k' w)
  in_turn-deployed m k m' k' w em ek =
      ap
        (λ (out : Result (List Event) × W). elim out.0 as (λ x. Result (List Event) × W) [
          | ok a ↦ (k >>= λ b. pure (a ++ b)) out.1
          | raised e ↦ (raised e, out.1)
        ])
        em
      ∙ go (m' w)
    where
      second :
          (a : List Heuristics.Event) (out : Result (List Heuristics.Event) × W)
          → elim (deployed_outcome out).0 as (λ x. Result (List Event) × W) [
            | ok b ↦ (ok (map as_deployed a ++ b), (deployed_outcome out).1)
            | raised e ↦ (raised e, (deployed_outcome out).1)
          ]
            ≡ deployed_outcome (elim out.0 as (λ x. Result (List Heuristics.Event) × W) [
              | ok b ↦ (ok (a ++ b), out.1)
              | raised e ↦ (raised e, out.1)
            ])
      second a (ok b, v) = ap (λ l. (ok l, v)) (sym (map-append as_deployed a b))
      second a (raised e, v) = refl

      go :
          (out : Result (List Heuristics.Event) × W)
          → elim (deployed_outcome out).0 as (λ x. Result (List Event) × W) [
            | ok a ↦ (k >>= λ b. pure (a ++ b)) (deployed_outcome out).1
            | raised e ↦ (raised e, (deployed_outcome out).1)
          ]
            ≡ deployed_outcome (elim out.0 as (λ x. Result (List Heuristics.Event) × W) [
              | ok a ↦ (k' >>= λ b. pure (a ++ b)) out.1
              | raised e ↦ (raised e, out.1)
            ])
      go (ok a, v) =
          ap
            (λ (out : Result (List Event) × W). elim out.0 as (λ x. Result (List Event) × W) [
              | ok b ↦ (ok (map as_deployed a ++ b), out.1)
              | raised e ↦ (raised e, out.1)
            ])
            (ek v)
          ∙ second a (k' v)
      go (raised e, v) = refl
