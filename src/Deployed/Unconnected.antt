-- ===== src/Deployed/Unconnected.antt =====
-- The deployed daemon as its unit starts it, with `AIMOS_NO_DB`, against the daemon of the source.
use ai_m_os.Common.{
  ℕ, zero, suc, ◌≡◌, refl, ◌∙◌, sym, ap, Bool, true, false, Option, none, Result, ok, raised, List,
  if◌then◌else◌, arith,
}
use ai_m_os.Common.Action.{M, ◌>>=◌, ◌>>◌, pure, lift}
use ai_m_os.Float.{Float}
use ai_m_os.Snapshot.{SystemSnapshot}
use ai_m_os.Database.{Database}
use ai_m_os.Machine.{Os}
use ai_m_os.Metrics.{Machinery, State, Sample, collect}
use ai_m_os.Heuristics
use ai_m_os.Daemon
use ai_m_os.Daemon.{Turn, go_on, stop, Setting, if_connected, connect, end_of_turn}
use ai_m_os.Deployed.Heuristics.{run_heuristics}
use ai_m_os.Deployed.Outcome.{deployed_outcome}
use ai_m_os.Deployed.Agrees.{run_heuristics_deployed}
use ai_m_os.Deployed.Daemon.{round, tick, loop, main}

module _ {W S : Type 0} (x : S) where
  -- The events are dropped, so that their form makes no difference.
  abbrev dropped : {Ev : Type 0} → Result (List Ev) × W → Result (Unit {0}) × (W × S)
  dropped out = elim out.0 as (λ r. Result (Unit {0}) × (W × S)) [
    | ok _ ↦ (ok tt, (out.1, x))
    | raised e ↦ (raised e, (out.1, x))
  ]

  dropped-deployed_outcome :
      (out : Result (List Heuristics.Event) × W) → dropped (deployed_outcome out) ≡ dropped out
  dropped-deployed_outcome (ok evs, w) = refl
  dropped-deployed_outcome (raised e, w) = refl

module _ {W F : Type 0} (os : Os W) (fl : Float F) (mc : Machinery W F) (set : Setting W F) where
  round_deployed :
      (s : State os fl mc) → round os fl mc set none s ≡ Daemon.round os fl mc set none s
  unfolding round Daemon.round
  round_deployed s = go (collect os fl mc s)
    where
      go :
          (out : Result (SystemSnapshot F) × State os fl mc)
          → elim out.0 as (λ r. Result (Unit {0}) × State os fl mc) [
            | ok snap ↦ dropped out.1.1 (run_heuristics os fl none snap out.1.0)
            | raised e ↦ (raised e, out.1)
          ]
            ≡ elim out.0 as (λ r. Result (Unit {0}) × State os fl mc) [
              | ok snap ↦ dropped out.1.1 (Heuristics.run_heuristics os fl none snap out.1.0)
              | raised e ↦ (raised e, out.1)
            ]
      go (ok snap, (w, x)) =
          ap (dropped x) (run_heuristics_deployed os fl snap w)
          ∙ dropped-deployed_outcome x (Heuristics.run_heuristics os fl none snap w)
      go (raised e, s') = refl

  tick_deployed : (s : State os fl mc) → tick os fl mc set none s ≡ Daemon.tick os fl mc set none s
  unfolding tick Daemon.tick
  tick_deployed s =
      ap (λ (out : Result (Unit {0}) × State os fl mc). (end_of_turn os fl mc set out.0, out.1))
        (round_deployed s)

  loop_deployed :
      (fuel : ℕ) (s : State os fl mc)
      → loop os fl mc set fuel none s ≡ Daemon.loop os fl mc set fuel none s
  unfolding loop Daemon.loop
  loop_deployed zero s = refl
  loop_deployed (suc fuel) s =
      ap next (tick_deployed s) ∙ go (loop_deployed fuel) (Daemon.tick os fl mc set none s)
    where
      next : Result Turn × State os fl mc → Result Bool × State os fl mc
      next out = elim out.0 as (λ r. Result Bool × State os fl mc) [
        | ok turn ↦
            elim turn as (λ t. M (State os fl mc) Bool) [
              | stop ↦ pure true
              | go_on ↦ lift set.sleep >> loop os fl mc set fuel none
            ]
              out.1
        | raised e ↦ (raised e, out.1)
      ]

      Agrees : Type 0
      Agrees =
          (u : State os fl mc)
          → loop os fl mc set fuel none u ≡ Daemon.loop os fl mc set fuel none u

      rest :
          Agrees
          → (x : List Sample) (out : Result (Unit {0}) × W)
          → elim out.0 as (λ r. Result Bool × State os fl mc) [
            | ok _ ↦ loop os fl mc set fuel none (out.1, x)
            | raised e ↦ (raised e, (out.1, x))
          ]
            ≡ elim out.0 as (λ r. Result Bool × State os fl mc) [
              | ok _ ↦ Daemon.loop os fl mc set fuel none (out.1, x)
              | raised e ↦ (raised e, (out.1, x))
            ]
      rest ih x (ok _, w) = ih (w, x)
      rest ih x (raised e, w) = refl

      go :
          Agrees
          → (out : Result Turn × State os fl mc)
          → next out ≡ elim out.0 as (λ r. Result Bool × State os fl mc) [
            | ok turn ↦
                elim turn as (λ t. M (State os fl mc) Bool) [
                  | stop ↦ pure true
                  | go_on ↦ lift set.sleep >> Daemon.loop os fl mc set fuel none
                ]
                  out.1
            | raised e ↦ (raised e, out.1)
          ]
      go ih (ok stop, s') = refl
      go ih (ok go_on, (w, x)) = rest ih x (set.sleep w)
      go ih (raised e, s') = refl

  connect_unset : (w : W) → set.no_db ≡ true → connect os fl mc set w ≡ (ok none, w)
  unfolding connect
  connect_unset w unset = ground arith

  -- With `AIMOS_NO_DB`, as the unit of the image has it, the deployed daemon and the daemon of the
  -- source do the same for any number of rounds, whatever the machine answers: they leave the
  -- same machine and the same samples, and end in the same way or with the same exception.
  pub main_deployed :
      (fuel : ℕ) (s : State os fl mc)
      → set.no_db ≡ true
      → main os fl mc set fuel s ≡ Daemon.main os fl mc set fuel s
  unfolding main Daemon.main
  main_deployed fuel s unset =
      ap (started (loop os fl mc set fuel)) (connect_unset s.0 unset)
      ∙ ap ended (loop_deployed fuel s)
      ∙ sym (ap (started (Daemon.loop os fl mc set fuel)) (connect_unset s.0 unset))
    where
      ended : Result Bool × State os fl mc → Result Bool × State os fl mc
      ended out = elim out.0 as (λ r. Result Bool × State os fl mc) [
        | ok b ↦
            (if b
                then lift (if_connected {F = F} none (λ db. db.close)) >> pure true
                else pure false)
              out.1
        | raised e ↦ (raised e, out.1)
      ]

      started :
          (Option (Database W F) → M (State os fl mc) Bool)
          → Result (Option (Database W F)) × W
          → Result Bool × State os fl mc
      started run out = elim out.0 as (λ r. Result Bool × State os fl mc) [
        | ok db_conn ↦
            (do
              b ← run db_conn
              if b then lift (if_connected db_conn (λ db. db.close)) >> pure true else pure false)
              (out.1, s.1)
        | raised e ↦ (raised e, (out.1, s.1))
      ]
