-- ===== src/Mcp/Observe/Rounds.antt =====
-- The loop of `observe` in crates/csm-proxy/src/mcp.rs: that it ends, and what it reports.
use crosspoint_simulator_mcp.Prelude.{
  ℕ, ◌≡◌, refl, ◌⊎◌, inl, inr, String, Bool, true, false, not, ◌&&◌, ◌||◌, Option, some, List, [],
  ◌∷◌, ◌++◌, Result, ok, err, arith, leb, any, Bool-cases,
}
use crosspoint_simulator_mcp.Tokio.{Tokio}
use crosspoint_simulator_mcp.State.{InstanceMap}
use crosspoint_simulator_mcp.History.{run}
use crosspoint_simulator_mcp.Json.{Value, Serde}
use crosspoint_simulator_mcp.Mcp.Inject.{Call}
use crosspoint_simulator_mcp.Mcp.Until.{ObserveSpec, is_waiting, timeout_ms}
use crosspoint_simulator_mcp.Mcp.Observe.{
  Round, drain_observe, generation_floor, matches, observe_loop, observe_drained, observe_wait_json,
}

module _ (t : Tokio) (serde : Serde) where
  -- One of the rounds comes after the timeout.
  abbrev pub late : ℕ → List Round → Bool
  late timeout rounds = any (λ round. leb timeout round.waited_ms) rounds

  module _ (id : String) (spec : ObserveSpec) (timeout : ℕ) (floor : Option ℕ) where
    again-returns :
        (s₁ : InstanceMap t) (drained : Result (String × List Value) String) (events : List Value)
        (rounds : List Round)
        → ((more : List Value)
            → (a : InstanceMap t × Result Value String) × (observe_loop t serde s₁ id spec timeout
                  floor
                  (events ++ more)
                  rounds
                ≡ some a))
        → (a : InstanceMap t × Result Value String) × (◌≡◌ {A = Call t}
            (elim drained [
              | err e ↦ some (s₁, err e)
              | ok (_, more) ↦ observe_loop t serde s₁ id spec timeout floor (events ++ more) rounds
            ])
            (some a))
    again-returns s₁ (err e) events rounds f = (_, refl)
    again-returns s₁ (ok (i, more)) events rounds f = f more

    round-returns :
        (ends : Bool) (now : InstanceMap t × Result Value String) (after : Call t)
        → ((ends ≡ true) ⊎ ((a : InstanceMap t × Result Value String) × (after ≡ some a)))
        → (a : InstanceMap t × Result Value String) × (◌≡◌ {A = Call t}
            (elim ends [ true ↦ some now | false ↦ after ])
            (some a))
    round-returns true now after h = (now, refl)
    round-returns false now after (inr r) = r
    round-returns false now after (inl e) = cc

    ends_late :
        (waiting matched timed_out : Bool)
        → timed_out ≡ true
        → ((waiting && (matched || timed_out)) || (not waiting && timed_out)) ≡ true
    ends_late waiting matched timed_out h = ground arith

    observe_loop-returns :
        (s : InstanceMap t) (events : List Value) (rounds : List Round)
        → late timeout rounds ≡ true
        → (a : InstanceMap t × Result Value String) × (observe_loop t serde s id spec timeout floor
              events rounds
            ≡ some a)
    unfolding observe_loop
    observe_loop-returns s events [] h = cc
    observe_loop-returns s events (round ∷ rounds) h =
        let (s₁, drained) = drain_observe t serde (run t s round.meanwhile) (some id) in
        round-returns _ _ _ (elim (Bool-cases (leb timeout round.waited_ms)) [
          | inl now ↦ inl (
              ends_late (is_waiting spec) (matches t serde s id spec floor events)
                (leb timeout round.waited_ms) now)
          | inr later ↦ inr (
              again-returns s₁ drained events rounds
                λ more. observe_loop-returns s₁ (events ++ more) rounds (ground arith))
        ])

  -- An observe call returns at the latest in its first round after the timeout, which is `wait_ms`, or
  -- else the default of the process if there is a condition to wait for, and 0 if there is none.
  pub observe_wait_json-returns :
      (s : InstanceMap t) (observe_wait_ms : ℕ) (rounds : List Round) (given : Option String)
      (spec : ObserveSpec)
      → late (timeout_ms observe_wait_ms spec) rounds ≡ true
      → (result : InstanceMap t × Result Value String) × (observe_wait_json t serde s
            observe_wait_ms rounds given spec
          ≡ some result)
  unfolding observe_wait_json
  observe_wait_json-returns s observe_wait_ms rounds given spec h =
      drained-returns (drain_observe t serde s given)
    where
      drained-returns :
          (x : InstanceMap t × Result (String × List Value) String)
          → (result : InstanceMap t × Result Value String) × (observe_drained t serde spec
                (timeout_ms observe_wait_ms spec)
                rounds
                x
              ≡ some result)
      drained-returns (s₁, err e) = (_, refl)
      drained-returns (s₁, ok (id, events)) =
          observe_loop-returns id spec (timeout_ms observe_wait_ms spec)
            (generation_floor t serde s₁ id spec.until_generation_gt) s₁ events rounds h
