-- ===== src/Mcp/Observe/Spec.antt =====
-- The loop of `observe` of crates/csm-proxy/src/mcp.rs: `wait_ms` only counts before it.
use crosspoint_simulator_mcp.Prelude.{
  ℕ, ◌≡◌, refl, String, Bool, true, false, ◌&&◌, ◌||◌, not, Option, some, List, [], ◌∷◌, ◌++◌,
  Result, ok, err, leb,
}
use crosspoint_simulator_mcp.Tokio.{Tokio}
use crosspoint_simulator_mcp.State.{InstanceMap}
use crosspoint_simulator_mcp.History.{run}
use crosspoint_simulator_mcp.Json.{Value, Serde}
use crosspoint_simulator_mcp.Mcp.Inject.{Call}
use crosspoint_simulator_mcp.Mcp.Until.{ObserveSpec, is_waiting}
use crosspoint_simulator_mcp.Mcp.Observe.{
  Round, drain_observe, generation_floor, matches, observe_result, observe_loop, observe_drained,
}

module _ (t : Tokio) (serde : Serde) where
  same_rest :
      (ends : Bool) (now : Call t) (s : InstanceMap t)
      (drained : Result (String × List Value) String) (events : List Value)
      (f g : List Value → Call t)
      → ((more : List Value) → f more ≡ g more)
      → ◌≡◌ {A = Call t}
          (elim ends [
            | true ↦ now
            | false ↦ elim drained [ err e ↦ some (s, err e) | ok (_, more) ↦ f (events ++ more) ]
          ])
          (elim ends [
            | true ↦ now
            | false ↦ elim drained [ err e ↦ some (s, err e) | ok (_, more) ↦ g (events ++ more) ]
          ])
  same_rest true now s drained events f g h = refl
  same_rest false now s (err e) events f g h = refl
  same_rest false now s (ok (id, more)) events f g h = h (events ++ more)

  module _ (id : String) (spec : ObserveSpec) (a b : Option ℕ) (timeout : ℕ)
      (floor : Option ℕ) where
    observe_loop-wait_ms :
        (s : InstanceMap t) (events : List Value) (rounds : List Round)
        → observe_loop t serde s id (record spec { wait_ms = a }) timeout floor events rounds
          ≡ observe_loop t serde s id (record spec { wait_ms = b }) timeout floor events rounds
    unfolding observe_loop is_waiting
    observe_loop-wait_ms s events [] = refl
    observe_loop-wait_ms s events (round ∷ rounds) =
        let x = drain_observe t serde (run t s round.meanwhile) (some id) in
        let waiting = is_waiting spec in
        let matched = matches t serde s id spec floor events in
        let timed_out = leb timeout round.waited_ms in
        same_rest ((waiting && (matched || timed_out)) || (not waiting && timed_out))
          (some
            (s, ok (observe_result t serde s id events waiting matched (waiting && not matched))))
          x.0 x.1 events
          (λ all.
            observe_loop t serde x.0 id (record spec { wait_ms = a }) timeout floor all rounds)
          (λ all.
            observe_loop t serde x.0 id (record spec { wait_ms = b }) timeout floor all rounds)
          λ all. observe_loop-wait_ms x.0 all rounds

  pub observe_drained-wait_ms :
      (spec : ObserveSpec) (a b : Option ℕ) (timeout : ℕ) (rounds : List Round)
      (x : InstanceMap t × Result (String × List Value) String)
      → observe_drained t serde (record spec { wait_ms = a }) timeout rounds x
        ≡ observe_drained t serde (record spec { wait_ms = b }) timeout rounds x
  observe_drained-wait_ms spec a b timeout rounds (s, err e) = refl
  observe_drained-wait_ms spec a b timeout rounds (s, ok (id, events)) =
      observe_loop-wait_ms id spec a b timeout
        (generation_floor t serde s id spec.until_generation_gt) s events rounds
