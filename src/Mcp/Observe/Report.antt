-- ===== src/Mcp/Observe/Report.antt =====
-- The answer of `observe` in crates/csm-proxy/src/mcp.rs.
use crosspoint_simulator_mcp.Prelude.{
  ℕ, ◌≡◌, refl, sym, ap, ◌∙◌, String, Bool, true, false, not, ◌&&◌, Option, some, List, [], ◌∷◌,
  ◌++◌, Result, ok, err, arith,
}
use crosspoint_simulator_mcp.Tokio.{Tokio}
use crosspoint_simulator_mcp.State.{InstanceMap}
use crosspoint_simulator_mcp.History.{run}
use crosspoint_simulator_mcp.Json.{Value, Serde}
use crosspoint_simulator_mcp.Mcp.Inject.{Call}
use crosspoint_simulator_mcp.Mcp.Until.{ObserveSpec, is_waiting, timeout_ms}
use crosspoint_simulator_mcp.Mcp.Observe.{
  Round, drain_observe, generation_floor, matches, observe_result, observe_loop, observe_drained,
  observe_wait_json,
}

module _ (t : Tokio) (serde : Serde) where
  abbrev pub events_of : Result (String × List Value) String → List Value
  events_of (err e) = []
  events_of (ok (id, events)) = events

  -- The drains after the given rounds, one after each, and what the other tasks do before it: the state
  -- that they lead to, and their events in order.
  unfoldable pub drains : InstanceMap t → String → List Round → InstanceMap t × List Value
  drains s id [] = (s, [])
  drains s id (round ∷ rounds) =
      let (s₁, drained) = drain_observe t serde (run t s round.meanwhile) (some id) in
      let (s₂, more) = drains s₁ id rounds in (s₂, events_of drained ++ more)

  module _ (id : String) (spec : ObserveSpec) (floor : Option ℕ) where
    -- The loop ends in one of the rounds. It answers with the events that are there already and those of
    -- the drains after the rounds before that one, in the state that these lead to, and whether a
    -- condition holds of them and of that state.
    pub record Reported (s : InstanceMap t) (events : List Value) (rounds : List Round)
        (s' : InstanceMap t) (v : Value) : Type 0 where
      pub before : List Round
      pub last : Round
      pub later : List Round
      pub split : rounds ≡ before ++ last ∷ later
      pub reached : (drains s id before).0 ≡ s'
      pub shown :
          let all = events ++ (drains s id before).1 in
          let matched = matches t serde s' id spec floor all in
          v
          ≡ observe_result t serde s' id all
              (is_waiting spec)
              matched
              (is_waiting spec && not matched)

    append_nothing : (events : List Value) → events ++ [] ≡ events
    append_nothing [] = refl
    append_nothing (x ∷ xs) = ap (λ zs. x ∷ zs) (append_nothing xs)

    append_assoc : (xs ys zs : List Value) → (xs ++ ys) ++ zs ≡ xs ++ (ys ++ zs)
    append_assoc [] ys zs = refl
    append_assoc (x ∷ xs) ys zs = ap (λ rest. x ∷ rest) (append_assoc xs ys zs)

    round-reports :
        (s s' : InstanceMap t) (ends : Bool) (events : List Value) (after : Call t) (v : Value)
        (round : Round) (rounds : List Round)
        → let matched = matches t serde s id spec floor events in
          ◌≡◌ {A = Call t}
            (elim ends [
              | true ↦ some (
                s,
                ok (
                    observe_result t serde s id events
                      (is_waiting spec)
                      matched
                      (is_waiting spec && not matched)),
              )
              | false ↦ after
            ])
            (some (s', ok v))
          → (after ≡ some (s', ok v) → Reported s events (round ∷ rounds) s' v)
          → Reported s events (round ∷ rounds) s' v
    unfolding drains
    round-reports s s' true events after v round rounds h f =
        let matched = matches t serde s id spec floor events in
        let answer =
          observe_result t serde s id events (is_waiting spec) matched
            (is_waiting spec && not matched) in
        let here : s ≡ s' = ground arith in
        let same : answer ≡ v = ground arith in
        record {
          before = [];
          last = round;
          later = rounds;
          split = refl;
          reached = here;
          shown = rw (append_nothing events, ← here) (sym same);
        }
    round-reports s s' false events after v round rounds h f = f h

    module _ (timeout : ℕ) where
      -- One round more before the others.
      later-reports :
          (s s' : InstanceMap t) (round : Round) (i : String) (events more : List Value)
          (rounds : List Round) (v : Value)
          → let x = drain_observe t serde (run t s round.meanwhile) (some id) in
            x.1 ≡ ok (i, more)
            → Reported x.0 (events ++ more) rounds s' v
            → Reported s events (round ∷ rounds) s' v
      unfolding drains
      later-reports s s' round i events more rounds v e r =
          let x = drain_observe t serde (run t s round.meanwhile) (some id) in
          record {
            before = round ∷ r.before;
            last = r.last;
            later = r.later;
            split = ap (λ rs. round ∷ rs) r.split;
            reached = r.reached;
            shown = rw (e, ← append_assoc events more (drains x.0 id r.before).1) r.shown;
          }

      again-reports :
          (s s' : InstanceMap t) (round : Round) (drained : Result (String × List Value) String)
          (events : List Value) (rounds : List Round) (v : Value)
          → let x = drain_observe t serde (run t s round.meanwhile) (some id) in
            x.1 ≡ drained
            → ((more : List Value)
                → observe_loop t serde x.0 id spec timeout floor (events ++ more) rounds
                  ≡ some (s', ok v)
                → Reported x.0 (events ++ more) rounds s' v)
            → ◌≡◌ {A = Call t}
                (elim drained [
                  | err e ↦ some (x.0, err e)
                  | ok (_, more) ↦
                      observe_loop t serde x.0 id spec timeout floor (events ++ more) rounds
                ])
                (some (s', ok v))
            → Reported s events (round ∷ rounds) s' v
      again-reports s s' round (err e) events rounds v same f h = absurd (ground arith)
      again-reports s s' round (ok (i, more)) events rounds v same f h =
          later-reports s s' round i events more rounds v same (f more h)

      observe_loop-reports :
          (s s' : InstanceMap t) (events : List Value) (rounds : List Round) (v : Value)
          → observe_loop t serde s id spec timeout floor events rounds ≡ some (s', ok v)
          → Reported s events rounds s' v
      unfolding observe_loop
      observe_loop-reports s s' events [] v h = absurd (ground arith)
      observe_loop-reports s s' events (round ∷ rounds) v h =
          let (s₁, drained) = drain_observe t serde (run t s round.meanwhile) (some id) in
          round-reports s s' _ events _ v round rounds h (
            again-reports s s' round drained events rounds v refl
              λ more. observe_loop-reports s₁ s' (events ++ more) rounds v)

  -- An observe call that succeeds ends in one of its rounds. It answers with the events of its first
  -- drain and then those of the drain after each round before that one, in order, and leaves the state
  -- that these drains lead to. It reports `matched` exactly if a condition holds of these events and of
  -- the last heartbeat in that state, and `timedOut` exactly if it waited for a condition and none holds.
  pub observe_wait_json-reports :
      (s s₁ s' : InstanceMap t) (observe_wait_ms : ℕ) (rounds : List Round) (given : Option String)
      (spec : ObserveSpec) (id : String) (first : List Value) (v : Value)
      → drain_observe t serde s given ≡ (s₁, ok (id, first))
      → observe_wait_json t serde s observe_wait_ms rounds given spec ≡ some (s', ok v)
      → Reported id spec
          (generation_floor t serde s₁ id spec.until_generation_gt)
          s₁
          first
          rounds
          s'
          v
  unfolding observe_wait_json
  observe_wait_json-reports s s₁ s' observe_wait_ms rounds given spec id first v drained h =
      observe_loop-reports id spec (generation_floor t serde s₁ id spec.until_generation_gt)
        (timeout_ms observe_wait_ms spec) s₁ s' first rounds v
        (ap (observe_drained t serde spec (timeout_ms observe_wait_ms spec) rounds) (sym drained)
          ∙ h)
