-- ===== src/Mcp/Tools/Waits.antt =====
-- How long the tools of crates/csm-proxy/src/mcp.rs take: a call returns once its own clock has run out.
use crosspoint_simulator_mcp.Prelude.{
  ℕ, suc, ◌≡◌, refl, String, Bool, true, ◌&&◌, Option, none, some, List, [], ◌∷◌, ◌++◌, Result, ok,
  err, arith, leb, any, unwrap_or, or_else, Bool-cases, inl, inr, ◌==◌, string_eq,
}
use crosspoint_simulator_mcp.Messages.{CoordinateSpace, ServerPayload}
use crosspoint_simulator_mcp.Tokio.{Tokio}
use crosspoint_simulator_mcp.State.{InstanceMap, InstanceSnapshot}
use crosspoint_simulator_mcp.Json.{Value}
use crosspoint_simulator_mcp.Spawn.{Os}
use crosspoint_simulator_mcp.Mcp.Requests.{Pause, reply_timeout}
use crosspoint_simulator_mcp.Mcp.Inject.{
  Waiting, Call, inject_in, inject_touch_json, inject_key_json, inject_home_json, inject_swipe_json,
}
use crosspoint_simulator_mcp.Mcp.Inject.Outcome.{Returns, inject-returns}
use crosspoint_simulator_mcp.Mcp.Batch.{
  InjectBatchStep, step_waiting, run_step, result_json, error_json, stopped_json, batch_loop,
  batch_resolved,
}
use crosspoint_simulator_mcp.Mcp.Until.{timeout_ms}
use crosspoint_simulator_mcp.Mcp.Start.{McpServer}
use crosspoint_simulator_mcp.Spawn.Supervisor.Awaits.{reap_wait_ms}
use crosspoint_simulator_mcp.Mcp.Tools.{ToolCall, Outside, batch_waiting, observe_spec}

-- A pause is at least as long as the wait that it stands for.
abbrev pub outlasts : Pause → Option ℕ → Bool
outlasts pause wait_ms = leb (unwrap_or wait_ms reply_timeout) pause.waited_ms

-- So is the pause of every step of a batch.
abbrev pub outlasts_all : (ℕ → Pause) → Waiting → ℕ → List InjectBatchStep → Bool
outlasts_all pauses shared index [] = true
outlasts_all pauses shared index (step ∷ steps) =
    outlasts (pauses index) (or_else step.wait_ms shared.wait_ms)
    && outlasts_all pauses shared (suc index) steps

module _ (t : Tokio) (os : Os) where
  -- What goes on outside a call is long enough for the call: each wait's pause reaches its timeout, each
  -- loop has a round after its own, and the pause of a reap has its two seconds.
  abbrev pub lasts : McpServer t os → Outside os → ToolCall → Bool
  lasts server outside (ToolCall.start_instance params) =
      any (λ round. leb server.spawn.config.wait_ms round.waited_ms) outside.start_rounds
      && leb reap_wait_ms outside.reaping.waited_ms
  lasts server outside (ToolCall.inject_touch params) = outlasts outside.pause params.wait_ms
  lasts server outside (ToolCall.inject_key params) = outlasts outside.pause params.wait_ms
  lasts server outside (ToolCall.inject_home params) = outlasts outside.pause params.wait_ms
  lasts server outside (ToolCall.inject_swipe params) = outlasts outside.pause params.wait_ms
  lasts server outside (ToolCall.inject_batch params) =
      outlasts_all outside.pauses (batch_waiting params) 0 params.steps
  lasts server outside (ToolCall.request_snapshot params) = outlasts outside.pause none
  lasts server outside (ToolCall.observe params) =
      any
        (λ round.
          leb (timeout_ms server.spawn.config.observe_wait_ms (observe_spec params))
            round.waited_ms)
        outside.rounds
  lasts server outside (ToolCall.shutdown_instance params) =
      leb reap_wait_ms outside.reaping.waited_ms
  lasts server outside _ = true

module _ (t : Tokio) where
  pub inject_in-Returns :
      (s : InstanceMap t) (pause : Pause) (given : Option String) (w : Waiting)
      (payload : CoordinateSpace → ServerPayload) (space : Result CoordinateSpace String)
      → outlasts pause w.wait_ms ≡ true
      → Returns t (inject_in t s pause given w payload space)
  inject_in-Returns s pause given w payload (err e) long = (_, refl)
  inject_in-Returns s pause given w payload (ok space) long =
      inject-returns t s pause given w (payload space) long

  run_step-Returns :
      (s : InstanceMap t) (pause : Pause) (id : String) (shared : Waiting) (step : InjectBatchStep)
      → outlasts pause (or_else step.wait_ms shared.wait_ms) ≡ true
      → Returns t (run_step t s pause id shared step)
  unfolding run_step step_waiting inject_touch_json inject_key_json inject_home_json
      inject_swipe_json
  run_step-Returns s pause id shared step long = elim (Bool-cases (step.kind == "touch")) [
    | inl e ↦ rw e (inject_in-Returns s pause (some id) (step_waiting shared step) _ _ long)
    | inr touch ↦ rw touch (elim (Bool-cases (step.kind == "key")) [
      | inl e ↦ rw e (inject-returns t s pause (some id) (step_waiting shared step) _ long)
      | inr key ↦ rw key (elim (Bool-cases (step.kind == "home")) [
        | inl e ↦ rw e (inject-returns t s pause (some id) (step_waiting shared step) _ long)
        | inr home ↦ rw home (elim (Bool-cases (step.kind == "swipe")) [
          | inl e ↦ rw e (inject_in-Returns s pause (some id) (step_waiting shared step) _ _ long)
          | inr other ↦ rw other (_, refl)
        ])
      ])
    ])
  ]

  module _ (pauses : ℕ → Pause) (id : String) (shared : Waiting) where
    next-Returns :
        (index : ℕ) (results : List Value) (steps : List InjectBatchStep) (o : Call t)
        → Returns t o
        → ((s' : InstanceMap t) (v : Value)
            → Returns t (
                batch_loop t s' pauses id shared
                  (suc index)
                  (results ++ result_json index v ∷ [])
                  steps))
        → Returns t (elim o [
          | none ↦ none
          | some (s', ok v) ↦
              batch_loop t s' pauses id shared
                (suc index)
                (results ++ result_json index v ∷ [])
                steps
          | some (s', err e) ↦
              some (s', ok (stopped_json id index e (results ++ error_json index e ∷ [])))
        ])
    next-Returns index results steps none (a, e) again = cc
    next-Returns index results steps (some (s', ok v)) r again = again s' v
    next-Returns index results steps (some (s', err e)) r again = (_, refl)

    batch_loop-Returns :
        (s : InstanceMap t) (index : ℕ) (results : List Value) (steps : List InjectBatchStep)
        → outlasts_all pauses shared index steps ≡ true
        → Returns t (batch_loop t s pauses id shared index results steps)
    unfolding batch_loop
    batch_loop-Returns s index results [] long = (_, refl)
    batch_loop-Returns s index results (step ∷ steps) long =
        next-Returns index results steps (run_step t s (pauses index) id shared step)
          (run_step-Returns s (pauses index) id shared step (ground arith))
          λ s' v.
            batch_loop-Returns s' (suc index) (results ++ result_json index v ∷ []) steps
              (ground arith)

  pub batch_resolved-Returns :
      (s : InstanceMap t) (pauses : ℕ → Pause) (shared : Waiting) (steps : List InjectBatchStep)
      (o : Result InstanceSnapshot String)
      → outlasts_all pauses shared 0 steps ≡ true
      → Returns t (batch_resolved t s pauses shared steps o)
  batch_resolved-Returns s pauses shared steps (err e) long = (_, refl)
  batch_resolved-Returns s pauses shared steps (ok snap) long =
      batch_loop-Returns pauses snap.register.instance_id shared s 0 [] steps long
