-- ===== src/Mcp/Batch.antt =====
-- crates/csm-proxy/src/mcp.rs: `inject_batch`, which runs the inject tools one after the other.
pub mod Stops
use crosspoint_simulator_mcp.Prelude.{
  ℕ, suc, ◌++◌, String, Bool, true, false, not, Option, none, some, List, [], ◌∷◌, Result, ok, err,
  ◌==◌, string_eq, unwrap_or, or_else, if◌then◌else◌,
}
use Prim.Native.String.{◌++◌ as append}
use crosspoint_simulator_mcp.Messages.{
  SimToServer, ServerPayload, SimPayload, CoordinateSpace, Heartbeat, UiResult, InjectTouch,
  InjectKey, InjectSwipe,
}
use crosspoint_simulator_mcp.Tokio.{Tokio}
use crosspoint_simulator_mcp.State.{InstanceMap, InstanceSnapshot, WaitKind}
use crosspoint_simulator_mcp.Instances.{get}
use crosspoint_simulator_mcp.Json.{Value, null, bool, string, json, nat_json, json_array}
use crosspoint_simulator_mcp.Mcp.Requests.{
  Pause, Reply, resolve, enqueue, enqueue_wait, reply_timeout,
}
use crosspoint_simulator_mcp.Mcp.Inject.{
  Waiting, Call, inject_touch_json, inject_key_json, inject_home_json, inject_swipe_json,
}

pub record InjectBatchStep : Type 0 where
  pub kind : String
  pub x : ℕ
  pub y : ℕ
  pub touch_kind : Option ℕ
  pub name : Option String
  pub hold_ms : ℕ
  pub start_x : ℕ
  pub start_y : ℕ
  pub end_x : ℕ
  pub end_y : ℕ
  pub duration_ms : ℕ
  pub wait : Option Bool
  pub wait_mode : Option String
  pub space : Option String
  pub wait_ms : Option ℕ

-- What a step overrides of the arguments that the batch shares.
unfoldable pub step_waiting : Waiting → InjectBatchStep → Waiting
step_waiting shared step = record {
  wait = unwrap_or step.wait shared.wait;
  wait_mode = or_else step.wait_mode shared.wait_mode;
  space = or_else step.space shared.space;
  wait_ms = or_else step.wait_ms shared.wait_ms;
}

module _ (t : Tokio) where
  -- The `match` on the kind of a step.
  unfoldable pub run_step : InstanceMap t → Pause → String → Waiting → InjectBatchStep → Call t
  unfolding inject_touch_json inject_key_json inject_home_json inject_swipe_json step_waiting
  run_step s pause id shared step =
      let w = step_waiting shared step in
      if step.kind == "touch"
      then inject_touch_json t s pause (some id) (unwrap_or step.touch_kind 3) step.x step.y w
      else if step.kind == "key"
      then inject_key_json t s pause (some id) (unwrap_or step.name "") step.hold_ms w
      else if step.kind == "home"
      then inject_home_json t s pause (some id) step.hold_ms w
      else if step.kind == "swipe"
      then inject_swipe_json t s pause (some id) step.start_x step.start_y step.end_x step.end_y
          step.duration_ms w
      else some (s, err (append "unknown inject_batch step kind: " step.kind))

abbrev pub result_json : ℕ → Value → Value
result_json index v = json (("index", nat_json index) ∷ ("result", v) ∷ [])

abbrev pub error_json : ℕ → String → Value
error_json index e = json (("index", nat_json index) ∷ ("error", string e) ∷ [])

abbrev pub completed_json : String → List Value → Value
completed_json id results =
    json
      (("instanceId", string id) ∷ ("stopped", bool false) ∷ ("results", json_array results) ∷ [])

abbrev pub stopped_json : String → ℕ → String → List Value → Value
stopped_json id index e results = json (
    ("instanceId", string id)
    ∷ ("stopped", bool true)
    ∷ ("failedIndex", nat_json index)
    ∷ ("error", string e)
    ∷ ("results", json_array results)
    ∷ [])

module _ (t : Tokio) where
  -- The loop of the batch from an index on, with the results so far. Each step has a pause of its own.
  unfoldable pub batch_loop :
      InstanceMap t
      → (ℕ → Pause)
      → String
      → Waiting
      → ℕ
      → List Value
      → List InjectBatchStep
      → Call t
  batch_loop s pauses id shared index results [] = some (s, ok (completed_json id results))
  batch_loop s pauses id shared index results (step ∷ steps) =
      elim (run_step t s (pauses index) id shared step) [
        | none ↦ none
        | some (s', ok v) ↦
            batch_loop s' pauses id shared (suc index) (results ++ result_json index v ∷ []) steps
        | some (s', err e) ↦
            some (s', ok (stopped_json id index e (results ++ error_json index e ∷ [])))
      ]

  abbrev pub batch_resolved :
      InstanceMap t
      → (ℕ → Pause)
      → Waiting
      → List InjectBatchStep
      → Result InstanceSnapshot String
      → Call t
  batch_resolved s pauses shared steps (err e) = some (s, err e)
  batch_resolved s pauses shared steps (ok snap) =
      batch_loop s pauses snap.register.instance_id shared 0 [] steps

  unfoldable pub inject_batch_json :
      InstanceMap t → (ℕ → Pause) → Option String → Waiting → List InjectBatchStep → Call t
  inject_batch_json s pauses instance_id shared steps =
      batch_resolved s pauses shared steps (resolve t s instance_id)
