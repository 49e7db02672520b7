-- ===== src/Mcp/Tools.antt =====
-- crates/csm-proxy/src/mcp.rs: the tools as a client calls them, and the router that rmcp generates from
-- them. A call is given what goes on outside it: the pauses of its waits and the rounds of its loops.
pub mod Waits
pub mod Refused
pub mod Returns
use crosspoint_simulator_mcp.Prelude.{
  ℕ, String, Bool, Option, none, some, List, [], ◌∷◌, Result, ok, err, unwrap_or,
}
use crosspoint_simulator_mcp.Messages.{SnapshotRequest}
use crosspoint_simulator_mcp.Tokio.{Tokio}
use crosspoint_simulator_mcp.State.{InstanceMap}
use crosspoint_simulator_mcp.Json.{Value, Serde}
use crosspoint_simulator_mcp.Mcp.Requests.{Pause}
use crosspoint_simulator_mcp.Mcp.Inject.{
  Waiting, Call, inject_touch_json, inject_key_json, inject_home_json, inject_swipe_json,
}
use crosspoint_simulator_mcp.Mcp.Batch.{inject_batch_json}
use crosspoint_simulator_mcp.Mcp.Until.{ObserveSpec}
use crosspoint_simulator_mcp.Mcp.Observe.{Round, observe_wait_json}
use crosspoint_simulator_mcp.Mcp.View.{set_session_view_json, set_inject_enabled_json}
use crosspoint_simulator_mcp.Mcp.Snapshot.{CallToolResult, tool_result, request_snapshot_result}
use crosspoint_simulator_mcp.Mcp.Resources.{list_instances_json, get_instance_json}
use crosspoint_simulator_mcp.Mcp.Start
use crosspoint_simulator_mcp.Mcp.Start.{McpServer, StartRound, start_instance_json}
use crosspoint_simulator_mcp.Mcp.Params.{
  InstanceParams, InjectTouchParams, InjectKeyParams, InjectHomeParams, InjectSwipeParams,
  SetInjectEnabledParams, SnapshotParams, SessionViewParams, StartInstanceParams, ObserveParams,
  InjectBatchParams,
}
use crosspoint_simulator_mcp.Spawn.{Os}

-- A call of a tool, by the tool's name.
pub data ToolCall : Type 0 where
  list_instances : ToolCall
  get_instance : InstanceParams → ToolCall
  start_instance : StartInstanceParams → ToolCall
  inject_touch : InjectTouchParams → ToolCall
  inject_key : InjectKeyParams → ToolCall
  inject_home : InjectHomeParams → ToolCall
  inject_swipe : InjectSwipeParams → ToolCall
  inject_batch : InjectBatchParams → ToolCall
  set_inject_enabled : SetInjectEnabledParams → ToolCall
  request_snapshot : SnapshotParams → ToolCall
  set_session_view : SessionViewParams → ToolCall
  shutdown_instance : InstanceParams → ToolCall
  observe : ObserveParams → ToolCall

-- What goes on outside a call: the pause of a wait, of each step of a batch, the rounds of the two
-- loops, and the pause of a reap's wait for its child.
pub record Outside (os : Os) : Type 0 where
  pub pause : Pause
  pub pauses : ℕ → Pause
  pub rounds : List Round
  pub start_rounds : List (StartRound os)
  pub reaping : StartRound os

abbrev pub touch_waiting : InjectTouchParams → Waiting
touch_waiting params = record {
  wait = params.wait;
  wait_mode = params.wait_mode;
  space = params.space;
  wait_ms = params.wait_ms;
}

abbrev pub key_waiting : InjectKeyParams → Waiting
key_waiting params = record {
  wait = params.wait;
  wait_mode = params.wait_mode;
  space = none;
  wait_ms = params.wait_ms;
}

abbrev pub home_waiting : InjectHomeParams → Waiting
home_waiting params = record {
  wait = params.wait;
  wait_mode = params.wait_mode;
  space = none;
  wait_ms = params.wait_ms;
}

abbrev pub swipe_waiting : InjectSwipeParams → Waiting
swipe_waiting params = record {
  wait = params.wait;
  wait_mode = params.wait_mode;
  space = params.space;
  wait_ms = params.wait_ms;
}

abbrev pub batch_waiting : InjectBatchParams → Waiting
batch_waiting params = record {
  wait = params.wait;
  wait_mode = params.wait_mode;
  space = params.space;
  wait_ms = params.wait_ms;
}

abbrev pub observe_spec : ObserveParams → ObserveSpec
observe_spec params = record {
  wait_ms = params.wait_ms;
  until_log = params.until_log;
  until_generation_gt = params.until_generation_gt;
  until_activity = params.until_activity;
  until_progress_page = params.until_progress_page;
}

abbrev pub snapshot_region : SnapshotParams → SnapshotRequest
snapshot_region params = record {
  region = params.region;
  x = params.x;
  y = params.y;
  width = params.width;
  height = params.height;
  format = params.format;
}

module _ (t : Tokio) (os : Os) (serde : Serde) where
  -- A call: no result where what goes on outside ends before it does.
  abbrev pub ToolRun : Type 0
  ToolRun = Option (McpServer t os × CallToolResult)

  abbrev pub with_instances : McpServer t os → Option (InstanceMap t × CallToolResult) → ToolRun
  with_instances server none = none
  with_instances server (some (s, r)) = some (record server { instances = s }, r)

  -- A tool on the instances, ended by `tool_result`.
  abbrev pub tool_answered : McpServer t os → Call t → ToolRun
  tool_answered server none = none
  tool_answered server (some (s, r)) = some (record server { instances = s }, tool_result serde r)

  abbrev pub tool_answered_at_once : McpServer t os → InstanceMap t × Result Value String → ToolRun
  tool_answered_at_once server (s, r) = some (record server { instances = s }, tool_result serde r)

  -- A tool on the whole server.
  abbrev pub served : Option (McpServer t os × Result Value String) → ToolRun
  served none = none
  served (some (server, r)) = some (server, tool_result serde r)

  unfoldable pub call_list_instances : McpServer t os → ToolRun
  call_list_instances server =
      some (server, tool_result serde (ok (list_instances_json t serde server.instances)))

  unfoldable pub call_get_instance : McpServer t os → InstanceParams → ToolRun
  call_get_instance server params =
      some
        (server, tool_result serde (get_instance_json t serde server.instances params.instance_id))

  unfoldable pub call_start_instance :
      McpServer t os → List (StartRound os) → StartRound os → StartInstanceParams → ToolRun
  call_start_instance server rounds reaping params =
      let auto_sleep = unwrap_or params.auto_sleep server.spawn.config.auto_sleep_default in
      served (
        start_instance_json t os serde server rounds reaping params.instance_id params.headless
          params.cwd params.sample_book auto_sleep)

  unfoldable pub call_inject_touch : McpServer t os → Pause → InjectTouchParams → ToolRun
  call_inject_touch server pause params = tool_answered server (
      inject_touch_json t server.instances pause params.instance_id params.kind params.x params.y
        (touch_waiting params))

  unfoldable pub call_inject_key : McpServer t os → Pause → InjectKeyParams → ToolRun
  call_inject_key server pause params = tool_answered server (
      inject_key_json t server.instances pause params.instance_id params.name params.hold_ms
        (key_waiting params))

  unfoldable pub call_inject_home : McpServer t os → Pause → InjectHomeParams → ToolRun
  call_inject_home server pause params = tool_answered server (
      inject_home_json t server.instances pause params.instance_id params.hold_ms
        (home_waiting params))

  unfoldable pub call_inject_swipe : McpServer t os → Pause → InjectSwipeParams → ToolRun
  call_inject_swipe server pause params = tool_answered server (
      inject_swipe_json t server.instances pause params.instance_id params.start_x params.start_y
        params.end_x params.end_y params.duration_ms (swipe_waiting params))

  unfoldable pub call_inject_batch : McpServer t os → (ℕ → Pause) → InjectBatchParams → ToolRun
  call_inject_batch server pauses params = tool_answered server (
      inject_batch_json t server.instances pauses params.instance_id (batch_waiting params)
        params.steps)

  unfoldable pub call_set_inject_enabled : McpServer t os → SetInjectEnabledParams → ToolRun
  call_set_inject_enabled server params =
      tool_answered_at_once server
        (set_inject_enabled_json t server.instances params.instance_id params.enabled)

  unfoldable pub call_request_snapshot : McpServer t os → Pause → SnapshotParams → ToolRun
  call_request_snapshot server pause params = with_instances server (
      request_snapshot_result t serde server.instances pause params.instance_id
        (snapshot_region params) params.wait)

  unfoldable pub call_set_session_view : McpServer t os → SessionViewParams → ToolRun
  call_set_session_view server params = tool_answered_at_once server (
      set_session_view_json t server.instances params.instance_id params.paths
        params.exclude_log_components)

  unfoldable pub call_shutdown_instance : McpServer t os → StartRound os → InstanceParams → ToolRun
  call_shutdown_instance server reaping params =
      served (Start.shutdown_instance t os serde server reaping params.instance_id)

  unfoldable pub call_observe : McpServer t os → List Round → ObserveParams → ToolRun
  call_observe server rounds params = tool_answered server (
      observe_wait_json t serde server.instances server.spawn.config.observe_wait_ms rounds
        params.instance_id (observe_spec params))

  -- The router.
  unfoldable pub call_tool : McpServer t os → Outside os → ToolCall → ToolRun
  call_tool server outside list_instances = call_list_instances server
  call_tool server outside (get_instance params) = call_get_instance server params
  call_tool server outside (start_instance params) =
      call_start_instance server outside.start_rounds outside.reaping params
  call_tool server outside (inject_touch params) = call_inject_touch server outside.pause params
  call_tool server outside (inject_key params) = call_inject_key server outside.pause params
  call_tool server outside (inject_home params) = call_inject_home server outside.pause params
  call_tool server outside (inject_swipe params) = call_inject_swipe server outside.pause params
  call_tool server outside (inject_batch params) = call_inject_batch server outside.pauses params
  call_tool server outside (set_inject_enabled params) = call_set_inject_enabled server params
  call_tool server outside (request_snapshot params) =
      call_request_snapshot server outside.pause params
  call_tool server outside (set_session_view params) = call_set_session_view server params
  call_tool server outside (shutdown_instance params) =
      call_shutdown_instance server outside.reaping params
  call_tool server outside (observe params) = call_observe server outside.rounds params
