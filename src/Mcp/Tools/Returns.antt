-- ===== src/Mcp/Tools/Returns.antt =====
-- Every tool of crates/csm-proxy/src/mcp.rs returns.
use crosspoint_simulator_mcp.Prelude.{
  ◌≡◌, refl, String, Bool, true, false, Option, none, some, Result, ok, err, string_eq,
}
use crosspoint_simulator_mcp.Messages.{ServerPayload, SnapshotRequest}
use crosspoint_simulator_mcp.Tokio.{Tokio}
use crosspoint_simulator_mcp.State.{InstanceMap, WaitKind}
use crosspoint_simulator_mcp.Json.{Value, Serde}
use crosspoint_simulator_mcp.Spawn.{Os}
use crosspoint_simulator_mcp.Mcp.Requests.{Pause, Reply, resolve, reply_timeout, enqueue_wait}
use crosspoint_simulator_mcp.Mcp.Inject.{
  Call, inject_touch_json, inject_key_json, inject_home_json, inject_swipe_json,
  parse_coordinate_space,
}
use crosspoint_simulator_mcp.Mcp.Inject.Outcome.{Returns, wait_resolved-Returns, inject-returns}
use crosspoint_simulator_mcp.Mcp.Batch.{inject_batch_json}
use crosspoint_simulator_mcp.Mcp.Observe.Rounds.{observe_wait_json-returns}
use crosspoint_simulator_mcp.Mcp.Snapshot.{CallToolResult, snapped, request_snapshot_result}
use crosspoint_simulator_mcp.Mcp.Start.{McpServer}
use crosspoint_simulator_mcp.Mcp.Start.Returns.{
  start_instance_json-Returns, shutdown_instance-Returns,
}
use crosspoint_simulator_mcp.Mcp.Tools.{
  ToolCall, Outside, with_instances, tool_answered, served, call_list_instances, call_get_instance,
  call_start_instance, call_inject_touch, call_inject_key, call_inject_home, call_inject_swipe,
  call_inject_batch, call_set_inject_enabled, call_request_snapshot, call_set_session_view,
  call_shutdown_instance, call_observe, call_tool, touch_waiting, key_waiting, home_waiting,
  swipe_waiting, batch_waiting, observe_spec, snapshot_region,
}
use crosspoint_simulator_mcp.Mcp.Tools.Waits.{
  outlasts, lasts, inject_in-Returns, batch_resolved-Returns,
}

module _ (t : Tokio) (os : Os) (serde : Serde) where
  answered-Returns :
      (server : McpServer t os) (call : Call t)
      → Returns t call
      → Returns t (tool_answered t os serde server call)
  answered-Returns server none (a, e) = cc
  answered-Returns server (some (s, v)) r = (_, refl)

  served-Returns :
      (o : Option (McpServer t os × Result Value String))
      → Returns t o
      → Returns t (served t os serde o)
  served-Returns none (a, e) = cc
  served-Returns (some (server, v)) r = (_, refl)

  with_instances-Returns :
      (server : McpServer t os) (o : Option (InstanceMap t × CallToolResult))
      → Returns t o
      → Returns t (with_instances t os serde server o)
  with_instances-Returns server none (a, e) = cc
  with_instances-Returns server (some (s, v)) r = (_, refl)

  snapped-Returns :
      (o : Option (InstanceMap t × Reply t)) → Returns t o → Returns t (snapped t serde o)
  snapped-Returns none (a, e) = cc
  snapped-Returns (some (s, err e)) r = (_, refl)
  snapped-Returns (some (s, ok reply)) r = (_, refl)

  request_snapshot_result-Returns :
      (s : InstanceMap t) (pause : Pause) (given : Option String) (payload : SnapshotRequest)
      (wait : Bool)
      → outlasts pause none ≡ true
      → Returns t (request_snapshot_result t serde s pause given payload wait)
  unfolding request_snapshot_result enqueue_wait
  request_snapshot_result-Returns s pause given payload false long = (_, refl)
  request_snapshot_result-Returns s pause given payload true long = snapped-Returns _ (
      wait_resolved-Returns t s pause false (ServerPayload.snapshot_request payload)
        WaitKind.snapshot reply_timeout (resolve t s given) long)

  -- A call of any of the thirteen tools returns: an inject, each step of a batch and a snapshot at the
  -- latest when their timeout has passed, an observe at the latest in its first round after its timeout,
  -- a start at the latest in its first round after its own and, where it reaps its child, the two seconds
  -- of that wait, a shutdown at the latest after the two seconds of its reap, and the other tools at once.
  pub call_tool-returns :
      (server : McpServer t os) (outside : Outside os) (call : ToolCall)
      → lasts t os server outside call ≡ true
      → (result : McpServer t os × CallToolResult) × (call_tool t os serde server outside call
          ≡ some result)
  unfolding call_tool call_list_instances call_get_instance call_start_instance call_inject_touch
      call_inject_key call_inject_home call_inject_swipe call_inject_batch call_set_inject_enabled
      call_request_snapshot call_set_session_view call_shutdown_instance call_observe
      inject_touch_json inject_key_json inject_home_json inject_swipe_json inject_batch_json
  call_tool-returns server outside ToolCall.list_instances long = (_, refl)
  call_tool-returns server outside (ToolCall.get_instance params) long = (_, refl)
  call_tool-returns server outside (ToolCall.start_instance params) long = served-Returns _ (
      start_instance_json-Returns t os serde server outside.start_rounds outside.reaping
        params.instance_id params.headless params.cwd params.sample_book _ long)
  call_tool-returns server outside (ToolCall.inject_touch params) long = answered-Returns server _ (
      inject_in-Returns t server.instances outside.pause params.instance_id (touch_waiting params) _
        (parse_coordinate_space params.space) long)
  call_tool-returns server outside (ToolCall.inject_key params) long = answered-Returns server _ (
      inject-returns t server.instances outside.pause params.instance_id (key_waiting params) _
        long)
  call_tool-returns server outside (ToolCall.inject_home params) long = answered-Returns server _ (
      inject-returns t server.instances outside.pause params.instance_id (home_waiting params) _
        long)
  call_tool-returns server outside (ToolCall.inject_swipe params) long = answered-Returns server _ (
      inject_in-Returns t server.instances outside.pause params.instance_id (swipe_waiting params) _
        (parse_coordinate_space params.space) long)
  call_tool-returns server outside (ToolCall.inject_batch params) long = answered-Returns server _ (
      batch_resolved-Returns t server.instances outside.pauses (batch_waiting params) params.steps
        (resolve t server.instances params.instance_id) long)
  call_tool-returns server outside (ToolCall.set_inject_enabled params) long = (_, refl)
  call_tool-returns server outside (ToolCall.request_snapshot params) long =
      with_instances-Returns server _ (
        request_snapshot_result-Returns server.instances outside.pause params.instance_id
          (snapshot_region params) params.wait long)
  call_tool-returns server outside (ToolCall.set_session_view params) long = (_, refl)
  call_tool-returns server outside (ToolCall.shutdown_instance params) long =
      served-Returns _
        (shutdown_instance-Returns t os serde server outside.reaping params.instance_id long)
  call_tool-returns server outside (ToolCall.observe params) long = answered-Returns server _ (
      observe_wait_json-returns t serde server.instances server.spawn.config.observe_wait_ms
        outside.rounds params.instance_id (observe_spec params) long)
