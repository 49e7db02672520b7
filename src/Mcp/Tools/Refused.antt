-- ===== src/Mcp/Tools/Refused.antt =====
-- The tools of crates/csm-proxy/src/mcp.rs that name an instance which does not resolve.
use crosspoint_simulator_mcp.Prelude.{
  ℕ, ◌≡◌, refl, String, Option, none, some, [], ◌∷◌, Result, ok, err, Bool-cases, inl, inr,
  string_eq,
}
use crosspoint_simulator_mcp.Messages.{CoordinateSpace, ServerPayload}
use crosspoint_simulator_mcp.Tokio.{Tokio}
use crosspoint_simulator_mcp.State.{InstanceMap, WaitKind}
use crosspoint_simulator_mcp.Json.{Serde}
use crosspoint_simulator_mcp.Spawn.{Os}
use crosspoint_simulator_mcp.Mcp.Requests.{Pause, resolve, enqueue, enqueue_wait}
use crosspoint_simulator_mcp.Mcp.Inject.{
  Waiting, Call, inject_as, inject, inject_in, inject_wait_kind, inject_touch_json, inject_key_json,
  inject_home_json, inject_swipe_json, parse_coordinate_space,
}
use crosspoint_simulator_mcp.Mcp.Batch.{inject_batch_json}
use crosspoint_simulator_mcp.Mcp.Observe.{drain_observe, observe_wait_json}
use crosspoint_simulator_mcp.Mcp.View.{
  set_session_view_json, set_inject_enabled_json, shutdown_instance_json,
}
use crosspoint_simulator_mcp.Mcp.Snapshot.{error, text, tool_result, request_snapshot_result}
use crosspoint_simulator_mcp.Mcp.Resources.{get_instance_json}
use crosspoint_simulator_mcp.Mcp.Start.{
  McpServer, then_answered, reap_if_spawned, shutdown_instance,
}
use crosspoint_simulator_mcp.Mcp.Tools.{
  ToolCall, Outside, ToolRun, tool_answered, served, call_get_instance, call_inject_touch,
  call_inject_key, call_inject_home, call_inject_swipe, call_inject_batch, call_set_inject_enabled,
  call_request_snapshot, call_set_session_view, call_shutdown_instance, call_observe, call_tool,
  touch_waiting, key_waiting, home_waiting, swipe_waiting,
}

-- The instance that a call names, if its tool takes one that may be left out.
abbrev pub named : ToolCall → Option (Option String)
named ToolCall.list_instances = none
named (ToolCall.get_instance params) = some params.instance_id
named (ToolCall.start_instance params) = none
named (ToolCall.inject_touch params) = some params.instance_id
named (ToolCall.inject_key params) = some params.instance_id
named (ToolCall.inject_home params) = some params.instance_id
named (ToolCall.inject_swipe params) = some params.instance_id
named (ToolCall.inject_batch params) = some params.instance_id
named (ToolCall.set_inject_enabled params) = some params.instance_id
named (ToolCall.request_snapshot params) = some params.instance_id
named (ToolCall.set_session_view params) = some params.instance_id
named (ToolCall.shutdown_instance params) = some params.instance_id
named (ToolCall.observe params) = some params.instance_id

module _ (t : Tokio) where
  -- A call that is refused where it stands.
  abbrev pub Refused : InstanceMap t → Call t → Type 0
  Refused s call = (message : String) × (call ≡ some (s, err message))

  inject_as-Refused :
      (s : InstanceMap t) (pause : Pause) (given : Option String) (wait_ms : Option ℕ)
      (payload : ServerPayload) (kind : Result WaitKind String) (message : String)
      → resolve t s given ≡ err message
      → Refused s (inject_as t s pause given wait_ms payload kind)
  unfolding enqueue_wait
  inject_as-Refused s pause given wait_ms payload (err e) message h = (e, refl)
  inject_as-Refused s pause given wait_ms payload (ok kind) message h = rw h (message, refl)

  inject-Refused :
      (s : InstanceMap t) (pause : Pause) (given : Option String) (w : Waiting)
      (payload : ServerPayload) (message : String)
      → resolve t s given ≡ err message
      → Refused s (inject t s pause given w payload)
  unfolding inject enqueue
  inject-Refused s pause given w payload message h = elim (Bool-cases w.wait) [
    | inl waits ↦
        rw waits (
          inject_as-Refused s pause given w.wait_ms payload (inject_wait_kind w.wait_mode) message
            h)
    | inr sends ↦ rw (sends, h) (message, refl)
  ]

  inject_in-Refused :
      (s : InstanceMap t) (pause : Pause) (given : Option String) (w : Waiting)
      (payload : CoordinateSpace → ServerPayload) (space : Result CoordinateSpace String)
      (message : String)
      → resolve t s given ≡ err message
      → Refused s (inject_in t s pause given w payload space)
  inject_in-Refused s pause given w payload (err e) message h = (e, refl)
  inject_in-Refused s pause given w payload (ok space) message h =
      inject-Refused s pause given w (payload space) message h

module _ (t : Tokio) (os : Os) (serde : Serde) where
  -- A shutdown reaps the child of that name all the same, and answers when that has ended.
  abbrev pub left_by : McpServer t os → Outside os → ToolCall → Option (McpServer t os)
  left_by server outside (ToolCall.shutdown_instance params) =
      reap_if_spawned t os serde server params.instance_id outside.reaping
  left_by server outside _ = some server

  abbrev pub error_after : Option (McpServer t os) → String → ToolRun t os serde
  error_after none message = none
  error_after (some server) message = some (server, error (text message ∷ []))

  abbrev pub RefusedBy : Option (McpServer t os) → ToolRun t os serde → Type 0
  RefusedBy left run = (message : String) × (run ≡ error_after left message)

  shut-Refused :
      (o : Option (McpServer t os)) (message : String)
      → RefusedBy o (served t os serde (then_answered t os serde (err message) o))
  unfolding tool_result
  shut-Refused none message = (message, refl)
  shut-Refused (some server) message = (message, refl)

  answered-Refused :
      (server : McpServer t os) (call : Call t)
      → Refused t server.instances call
      → RefusedBy (some server) (tool_answered t os serde server call)
  unfolding tool_result
  answered-Refused server call (message, e) = rw e (message, refl)

  same_name :
      (s : InstanceMap t) (a given : Option String) (message : String)
      → ◌≡◌ {A = Option (Option String)} (some a) (some given)
      → resolve t s given ≡ err message
      → resolve t s a ≡ err message
  same_name s a given message e h = cc

  -- A tool that names an instance which does not resolve answers with an error and leaves the server as
  -- it was, whatever its other arguments are and whatever goes on outside; only a shutdown still reaps
  -- the child that was started under that name, and answers with its error once that has ended.
  pub call_tool-refused :
      (server : McpServer t os) (outside : Outside os) (call : ToolCall) (given : Option String)
      (message : String)
      → named call ≡ some given
      → resolve t server.instances given ≡ err message
      → RefusedBy (left_by server outside call) (call_tool t os serde server outside call)
  unfolding call_tool call_get_instance call_inject_touch call_inject_key call_inject_home
      call_inject_swipe call_inject_batch call_set_inject_enabled call_request_snapshot
      call_set_session_view call_shutdown_instance call_observe inject_touch_json inject_key_json
      inject_home_json inject_swipe_json inject_batch_json get_instance_json set_inject_enabled_json
      set_session_view_json shutdown_instance shutdown_instance_json drain_observe observe_wait_json
      request_snapshot_result enqueue enqueue_wait tool_result
  call_tool-refused server outside ToolCall.list_instances given message e h = cc
  call_tool-refused server outside (ToolCall.start_instance params) given message e h = cc
  call_tool-refused server outside (ToolCall.get_instance params) given message e h =
      rw (same_name server.instances params.instance_id given message e h) (message, refl)
  call_tool-refused server outside (ToolCall.inject_touch params) given message e h =
      answered-Refused server _ (
        inject_in-Refused t server.instances outside.pause params.instance_id (touch_waiting params)
          _ (parse_coordinate_space params.space) message
          (same_name server.instances params.instance_id given message e h))
  call_tool-refused server outside (ToolCall.inject_key params) given message e h =
      answered-Refused server _ (
        inject-Refused t server.instances outside.pause params.instance_id (key_waiting params) _
          message (same_name server.instances params.instance_id given message e h))
  call_tool-refused server outside (ToolCall.inject_home params) given message e h =
      answered-Refused server _ (
        inject-Refused t server.instances outside.pause params.instance_id (home_waiting params) _
          message (same_name server.instances params.instance_id given message e h))
  call_tool-refused server outside (ToolCall.inject_swipe params) given message e h =
      answered-Refused server _ (
        inject_in-Refused t server.instances outside.pause params.instance_id (swipe_waiting params)
          _ (parse_coordinate_space params.space) message
          (same_name server.instances params.instance_id given message e h))
  call_tool-refused server outside (ToolCall.inject_batch params) given message e h =
      rw (same_name server.instances params.instance_id given message e h) (message, refl)
  call_tool-refused server outside (ToolCall.set_inject_enabled params) given message e h =
      rw (same_name server.instances params.instance_id given message e h) (message, refl)
  call_tool-refused server outside (ToolCall.request_snapshot params) given message e h =
      elim (Bool-cases params.wait) [
        | inl waits ↦
            rw (waits, same_name server.instances params.instance_id given message e h)
              (message, refl)
        | inr sends ↦
            rw (sends, same_name server.instances params.instance_id given message e h)
              (message, refl)
      ]
  call_tool-refused server outside (ToolCall.set_session_view params) given message e h =
      rw (same_name server.instances params.instance_id given message e h) (message, refl)
  call_tool-refused server outside (ToolCall.shutdown_instance params) given message e h =
      rw (same_name server.instances params.instance_id given message e h) (
        shut-Refused (reap_if_spawned t os serde server params.instance_id outside.reaping) message)
  call_tool-refused server outside (ToolCall.observe params) given message e h =
      rw (same_name server.instances params.instance_id given message e h) (message, refl)
