-- ===== src/Mcp/Snapshot.antt =====
-- crates/csm-proxy/src/mcp.rs: the results of tools, and the snapshot tool.
use crosspoint_simulator_mcp.Prelude.{
  ℕ, String, Bool, false, not, Option, none, some, List, [], ◌∷◌, Result, ok, err, ◌==◌, string_eq,
  if◌then◌else◌,
}
use crosspoint_simulator_mcp.Messages.{SimPayload, SnapshotFrame, SnapshotRequest, ServerPayload}
use crosspoint_simulator_mcp.Tokio.{Tokio}
use crosspoint_simulator_mcp.State.{InstanceMap, WaitKind}
use crosspoint_simulator_mcp.Json.{Value, string, json, nat_json, Serde}
use crosspoint_simulator_mcp.Mcp.Requests.{Pause, Reply, enqueue, enqueue_wait, reply_timeout}

pub data ContentBlock : Type 0 where
  text : String → ContentBlock
  image : String → String → ContentBlock

pub data CallToolResult : Type 0 where
  success : List ContentBlock → CallToolResult
  error : List ContentBlock → CallToolResult

module _ (serde : Serde) where
  unfoldable pub tool_result : Result Value String → CallToolResult
  tool_result (ok v) = success (text (serde.to_string v) ∷ [])
  tool_result (err message) = error (text message ∷ [])

  unfoldable pub frame_mime : SnapshotFrame → String
  frame_mime frame = if frame.mime_type == "" then "image/png" else frame.mime_type

  unfoldable pub frame_json : String → ℕ → SnapshotFrame → Value
  unfolding frame_mime
  frame_json id corr frame = json (
      ("instanceId", string id)
      ∷ ("corr", nat_json corr)
      ∷ ("mimeType", string (frame_mime frame))
      ∷ ("width", nat_json frame.width)
      ∷ ("height", nat_json frame.height)
      ∷ ("generation", nat_json frame.generation)
      ∷ [])

  unfoldable pub snapshot_reply : String → ℕ → Option SimPayload → CallToolResult
  unfolding tool_result frame_json
  snapshot_reply id corr (some (SimPayload.snapshot frame)) = success (
      text (serde.to_string (frame_json id corr frame))
      ∷ image (serde.encode frame.pixels) (frame_mime frame)
      ∷ [])
  snapshot_reply id corr (some (SimPayload.snapshot_error message)) =
      tool_result (err (if message == "" then "snapshot failed" else message))
  snapshot_reply id corr _ = tool_result (err "unexpected session reply")

module _ (t : Tokio) (serde : Serde) where
  abbrev pub snapped : Option (InstanceMap t × Reply t) → Option (InstanceMap t × CallToolResult)
  snapped none = none
  snapped (some (s, err message)) = some (s, tool_result serde (err message))
  snapped (some (s, ok (id, corr, reply))) = some (s, snapshot_reply serde id corr reply.payload)

  abbrev pub snapshot_queued :
      InstanceMap t × Result Value String → Option (InstanceMap t × CallToolResult)
  snapshot_queued (s, queued) = some (s, tool_result serde queued)

  unfoldable pub request_snapshot_result :
      InstanceMap t
      → Pause
      → Option String
      → SnapshotRequest
      → Bool
      → Option (InstanceMap t × CallToolResult)
  request_snapshot_result s pause instance_id payload wait =
      if not wait
      then snapshot_queued (enqueue t s instance_id false (ServerPayload.snapshot_request payload))
      else snapped (
          enqueue_wait t s pause instance_id false (ServerPayload.snapshot_request payload)
            WaitKind.snapshot reply_timeout)
