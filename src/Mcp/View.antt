-- ===== src/Mcp/View.antt =====
-- crates/csm-proxy/src/mcp.rs: the tools that only queue a request: the session view, the inject switch and
-- the shutdown.
pub mod Wire
pub mod Stored
use crosspoint_simulator_mcp.Prelude.{
  String, Bool, false, ◌||◌, Option, some, List, [], ◌∷◌, ◌++◌, Result, ok, err, ◌==◌, string_eq,
  any, if◌then◌else◌,
}
use crosspoint_simulator_mcp.Messages.{ServerPayload}
use crosspoint_simulator_mcp.Tokio.{Tokio}
use crosspoint_simulator_mcp.State.{InstanceMap, InstanceSnapshot, is_nil}
use crosspoint_simulator_mcp.Instances.{set_read_mask, set_exclude_log_components}
use crosspoint_simulator_mcp.Json.{Value}
use crosspoint_simulator_mcp.Mcp.Requests.{resolve, enqueue}

unfoldable pub wire_session_view_paths : List String → List String
wire_session_view_paths paths =
    if is_nil paths || any (λ path. path == "heartbeat") paths
    then paths
    else paths ++ "heartbeat" ∷ []

module _ (t : Tokio) where
  -- The masks are stored once the request is queued.
  abbrev pub viewed :
      String
      → List String
      → List String
      → InstanceMap t × Result Value String
      → InstanceMap t × Result Value String
  viewed id paths components (s, err e) = (s, err e)
  viewed id paths components (s, ok queued) =
      (set_exclude_log_components t (set_read_mask t s id paths) id components, ok queued)

  abbrev pub view_resolved :
      InstanceMap t
      → List String
      → List String
      → Result InstanceSnapshot String
      → InstanceMap t × Result Value String
  view_resolved s paths components (err e) = (s, err e)
  view_resolved s paths components (ok snap) =
      let id = snap.register.instance_id in
      viewed id paths components (
        enqueue t s (some id) false (
          ServerPayload.set_session_view (record {
            read_mask = wire_session_view_paths paths;
            exclude_log_components = components;
          })))

  unfoldable pub set_session_view_json :
      InstanceMap t
      → Option String
      → List String
      → List String
      → InstanceMap t × Result Value String
  unfolding wire_session_view_paths
  set_session_view_json s instance_id paths components =
      view_resolved s paths components (resolve t s instance_id)

  unfoldable pub set_inject_enabled_json :
      InstanceMap t → Option String → Bool → InstanceMap t × Result Value String
  set_inject_enabled_json s instance_id enabled =
      enqueue t s instance_id false (ServerPayload.set_inject_enabled enabled)

  unfoldable pub shutdown_instance_json :
      InstanceMap t → Option String → InstanceMap t × Result Value String
  shutdown_instance_json s instance_id = enqueue t s instance_id false ServerPayload.shutdown
