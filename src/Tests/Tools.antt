-- ===== src/Tests/Tools.antt =====
-- Two connected instances, and the tools called on them.
use crosspoint_simulator_mcp.Prelude.{
  ◌≡◌, ◌↔◌, refl, String, false, ◌||◌, none, some, List, [], ◌∷◌, arith, ok, string_eq, nat_eq,
}
use crosspoint_simulator_mcp.Prelude.Dict
use crosspoint_simulator_mcp.Queue.{is_heartbeat}
use crosspoint_simulator_mcp.State.{
  Instance, InstanceMap, InstanceSnapshot, inbound_visible, instance_snapshot,
}
use crosspoint_simulator_mcp.Instances.{new, owns, resolve_or_default, get}
use crosspoint_simulator_mcp.Instances.Resolve.{Means, Connected, resolve_or_default_iff}
use crosspoint_simulator_mcp.Session.{Session, Item, message, receive}
use crosspoint_simulator_mcp.Session.Ownership.{receive-stale}
use crosspoint_simulator_mcp.Session.Loop.{run_session, run_session-disowns}
use crosspoint_simulator_mcp.History.{Action, opens, run, step}
use crosspoint_simulator_mcp.History.Registry.{run-IsRegistry}
use crosspoint_simulator_mcp.History.Insertion.{IsRegistry}
use crosspoint_simulator_mcp.Json.{null, Serde, json}
use crosspoint_simulator_mcp.Mcp.Requests.{resolve}
use crosspoint_simulator_mcp.Mcp.View.{set_session_view_json, wire_session_view_paths}
use crosspoint_simulator_mcp.Mcp.View.Wire.{wire_session_view_paths-visible}
use crosspoint_simulator_mcp.Mcp.View.Stored.{Stored, set_session_view_json-stores}
use crosspoint_simulator_mcp.Tests.Channels.{channels, no_channels}
use crosspoint_simulator_mcp.Tests.Queue.{ack_of}
use crosspoint_simulator_mcp.Tests.Waits.{hello, register_named}

abbrev pub documents : Serde
documents = record {
  to_value = λ m. some (json []);
  register_json = λ r. null;
  heartbeat_json = λ h. null;
  to_string = λ v. "{}";
  encode = λ bytes. "";
}

abbrev pub opening : List Action
opening = opens (hello "a") ∷ opens (hello "b") ∷ []

unfoldable pub connected : InstanceMap channels
connected = run channels (new channels no_channels) opening

connected-IsRegistry : IsRegistry channels connected
unfolding connected
connected-IsRegistry = run-IsRegistry channels no_channels opening (omega arith)

abbrev pub snap_a : InstanceSnapshot
snap_a = record { token = 1; register = register_named "a"; last_heartbeat = none }

resolve_or_default_iff_example : (resolve_or_default channels connected (some "a") ≡ ok snap_a) ↔ (
    (id : String) × Means channels connected (some "a") id × Connected channels connected id snap_a)
resolve_or_default_iff_example = resolve_or_default_iff channels connected (some "a") snap_a

wire_session_view_paths-visible_example :
    inbound_visible (wire_session_view_paths ("log" ∷ [])) (ack_of 1)
    ≡ (inbound_visible ("log" ∷ []) (ack_of 1) || is_heartbeat (ack_of 1))
wire_session_view_paths-visible_example = wire_session_view_paths-visible ("log" ∷ []) (ack_of 1)

abbrev replaced : Session
replaced = record { id_for_loop = "a"; token = 9 }

abbrev current : Session
current = record { id_for_loop = "a"; token = 1 }

not_owner : owns channels connected "a" 9 ≡ false
unfolding connected owns Dict.lookup run step crosspoint_simulator_mcp.Session.open_session
    crosspoint_simulator_mcp.Session.first_register
    crosspoint_simulator_mcp.Session.register_session crosspoint_simulator_mcp.Instances.insert
    Dict.insert new
not_owner = refl

receive-stale_example :
    receive channels connected replaced (some (message (ack_of 1))) ≡ (connected, false)
receive-stale_example =
    receive-stale channels connected replaced (some (message (ack_of 1))) not_owner

ends : (receive channels connected current none).1 ≡ false
unfolding connected receive
ends = refl

run_session-disowns_example :
    owns channels
      (run_session channels connected current
        (([], message (ack_of 1)) ∷ (opening, message (ack_of 1)) ∷ [])
        [])
      "a"
      1
    ≡ false
run_session-disowns_example =
    run_session-disowns channels connected current
      (([], message (ack_of 1)) ∷ (opening, message (ack_of 1)) ∷ []) []

pub resolved_a : resolve channels connected (some "a") ≡ ok snap_a
unfolding connected resolve resolve_or_default crosspoint_simulator_mcp.State.is_valid_instance_id
    Dict.lookup run step crosspoint_simulator_mcp.Session.open_session
    crosspoint_simulator_mcp.Session.first_register
    crosspoint_simulator_mcp.Session.register_session crosspoint_simulator_mcp.Instances.insert
    Dict.insert new
resolved_a = refl

set_session_view_json-stores_example :
    Stored channels connected "a"
      ("log" ∷ [])
      ("MEM" ∷ [])
      (set_session_view_json channels connected (some "a") ("log" ∷ []) ("MEM" ∷ []))
set_session_view_json-stores_example =
    set_session_view_json-stores channels connected (some "a") snap_a ("log" ∷ []) ("MEM" ∷ [])
      connected-IsRegistry resolved_a
