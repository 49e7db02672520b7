-- ===== src/Tests/Observes.antt =====
-- `observe` and the resources on two connected instances.
use crosspoint_simulator_mcp.Prelude.{
  ◌≡◌, refl, String, true, false, none, some, List, [], ◌∷◌, arith, ok, string_eq, nat_eq, pos,
}
use crosspoint_simulator_mcp.Prelude.Dict
use crosspoint_simulator_mcp.Queue.{push, try_recv}
use crosspoint_simulator_mcp.State.{
  is_valid_instance_id, WaitKind, Instance, InstanceMap, InstanceSnapshot, inbound_visible,
  instance_snapshot,
}
use crosspoint_simulator_mcp.Instances.{
  new, owns, resolve_or_default, get, insert, take_corr, try_send, read_mask, try_recv_inbound,
}
use crosspoint_simulator_mcp.Session.{
  open_session, first_register, register_session, receive_payload, Session, Item, message, receive,
}
use crosspoint_simulator_mcp.History.{run, step}
use crosspoint_simulator_mcp.Json.{Value, null, Serde, json}
use crosspoint_simulator_mcp.Mcp.Requests.{resolve}
use crosspoint_simulator_mcp.Mcp.Until.{is_waiting, ObserveSpec, observe_until_matched, timeout_ms}
use crosspoint_simulator_mcp.Mcp.Observe.{
  Round, drain_all, drain_observe, observe_wait_json, generation_floor, observe_result,
  observe_loop, heartbeat_ui,
}
use crosspoint_simulator_mcp.Mcp.Observe.Drain.{holding, shown, drain_all-shown}
use crosspoint_simulator_mcp.Mcp.Observe.Report.{Reported, observe_wait_json-reports}
use crosspoint_simulator_mcp.Mcp.Resources.{read_resource, read_instance_resource, instance_uri}
use crosspoint_simulator_mcp.Mcp.Resources.Listing.{read_resource-instance_uri}
use crosspoint_simulator_mcp.Mcp.Resources.{list_resources, capabilities_uri, instances_uri}
use crosspoint_simulator_mcp.Mcp.Resources.Order.{resource_of, Listed, list_resources-Listed}
use crosspoint_simulator_mcp.Prelude.{map}
use crosspoint_simulator_mcp.Tests.Channels.{channels}
use crosspoint_simulator_mcp.Tests.Waits.{register_named}
use crosspoint_simulator_mcp.Tests.Tools.{connected, documents}

abbrev pub until_bump : ObserveSpec
until_bump = record {
  wait_ms = some 50;
  until_log = none;
  until_generation_gt = some 0;
  until_activity = none;
  until_progress_page = none;
}

abbrev pub rounds : List Round
rounds = record { waited_ms = 0; meanwhile = [] } ∷ record { waited_ms = 50; meanwhile = [] } ∷ []

timed_out : Value
timed_out = observe_result channels documents connected "a" [] true false true

bump_missed :
    observe_wait_json channels documents connected 8000 rounds (some "a") until_bump
    ≡ some (connected, ok timed_out)
unfolding connected resolve resolve_or_default is_valid_instance_id Dict.lookup run step
    open_session first_register register_session insert Dict.insert new take_corr timed_out
    observe_wait_json drain_observe drain_all read_mask try_recv_inbound try_recv observe_loop
    observe_until_matched is_waiting generation_floor heartbeat_ui get observe_result
bump_missed = refl

first_drain : drain_observe channels documents connected (some "a") ≡ (connected, ok ("a", []))
unfolding connected drain_observe resolve resolve_or_default
    crosspoint_simulator_mcp.State.is_valid_instance_id Dict.lookup run step
    crosspoint_simulator_mcp.Session.open_session crosspoint_simulator_mcp.Session.first_register
    crosspoint_simulator_mcp.Session.register_session crosspoint_simulator_mcp.Instances.insert
    Dict.insert new drain_all crosspoint_simulator_mcp.Instances.try_recv_inbound
    crosspoint_simulator_mcp.Queue.try_recv
first_drain = refl

observe_wait_json-reports_example :
    Reported channels documents "a" until_bump
      (generation_floor channels documents connected "a" (some 0))
      connected
      []
      rounds
      connected
      timed_out
observe_wait_json-reports_example =
    observe_wait_json-reports channels documents connected connected connected 8000 rounds
      (some "a") until_bump "a" [] timed_out first_drain bump_missed

abbrev no_value : Value
no_value = null

quiet_matches :
    observe_until_matched
      (some "")
      (some 0)
      (some "Home")
      none
      (no_value ∷ [])
      (some 1)
      "Home"
      (pos 0)
    ≡ true
unfolding observe_until_matched crosspoint_simulator_mcp.Text.contains
    crosspoint_simulator_mcp.Mcp.Until.log_text crosspoint_simulator_mcp.Json.get
quiet_matches = refl

entry_a : Instance
entry_a = record {
  token = 1;
  register = register_named "a";
  last_heartbeat = none;
  inbound = record { items = []; cap = 128 };
  outbound_tx = 0;
  read_mask = [];
  exclude_log_components = [];
}

there_a : Dict.lookup "a" connected.inner ≡ some entry_a
unfolding connected entry_a Dict.lookup run step crosspoint_simulator_mcp.Session.open_session
    crosspoint_simulator_mcp.Session.first_register
    crosspoint_simulator_mcp.Session.register_session crosspoint_simulator_mcp.Instances.insert
    Dict.insert new
there_a = refl

drain_all-shown_example : drain_all channels documents connected "a" ≡ (
  holding channels connected "a" entry_a [],
  shown channels documents entry_a.read_mask entry_a.inbound.items,
)
drain_all-shown_example = drain_all-shown channels documents connected "a" entry_a there_a

read_resource-instance_uri_example :
    read_resource channels documents connected null (instance_uri "a")
    ≡ read_instance_resource channels documents connected "a"
read_resource-instance_uri_example =
    read_resource-instance_uri channels documents connected null "a"
      (λ e. absurd (ground (arith, string_eq.eqb_iff "a" "")))

list_resources-Listed_example :
    (ids : List String) × (list_resources channels documents connected
      ≡ record { uri = capabilities_uri; name = "capabilities" }
        ∷ record { uri = instances_uri; name = "instances" }
        ∷ map (resource_of channels documents) ids)
    × Listed channels documents connected ids
list_resources-Listed_example = list_resources-Listed channels documents connected
