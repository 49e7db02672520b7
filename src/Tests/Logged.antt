-- ===== src/Tests/Logged.antt =====
-- `observe` on a queue that holds a log line, and a start on an idle supervisor.
use crosspoint_simulator_mcp.Prelude.{
  ◌≡◌, refl, true, false, Option, none, some, [], ◌∷◌, ok, string_eq, nat_eq,
}
use crosspoint_simulator_mcp.Prelude.Dict
use crosspoint_simulator_mcp.Messages.{SimToServer, SimPayload, LogLine}
use crosspoint_simulator_mcp.State.{Instance, InstanceMap, InstanceSnapshot, instance_snapshot}
use crosspoint_simulator_mcp.Instances.{new}
use crosspoint_simulator_mcp.Text.{codes, contains}
use crosspoint_simulator_mcp.Json.{Value, null, string, json, Serde}
use crosspoint_simulator_mcp.Mcp.Requests.{resolve}
use crosspoint_simulator_mcp.Mcp.Until.{ObserveSpec, log_text}
use crosspoint_simulator_mcp.Mcp.Observe.{observe_result, observe_wait_json}
use crosspoint_simulator_mcp.Mcp.Observe.Drain.{holding, shown}
use crosspoint_simulator_mcp.Mcp.Observe.Logged.{LogLaws, observe_wait_json-log}
use crosspoint_simulator_mcp.Spawn.Supervisor.{start}
use crosspoint_simulator_mcp.Spawn.Supervisor.Children.{Others, Leaves, start-Leaves}
use crosspoint_simulator_mcp.Tests.Channels.{channels, no_channels}
use crosspoint_simulator_mcp.Tests.Waits.{register_named}
use crosspoint_simulator_mcp.Tests.Spawns.{machine, idle}

abbrev payload_json : Option SimPayload → Value
payload_json (some (SimPayload.log line)) =
    json (("log", json (("text", string line.text) ∷ [])) ∷ [])
payload_json _ = null

abbrev pub log_documents : Serde
log_documents = record {
  to_value = λ msg. some (payload_json msg.payload);
  register_json = λ r. null;
  heartbeat_json = λ h. null;
  to_string = λ v. "{}";
  encode = λ bytes. "";
}

pub log_documents-LogLaws : LogLaws log_documents
unfolding log_text crosspoint_simulator_mcp.Json.get crosspoint_simulator_mcp.Json.member
log_documents-LogLaws = record {
  written = λ msg line e. (payload_json (some (SimPayload.log line)), rw e refl, refl);
}

abbrev pub line : LogLine
line = record { seq = 1; log_type = 0; severity = 0; component = "UI"; text = "ready now" }

abbrev pub line_message : SimToServer
line_message = record { seq = 2; corr = 0; payload = some (SimPayload.log line) }

abbrev pub entry : Instance
entry = record {
  token = 1;
  register = register_named "a";
  last_heartbeat = none;
  inbound = record { items = line_message ∷ []; cap = 128 };
  outbound_tx = 0;
  read_mask = [];
  exclude_log_components = [];
}

abbrev logged : InstanceMap channels
logged = record (new channels no_channels) { inner = ("a", entry) ∷ [] }

abbrev pub until_ready : ObserveSpec
until_ready = record {
  wait_ms = none;
  until_log = some "ready";
  until_generation_gt = none;
  until_activity = none;
  until_progress_page = none;
}

resolved_entry : resolve channels logged (some "a") ≡ ok (instance_snapshot entry)
unfolding resolve crosspoint_simulator_mcp.Instances.resolve_or_default
    crosspoint_simulator_mcp.State.is_valid_instance_id Dict.lookup
resolved_entry = refl

entry_there : Dict.lookup "a" logged.inner ≡ some entry
unfolding Dict.lookup
entry_there = refl

pub ready_there : contains (codes line.text) (codes "ready") ≡ true
unfolding contains
ready_there = refl

observe_wait_json-log_example :
    observe_wait_json channels log_documents logged 8000
      (record { waited_ms = 0; meanwhile = [] } ∷ [])
      (some "a")
      until_ready
    ≡ some (
      holding channels logged "a" entry [],
      ok (
          observe_result channels log_documents
            (holding channels logged "a" entry [])
            "a"
            (shown channels log_documents [] (line_message ∷ []))
            true
            true
            false),
    )
unfolding crosspoint_simulator_mcp.State.inbound_visible
observe_wait_json-log_example =
    observe_wait_json-log channels log_documents log_documents-LogLaws logged 8000
      (record { waited_ms = 0; meanwhile = [] }) [] (some "a") until_ready (instance_snapshot entry)
      entry [] [] line_message line "ready" resolved_entry entry_there refl refl refl ready_there
      refl refl

start-Leaves_example :
    let x = start machine idle "a" true none false true false in
    Others machine "a" idle x.0 × Leaves machine idle "a" x
start-Leaves_example = start-Leaves machine idle "a" true false true false none
