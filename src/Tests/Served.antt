-- ===== src/Tests/Served.antt =====
-- Tools called on a server with two connected instances.
use crosspoint_simulator_mcp.Prelude.{◌≡◌, refl, true, none, some, [], err, string_eq, nat_eq}
use crosspoint_simulator_mcp.Prelude.Dict
use crosspoint_simulator_mcp.State.{InstanceMap}
use crosspoint_simulator_mcp.Instances.{new, resolve_or_default}
use crosspoint_simulator_mcp.History
use crosspoint_simulator_mcp.Mcp.Requests.{resolve}
use crosspoint_simulator_mcp.Mcp.Snapshot.{CallToolResult}
use crosspoint_simulator_mcp.Spawn.Supervisor.{store}
use crosspoint_simulator_mcp.Mcp.View.{shutdown_instance_json}
use crosspoint_simulator_mcp.Mcp.Start.{McpServer, shutdown_instance}
use crosspoint_simulator_mcp.Mcp.Start.Shutdown.{shutdown_instance-reaps}
use crosspoint_simulator_mcp.Mcp.Tools.{ToolCall, Outside, call_tool}
use crosspoint_simulator_mcp.Mcp.Tools.Waits.{lasts}
use crosspoint_simulator_mcp.Mcp.Tools.Returns.{call_tool-returns}
use crosspoint_simulator_mcp.Mcp.Tools.Refused.{left_by, RefusedBy, call_tool-refused}
use crosspoint_simulator_mcp.Tests.Channels.{channels}
use crosspoint_simulator_mcp.Tests.Tools.{documents, connected}
use crosspoint_simulator_mcp.Tests.Calls.{pauses, answered_by}
use crosspoint_simulator_mcp.Tests.Observes.{rounds}
use crosspoint_simulator_mcp.Tests.Spawns.{machine, idle}

abbrev pub server : McpServer channels machine
server = record { instances = connected; spawn = idle }

abbrev pub outside : Outside machine
outside = record {
  pause = answered_by;
  pauses = pauses;
  rounds = rounds;
  start_rounds = [];
  reaping = record { waited_ms = 2000; meanwhile = []; pending = []; spawn_actions = [] };
}

abbrev watching : ToolCall
watching = ToolCall.observe (record {
  instance_id = some "a";
  wait_ms = some 50;
  until_log = none;
  until_generation_gt = some 0;
  until_activity = none;
  until_progress_page = none;
})

rounds_last : lasts channels machine server outside watching ≡ true
unfolding crosspoint_simulator_mcp.Mcp.Until.timeout_ms
rounds_last = refl

call_tool-returns_example :
    (result : McpServer channels machine × CallToolResult) × (call_tool channels machine documents
        server outside watching
      ≡ some result)
call_tool-returns_example =
    call_tool-returns channels machine documents server outside watching rounds_last

stranger_unknown : resolve channels connected (some "stranger") ≡ err "unknown instance"
unfolding resolve resolve_or_default crosspoint_simulator_mcp.State.is_valid_instance_id Dict.lookup
    connected History.run History.step crosspoint_simulator_mcp.Session.open_session
    crosspoint_simulator_mcp.Session.first_register
    crosspoint_simulator_mcp.Session.register_session crosspoint_simulator_mcp.Instances.insert
    Dict.insert new
stranger_unknown = refl

call_tool-refused_example :
    RefusedBy channels machine documents
      (left_by channels machine documents server outside
        (ToolCall.shutdown_instance (record { instance_id = some "stranger" })))
      (call_tool channels machine documents server outside
        (ToolCall.shutdown_instance (record { instance_id = some "stranger" })))
call_tool-refused_example =
    call_tool-refused channels machine documents server outside
      (ToolCall.shutdown_instance (record { instance_id = some "stranger" })) (some "stranger")
      "unknown instance" refl stranger_unknown

abbrev with_child : McpServer channels machine
with_child = record { instances = connected; spawn = store machine idle "a" 4 }

shutdown_instance-reaps_example :
    (server' : McpServer channels machine) × (shutdown_instance channels machine documents
        with_child outside.reaping
        (some "a")
      ≡ some (server', (shutdown_instance_json channels connected (some "a")).1))
    × (Dict.lookup "a" server'.spawn.children ≡ none)
unfolding crosspoint_simulator_mcp.State.is_valid_instance_id
shutdown_instance-reaps_example =
    shutdown_instance-reaps channels machine documents with_child (some "a") "a" outside.reaping
      refl refl refl refl
