-- ===== src/Tests/Advertised.antt =====
-- The capabilities document of a server with a simulator and of one without.
use crosspoint_simulator_mcp.Prelude.{
  ◌≡◌, refl, true, false, none, some, string_eq, [], ◌∷◌, if◌then◌else◌,
}
use crosspoint_simulator_mcp.State.{is_valid_instance_id}
use crosspoint_simulator_mcp.Spawn.{spawn_error_text, not_configured, invalid_id}
use crosspoint_simulator_mcp.Mcp.Snapshot.{text, error}
use crosspoint_simulator_mcp.Json.{Value}
use crosspoint_simulator_mcp.Mcp.Start.{McpServer}
use crosspoint_simulator_mcp.Mcp.Until.{is_waiting}
use crosspoint_simulator_mcp.Mcp.Params.{
  StartInstanceParams, ObserveParams, default_headless, default_sample_book,
}
use crosspoint_simulator_mcp.Mcp.Tools.{ToolCall, call_tool, observe_spec}
use crosspoint_simulator_mcp.Mcp.Capabilities.{new_server, capabilities_document}
use crosspoint_simulator_mcp.Mcp.Capabilities.Defaults.{
  Told, capabilities_document-Told, capabilities_document-defaults,
  capabilities_document-unconfigured,
}
use crosspoint_simulator_mcp.Tests.Channels.{channels}
use crosspoint_simulator_mcp.Tests.Tools.{documents, connected}
use crosspoint_simulator_mcp.Tests.Spawns.{machine}
use crosspoint_simulator_mcp.Tests.Served.{server, outside}

abbrev start_b : StartInstanceParams
start_b = record {
  instance_id = "c";
  headless = default_headless;
  cwd = none;
  sample_book = default_sample_book;
  auto_sleep = none;
}

abbrev watch_a : ObserveParams
watch_a = record {
  instance_id = some "a";
  wait_ms = none;
  until_log = some "Entering";
  until_generation_gt = none;
  until_activity = none;
  until_progress_page = none;
}

abbrev advertised :
    (doc : Value) × (capabilities_document channels machine documents server ≡ some doc)
    × Told channels machine documents server doc
advertised = capabilities_document-Told channels machine documents server

watch_waits : is_waiting (observe_spec watch_a) ≡ true
unfolding is_waiting
watch_waits = refl

capabilities_document-defaults_example :
    (call_tool channels machine documents server outside (ToolCall.start_instance start_b)
      ≡ call_tool channels machine documents server outside
          (ToolCall.start_instance (record start_b { auto_sleep = some false })))
    × (call_tool channels machine documents server outside (ToolCall.observe watch_a)
        ≡ call_tool channels machine documents server outside
            (ToolCall.observe (record watch_a { wait_ms = some 8000 })))
capabilities_document-defaults_example =
    capabilities_document-defaults channels machine documents server outside advertised.0 false 8000
      start_b watch_a advertised.1 advertised.2.auto_sleep advertised.2.wait_ms watch_waits

abbrev bare : McpServer channels machine
bare = new_server channels machine documents connected 0

abbrev advertised_bare :
    (doc : Value) × (capabilities_document channels machine documents bare ≡ some doc)
    × Told channels machine documents bare doc
advertised_bare = capabilities_document-Told channels machine documents bare

capabilities_document-unconfigured_example :
    call_tool channels machine documents bare outside (ToolCall.start_instance start_b)
    ≡ some (
      bare,
      error (
          text (spawn_error_text (if is_valid_instance_id "c" then not_configured else invalid_id))
          ∷ []),
    )
unfolding crosspoint_simulator_mcp.Spawn.is_configured new_server
    crosspoint_simulator_mcp.Spawn.Supervisor.new_supervisor
capabilities_document-unconfigured_example =
    capabilities_document-unconfigured channels machine documents bare outside advertised_bare.0
      start_b advertised_bare.1 advertised_bare.2.configured
