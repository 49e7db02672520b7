-- ===== src/Mcp/Capabilities.antt =====
-- crates/csm-proxy/src/mcp.rs: the server as it starts, and the document of `csm://capabilities`, by
-- which a client learns the tools and the defaults of the process.
pub mod Defaults
use crosspoint_simulator_mcp.Prelude.{
  ℕ, String, Bool, true, false, Option, none, some, List, [], ◌∷◌, map, Result, ok, ◌==◌, string_eq,
  if◌then◌else◌,
}
use crosspoint_simulator_mcp.Tokio.{Tokio}
use crosspoint_simulator_mcp.State.{InstanceMap}
use crosspoint_simulator_mcp.Json.{
  Value, null, bool, string, object, json, nat_json, json_array, Members, no_members, next_member,
  Serde,
}
use crosspoint_simulator_mcp.Spawn.{
  SpawnConfig, default_config, is_configured, default_observe_wait_ms, never_sleep_timeout_minutes,
  sample_book_filename, settings_relative, Os,
}
use crosspoint_simulator_mcp.Spawn.Supervisor.{
  new_supervisor, configured, auto_sleep_default, observe_wait_ms,
}
use crosspoint_simulator_mcp.Mcp.Resources.{
  ReadError, capabilities_uri, instances_uri, read_resource,
}
use crosspoint_simulator_mcp.Spawn.Supervisor.Awaits.{ReapPause, reap_all}
use crosspoint_simulator_mcp.Mcp.Start.{McpServer, with_supervisor}

unfoldable pub tool_names : List String
tool_names =
    "list_instances" ∷ "get_instance" ∷ "start_instance" ∷ "inject_touch" ∷ "inject_key"
    ∷ "inject_home" ∷ "inject_swipe" ∷ "inject_batch" ∷ "set_inject_enabled" ∷ "request_snapshot"
    ∷ "set_session_view" ∷ "shutdown_instance" ∷ "observe" ∷ []

abbrev pub texts : List String → Value
texts ss = json_array (map (λ s. string s) ss)

abbrev spawn_capabilities : Bool → Value
spawn_capabilities spawn_configured = json (
    ("configured", bool spawn_configured)
    ∷ ("tool", string "start_instance")
    ∷ ("headlessDefault", bool true)
    ∷ ("sampleBookDefault", bool true)
    ∷ (
      "sampleBook",
      json (
          ("param", string "sample_book")
          ∷ ("filename", string "CrossPoint-Reader.epub")
          ∷ ("sdPath", string "/books/CrossPoint-Reader.epub")
          ∷ (
            "source",
            string "https://github.com/canardleteer/crosspoint-reader/blob/develop/README.md",
          )
          ∷ []),
    )
    ∷ ("autoSleepDefault", bool false)
    ∷ (
      "autoSleep",
      json (
          ("param", string "auto_sleep")
          ∷ ("neverMinutes", nat_json never_sleep_timeout_minutes)
          ∷ ("firmwareDefaultMinutes", nat_json 10)
          ∷ ("settingsPath", string settings_relative)
          ∷ []),
    )
    ∷ ("clientPassesBinary", bool false)
    ∷ ("firmwareBuild", bool false)
    ∷ [])

abbrev observe_capabilities : Value
observe_capabilities = json (
    ("waitMsParam", string "wait_ms")
    ∷ ("waitMsDefault", nat_json default_observe_wait_ms)
    ∷ ("untilLogParam", string "until_log")
    ∷ ("untilActivityParam", string "until_activity")
    ∷ ("untilProgressPageParam", string "until_progress_page")
    ∷ ("untilGenerationGtParam", string "until_generation_gt")
    ∷ ("untilGenerationGtZeroMeansCurrent", bool true)
    ∷ ("matchedOnlyWithUntil", bool true)
    ∷ ("heartbeatAlwaysOnWire", bool true)
    ∷ [])

unfoldable pub capabilities_json : Bool → Value
unfolding tool_names
capabilities_json spawn_configured = json (
    ("tools", texts tool_names)
    ∷ ("resources", texts (capabilities_uri ∷ instances_uri ∷ "csm://instances/{id}" ∷ []))
    ∷ (
      "instanceId",
      json (
          ("required", bool true)
          ∷ ("minBytes", nat_json 1)
          ∷ ("maxBytes", nat_json 64)
          ∷ ("omitWhenOne", bool false)
          ∷ ("startInstanceRequiresExplicitId", bool true)
          ∷ []),
    )
    ∷ (
      "keys",
      texts ("BACK" ∷ "ENTER" ∷ "LEFT" ∷ "RIGHT" ∷ "UP" ∷ "DOWN" ∷ "POWER" ∷ "SLEEP" ∷ "QUIT" ∷ []),
    )
    ∷ ("snapshot", json (("mimeType", string "image/png") ∷ ("format", nat_json 0) ∷ []))
    ∷ ("spawn", spawn_capabilities spawn_configured)
    ∷ ("observe", observe_capabilities)
    ∷ (
      "inject",
      json (
          ("waitModeDefault", string "paint")
          ∷ ("waitModes", texts ("ack" ∷ "paint" ∷ []))
          ∷ ("coordinateSpaceDefault", string "logical")
          ∷ ("coordinateSpaces", texts ("panel" ∷ "logical" ∷ []))
          ∷ ("batchTool", string "inject_batch")
          ∷ []),
    )
    ∷ ("sessionView", json (("excludeLogComponentsParam", string "exclude_log_components") ∷ []))
    ∷ (
      "firmware",
      json (
          ("compileTime", bool true)
          ∷ ("see", string "Register")
          ∷ ("boardIds", texts ("x4" ∷ "x3" ∷ "x4_pro" ∷ "sticky" ∷ "paper_mono" ∷ []))
          ∷ []),
    )
    ∷ [])

-- The assignment `v[name] = ...`, through the place of a member, which is made where it is missing. It
-- panics, here none, on anything but an object or null.
unfoldable pub update_member : String → (Value → Option Value) → Members → Option Members
update_member name f no_members = elim (f null) [
  | none ↦ none
  | some v ↦ some (next_member name v no_members)
]
update_member name f (next_member key v ms) =
    let rest = update_member name f ms in
    if key == name
    then elim (f v) [ none ↦ none | some v' ↦ some (next_member key v' ms) ]
    else elim rest [ none ↦ none | some ms' ↦ some (next_member key v ms') ]

abbrev pub as_object : Option Members → Option Value
as_object none = none
as_object (some ms) = some (object ms)

unfoldable pub index_mut : String → (Value → Option Value) → Value → Option Value
unfolding update_member
index_mut name f (object ms) = as_object (update_member name f ms)
index_mut name f null = as_object (update_member name f no_members)
index_mut name f _ = none

abbrev pub assign : Value → Value → Option Value
assign new old = some new

module _ (t : Tokio) (os : Os) (serde : Serde) where
  unfoldable pub with_spawn : InstanceMap t → SpawnConfig → os.World → McpServer t os
  with_spawn instances spawn w = record { instances = instances; spawn = new_supervisor os spawn w }

  unfoldable pub new_server : InstanceMap t → os.World → McpServer t os
  unfolding with_spawn
  new_server instances w = with_spawn instances default_config w

  -- The instances, which the other tasks may use while it waits, are not looked at afterwards.
  unfoldable pub reap_spawned : McpServer t os → (ℕ → ReapPause os) → Option (McpServer t os)
  reap_spawned server pauses =
      with_supervisor t os serde server.instances (reap_all os server.spawn pauses)

  abbrev pub then_wait_ms : ℕ → Option Value → Option Value
  then_wait_ms ms none = none
  then_wait_ms ms (some caps) =
      index_mut "observe" (index_mut "waitMsDefault" (assign (nat_json ms))) caps

  unfoldable pub capabilities_document : McpServer t os → Option Value
  unfolding capabilities_json index_mut
  capabilities_document server = then_wait_ms (observe_wait_ms os server.spawn) (
      index_mut "spawn"
        (index_mut "autoSleepDefault" (assign (bool (auto_sleep_default os server.spawn))))
        (capabilities_json (configured os server.spawn)))

  abbrev pub read_with : McpServer t os → String → Option Value → Option (Result String ReadError)
  read_with server uri none = none
  read_with server uri (some caps) = some (read_resource t serde server.instances caps uri)

  -- `resources/read` on the server: none where it panics.
  unfoldable pub read_server_resource : McpServer t os → String → Option (Result String ReadError)
  unfolding capabilities_document
  read_server_resource server uri = read_with server uri (capabilities_document server)
