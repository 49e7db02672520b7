-- ===== src/Mcp/Capabilities/Defaults.antt =====
-- That the document of `csm://capabilities` of crates/csm-proxy/src/mcp.rs tells the truth about the tools.
use crosspoint_simulator_mcp.Prelude.{
  ℕ, ◌≡◌, refl, String, Bool, true, false, Option, none, some, [], ◌∷◌, arith, any, ◌==◌, string_eq,
  Bool-cases, inl, inr, if◌then◌else◌,
}
use crosspoint_simulator_mcp.Tokio.{Tokio}
use crosspoint_simulator_mcp.State.{is_valid_instance_id}
use crosspoint_simulator_mcp.Json
use crosspoint_simulator_mcp.Json.{Value, bool, nat_json, member, and_get, Serde}
use crosspoint_simulator_mcp.Spawn.{spawn_error_text, invalid_id, not_configured, is_configured, Os}
use crosspoint_simulator_mcp.Spawn.Supervisor.{start}
use crosspoint_simulator_mcp.Mcp.Until.{timeout_ms, is_waiting}
use crosspoint_simulator_mcp.Mcp.Observe.{drain_observe, observe_wait_json}
use crosspoint_simulator_mcp.Mcp.Observe.Spec.{observe_drained-wait_ms}
use crosspoint_simulator_mcp.Mcp.Snapshot.{error, text, tool_result}
use crosspoint_simulator_mcp.Mcp.Start.{McpServer, start_instance_json}
use crosspoint_simulator_mcp.Mcp.Params.{StartInstanceParams, ObserveParams}
use crosspoint_simulator_mcp.Mcp.Tools.{
  ToolCall, Outside, call_tool, call_start_instance, call_observe, observe_spec,
}
use crosspoint_simulator_mcp.Mcp.Capabilities.{
  tool_names, texts, capabilities_json, update_member, index_mut, capabilities_document,
}

-- The name by which a client calls a tool.
abbrev pub tool_name : ToolCall → String
tool_name ToolCall.list_instances = "list_instances"
tool_name (ToolCall.get_instance params) = "get_instance"
tool_name (ToolCall.start_instance params) = "start_instance"
tool_name (ToolCall.inject_touch params) = "inject_touch"
tool_name (ToolCall.inject_key params) = "inject_key"
tool_name (ToolCall.inject_home params) = "inject_home"
tool_name (ToolCall.inject_swipe params) = "inject_swipe"
tool_name (ToolCall.inject_batch params) = "inject_batch"
tool_name (ToolCall.set_inject_enabled params) = "set_inject_enabled"
tool_name (ToolCall.request_snapshot params) = "request_snapshot"
tool_name (ToolCall.set_session_view params) = "set_session_view"
tool_name (ToolCall.shutdown_instance params) = "shutdown_instance"
tool_name (ToolCall.observe params) = "observe"

-- `doc[section][name]`.
abbrev pub entry : String → String → Value → Option Value
entry section name doc = and_get name (Json.get section doc)

module _ (t : Tokio) (os : Os) (serde : Serde) where
  names-tool_name : (call : ToolCall) → any (λ name. name == tool_name call) tool_names ≡ true
  unfolding tool_names
  names-tool_name ToolCall.list_instances = refl
  names-tool_name (ToolCall.get_instance params) = refl
  names-tool_name (ToolCall.start_instance params) = refl
  names-tool_name (ToolCall.inject_touch params) = refl
  names-tool_name (ToolCall.inject_key params) = refl
  names-tool_name (ToolCall.inject_home params) = refl
  names-tool_name (ToolCall.inject_swipe params) = refl
  names-tool_name (ToolCall.inject_batch params) = refl
  names-tool_name (ToolCall.set_inject_enabled params) = refl
  names-tool_name (ToolCall.request_snapshot params) = refl
  names-tool_name (ToolCall.set_session_view params) = refl
  names-tool_name (ToolCall.shutdown_instance params) = refl
  names-tool_name (ToolCall.observe params) = refl

  -- What the document says of the process.
  pub record Told (server : McpServer t os) (doc : Value) : Type 0 where
    pub tools : Json.get "tools" doc ≡ some (texts tool_names)
    pub routed : (call : ToolCall) → any (λ name. name == tool_name call) tool_names ≡ true
    pub configured :
        entry "spawn" "configured" doc ≡ some (bool (is_configured server.spawn.config))
    pub auto_sleep :
        entry "spawn" "autoSleepDefault" doc ≡ some (bool server.spawn.config.auto_sleep_default)
    pub wait_ms :
        entry "observe" "waitMsDefault" doc ≡ some (nat_json server.spawn.config.observe_wait_ms)

  -- The capabilities document is produced without a panic for every server. Its tools are the advertised
  -- names, among which is the name of every tool that the server routes; it says whether a simulator is
  -- configured, and the two defaults that it gives are those of the process, not the literals that it
  -- starts from.
  pub capabilities_document-Told :
      (server : McpServer t os)
      → (doc : Value) × (capabilities_document t os serde server ≡ some doc) × Told server doc
  unfolding capabilities_document capabilities_json index_mut update_member Json.get member
  capabilities_document-Told server = (
    _,
    refl,
    record {
      tools = refl;
      routed = names-tool_name;
      configured = refl;
      auto_sleep = refl;
      wait_ms = refl;
    },
  )

  told :
      (server : McpServer t os) (doc : Value)
      → capabilities_document t os serde server ≡ some doc
      → Told server doc
  told server doc h =
      let (doc', e, facts) = capabilities_document-Told server in rw (← same doc' e) facts
    where
      same : (doc' : Value) → capabilities_document t os serde server ≡ some doc' → doc' ≡ doc
      same doc' e = ground (arith, h)

  -- The defaults in the capabilities document are those that the tools use: a start that leaves
  -- auto_sleep out does what a start with the advertised default does, and an observe with a condition
  -- that leaves wait_ms out does what one with the advertised wait does.
  pub capabilities_document-defaults :
      (server : McpServer t os) (outside : Outside os) (doc : Value) (b : Bool) (ms : ℕ)
      (start_params : StartInstanceParams) (observe_params : ObserveParams)
      → capabilities_document t os serde server ≡ some doc
      → entry "spawn" "autoSleepDefault" doc ≡ some (bool b)
      → entry "observe" "waitMsDefault" doc ≡ some (nat_json ms)
      → is_waiting (observe_spec observe_params) ≡ true
      → (call_tool t os serde server outside
            (ToolCall.start_instance (record start_params { auto_sleep = none }))
          ≡ call_tool t os serde server outside
              (ToolCall.start_instance (record start_params { auto_sleep = some b })))
        × (call_tool t os serde server outside
              (ToolCall.observe (record observe_params { wait_ms = none }))
            ≡ call_tool t os serde server outside
                (ToolCall.observe (record observe_params { wait_ms = some ms })))
  unfolding call_tool call_start_instance call_observe observe_wait_json timeout_ms is_waiting
  capabilities_document-defaults server outside doc b ms start_params observe_params h sleep wait
        waits =
      let facts = told server doc h in
      let same_sleep : server.spawn.config.auto_sleep_default ≡ b =
        ground (arith, facts.auto_sleep, sleep) in
      let same_wait : server.spawn.config.observe_wait_ms ≡ ms =
        ground (arith, facts.wait_ms, wait) in
      (
        rw same_sleep refl,
        rw
            (
              waits,
              same_wait,
              observe_drained-wait_ms t serde (observe_spec observe_params) none (some ms) ms
                  outside.rounds
                  (drain_observe t serde server.instances observe_params.instance_id),
            )
            refl,
      )

  -- Where the capabilities document says that no simulator is configured, every start fails at once with
  -- an error that says so, or that says that its id is not valid, and leaves the server as it was.
  pub capabilities_document-unconfigured :
      (server : McpServer t os) (outside : Outside os) (doc : Value) (params : StartInstanceParams)
      → capabilities_document t os serde server ≡ some doc
      → entry "spawn" "configured" doc ≡ some (bool false)
      → call_tool t os serde server outside (ToolCall.start_instance params)
        ≡ some (
          server,
          error (
              text (
                spawn_error_text
                  (if is_valid_instance_id params.instance_id then not_configured else invalid_id))
              ∷ []),
        )
  unfolding call_tool call_start_instance start_instance_json start tool_result is_configured
  capabilities_document-unconfigured server outside doc params h missing =
      let facts = told server doc h in
      let bare : server.spawn.config.binary ≡ none = ground (arith, facts.configured, missing) in
      elim (Bool-cases (is_valid_instance_id params.instance_id)) [
        | inl good ↦ rw (good, bare) refl
        | inr bad ↦ rw bad refl
      ]
