-- ===== src/Mcp/Start/Shutdown.antt =====
-- What `shutdown_instance` of crates/csm-proxy/src/mcp.rs does to the child of its instance.
use crosspoint_simulator_mcp.Prelude.{
  ℕ, ◌≡◌, refl, ap, ◌∙◌, String, true, false, Option, none, some, Result, ok, err, arith, leb,
  or_else, string_eq,
}
use crosspoint_simulator_mcp.Prelude.Dict
use crosspoint_simulator_mcp.Prelude.Dict.{lookup-remove}
use crosspoint_simulator_mcp.Tokio.{Tokio}
use crosspoint_simulator_mcp.Messages.{ServerPayload, ServerToSim}
use crosspoint_simulator_mcp.State.{InstanceMap, Instance, InstanceSnapshot, is_valid_instance_id}
use crosspoint_simulator_mcp.Instances.{take_corr, send_to, sent, try_send}
use crosspoint_simulator_mcp.History.{run}
use crosspoint_simulator_mcp.Json.{Serde}
use crosspoint_simulator_mcp.Spawn.{Os}
use crosspoint_simulator_mcp.Spawn.Supervisor.Awaits.{reap_wait_ms}
use crosspoint_simulator_mcp.Spawn.Supervisor.Reaping.{stores_nothing, reap_awaited-Fewer}
use crosspoint_simulator_mcp.Mcp.Requests.{
  request, resolve, enqueue, enqueue_to, enqueued, enqueue_resolved,
}
use crosspoint_simulator_mcp.Mcp.View.{shutdown_instance_json}
use crosspoint_simulator_mcp.Mcp.Start.Outcome.{reap-lookup}
use crosspoint_simulator_mcp.Mcp.Start.{
  McpServer, StartRound, as_pause, child_awaited, reaped, reap_here, reap_default, reap_if_spawned,
  shutdown_instance,
}

module _ (t : Tokio) (os : Os) (serde : Serde) where
  default-sent :
      (s : InstanceMap t) (id : String) (corr : ℕ) (n : Option t.Net)
      → (enqueued t s id corr (sent t s n)).0.default_instance ≡ s.default_instance
  default-sent s id corr none = refl
  default-sent s id corr (some net) = refl

  default-send_to :
      (s : InstanceMap t) (id : String) (corr : ℕ) (msg : ServerToSim) (o : Option Instance)
      → (enqueued t s id corr (send_to t s msg o)).0.default_instance ≡ s.default_instance
  default-send_to s id corr msg none = refl
  default-send_to s id corr msg (some inst) =
      default-sent s id corr (t.try_send inst.outbound_tx msg s.net)

  default-enqueue_resolved :
      (s : InstanceMap t) (payload : ServerPayload) (o : Result InstanceSnapshot String)
      → (enqueue_resolved t s false payload o).0.default_instance ≡ s.default_instance
  unfolding enqueue_to try_send take_corr
  default-enqueue_resolved s payload (err e) = refl
  default-enqueue_resolved s payload (ok snap) =
      let (corr, s') = take_corr t s in
      let id = snap.register.instance_id in
      default-send_to s' id corr (request corr false payload) (Dict.lookup id s'.inner)

  default-shutdown_instance_json :
      (s : InstanceMap t) (given : Option String)
      → (shutdown_instance_json t s given).0.default_instance ≡ s.default_instance
  unfolding shutdown_instance_json enqueue
  default-shutdown_instance_json s given =
      default-enqueue_resolved s ServerPayload.shutdown (resolve t s given)

  -- The call comes to an end that leaves no child under the id.
  abbrev pub Frees : String → Option (McpServer t os) → Type 0
  Frees id o =
      (server : McpServer t os) × (o ≡ some server) × (Dict.lookup id server.spawn.children ≡ none)

  child_awaited-Frees :
      (server : McpServer t os) (id : String) (o : Option ℕ) (reaping : StartRound os)
      → leb reap_wait_ms reaping.waited_ms ≡ true
      → stores_nothing os reaping.spawn_actions ≡ true
      → Dict.lookup id server.spawn.children ≡ none
      → Frees id (child_awaited t os serde server o reaping)
  child_awaited-Frees server id none reaping long quiet gone = (server, refl, gone)
  child_awaited-Frees server id (some child) reaping long quiet gone =
      let (spawn, returned, fewer) =
        reap_awaited-Fewer os server.spawn (some child) (as_pause t os serde reaping) long quiet in
      (
        record { instances = run t server.instances reaping.meanwhile; spawn = spawn },
        rw returned refl,
        fewer id gone,
      )

  reap_here-Frees :
      (server : McpServer t os) (id : String) (reaping : StartRound os)
      → leb reap_wait_ms reaping.waited_ms ≡ true
      → stores_nothing os reaping.spawn_actions ≡ true
      → Frees id (reap_here t os serde server id reaping)
  reap_here-Frees server id reaping long quiet =
      child_awaited-Frees (reaped t os serde server id) id (Dict.lookup id server.spawn.children)
        reaping long quiet (reap-lookup t os serde server.spawn id)

  reap_default-Frees :
      (server : McpServer t os) (o : Option String) (id : String) (reaping : StartRound os)
      → o ≡ some id
      → leb reap_wait_ms reaping.waited_ms ≡ true
      → stores_nothing os reaping.spawn_actions ≡ true
      → Frees id (reap_default t os serde server o reaping)
  reap_default-Frees server none id reaping meant long quiet = cc
  reap_default-Frees server (some i) id reaping meant long quiet =
      let same : i ≡ id = ground arith in rw same (reap_here-Frees server id reaping long quiet)

  reap_if_spawned-Frees :
      (server : McpServer t os) (given : Option String) (id : String) (reaping : StartRound os)
      → or_else given server.instances.default_instance ≡ some id
      → is_valid_instance_id id ≡ true
      → leb reap_wait_ms reaping.waited_ms ≡ true
      → stores_nothing os reaping.spawn_actions ≡ true
      → Frees id (reap_if_spawned t os serde server given reaping)
  unfolding reap_if_spawned
  reap_if_spawned-Frees server (some i) id reaping meant valid long quiet =
      let same : i ≡ id = ground arith in
      rw (same, valid) (reap_here-Frees server id reaping long quiet)
  reap_if_spawned-Frees server none id reaping meant valid long quiet =
      reap_default-Frees server server.instances.default_instance id reaping meant long quiet

  -- A shutdown of a valid id, one that is given or else the default id, whose reap has its two seconds and
  -- during which no start of another task ends, returns with the answer to its request, be that queued or
  -- refused, and leaves no child in the table under the id.
  pub shutdown_instance-reaps :
      (server : McpServer t os) (given : Option String) (id : String) (reaping : StartRound os)
      → or_else given server.instances.default_instance ≡ some id
      → is_valid_instance_id id ≡ true
      → leb reap_wait_ms reaping.waited_ms ≡ true
      → stores_nothing os reaping.spawn_actions ≡ true
      → (server' : McpServer t os) × (shutdown_instance t os serde server reaping given
          ≡ some (server', (shutdown_instance_json t server.instances given).1))
        × (Dict.lookup id server'.spawn.children ≡ none)
  unfolding shutdown_instance
  shutdown_instance-reaps server given id reaping meant valid long quiet =
      let (s, queued) = shutdown_instance_json t server.instances given in
      let (server', returned, gone) =
        reap_if_spawned-Frees (record server { instances = s }) given id reaping
          (ap (λ d. or_else given d) (default-shutdown_instance_json server.instances given)
            ∙ meant)
          valid long quiet in
      (server', rw returned refl, gone)
