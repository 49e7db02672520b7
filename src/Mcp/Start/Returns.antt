-- ===== src/Mcp/Start/Returns.antt =====
-- `start_instance` and `shutdown_instance` of crates/csm-proxy/src/mcp.rs return, where their reaps have
-- their two seconds.
use crosspoint_simulator_mcp.Prelude.{
  ℕ, ◌≡◌, refl, String, Bool, true, Option, none, some, List, Result, ok, err, leb, any, is_some,
  Bool-cases, inl, inr, ◌&&◌, arith, string_eq,
}
use crosspoint_simulator_mcp.Prelude.Dict
use crosspoint_simulator_mcp.Tokio.{Tokio}
use crosspoint_simulator_mcp.State.{InstanceMap, is_valid_instance_id}
use crosspoint_simulator_mcp.Instances.{get}
use crosspoint_simulator_mcp.Json.{Value, Serde}
use crosspoint_simulator_mcp.Spawn.{Os, SpawnError}
use crosspoint_simulator_mcp.History.{run}
use crosspoint_simulator_mcp.Spawn.Supervisor.{Supervisor, start}
use crosspoint_simulator_mcp.Spawn.Supervisor.Awaits.{reap_wait_ms, wait_ended, reap_awaited}
use crosspoint_simulator_mcp.Mcp.View.{shutdown_instance_json}
use crosspoint_simulator_mcp.Spawn.Supervisor.Settings.{config-start}
use crosspoint_simulator_mcp.Mcp.Inject.Outcome.{Returns}
use crosspoint_simulator_mcp.Mcp.Start.{
  McpServer, StartRound, Looped, with_supervisor, child_awaited, start_failed, loop_ended,
  start_called, start_instance_json, reaped, then_answered, reap_default, reap_if_spawned,
  shutdown_instance,
}
use crosspoint_simulator_mcp.Mcp.Start.Outcome.{register_loop-returns}

module _ (t : Tokio) (os : Os) (serde : Serde) where
  wait_ended-Returns :
      (child waited_ms : ℕ) (s : Supervisor os)
      → leb reap_wait_ms waited_ms ≡ true
      → Returns t (wait_ended os child waited_ms s)
  wait_ended-Returns child waited_ms s long = elim (Bool-cases (os.running child s.world)) [
    | inl up ↦ rw (up, long) (_, refl)
    | inr gone ↦ rw gone (_, refl)
  ]

  with_supervisor-Returns :
      (s : InstanceMap t) (o : Option (Supervisor os))
      → Returns t o
      → Returns t (with_supervisor t os serde s o)
  with_supervisor-Returns s none (a, e) = cc
  with_supervisor-Returns s (some spawn) r = (_, refl)

  child_awaited-Returns :
      (server : McpServer t os) (o : Option ℕ) (reaping : StartRound os)
      → leb reap_wait_ms reaping.waited_ms ≡ true
      → Returns t (child_awaited t os serde server o reaping)
  unfolding reap_awaited
  child_awaited-Returns server none reaping long = (_, refl)
  child_awaited-Returns server (some child) reaping long =
      with_supervisor-Returns (run t server.instances reaping.meanwhile) _
        (wait_ended-Returns child reaping.waited_ms _ long)

  start_failed-Returns :
      (message : String) (o : Option (McpServer t os))
      → Returns t o
      → Returns t (start_failed t os serde message o)
  start_failed-Returns message none (a, e) = cc
  start_failed-Returns message (some server) r = (_, refl)

  loop_ended-Returns :
      (reaping : StartRound os) (o : Looped t os serde)
      → leb reap_wait_ms reaping.waited_ms ≡ true
      → Returns t o
      → Returns t (loop_ended t os serde reaping o)
  loop_ended-Returns reaping none long (a, e) = cc
  loop_ended-Returns reaping (some (server, ok v)) long r = (_, refl)
  loop_ended-Returns reaping (some (server, err (child, message))) long r =
      start_failed-Returns message _ (child_awaited-Returns server child reaping long)

  start_called-Returns :
      (server : McpServer t os) (id : String) (sample_book auto_sleep : Bool)
      (rounds : List (StartRound os)) (reaping : StartRound os)
      (x : Supervisor os × Result ℕ SpawnError)
      → any (λ round. leb x.0.config.wait_ms round.waited_ms) rounds ≡ true
      → leb reap_wait_ms reaping.waited_ms ≡ true
      → Returns t (start_called t os serde server id sample_book auto_sleep rounds reaping x)
  start_called-Returns server id sample_book auto_sleep rounds reaping (spawn, err e) long longer =
      (_, refl)
  start_called-Returns server id sample_book auto_sleep rounds reaping (spawn, ok pid) long longer =
      loop_ended-Returns reaping _ longer (
        register_loop-returns t os serde (record server { spawn = spawn }) id pid sample_book
          auto_sleep rounds long)

  pub start_instance_json-Returns :
      (server : McpServer t os) (rounds : List (StartRound os)) (reaping : StartRound os)
      (id : String) (headless : Bool) (cwd : Option String) (sample_book auto_sleep : Bool)
      → (any (λ round. leb server.spawn.config.wait_ms round.waited_ms) rounds
          && leb reap_wait_ms reaping.waited_ms)
        ≡ true
      → Returns t (
          start_instance_json t os serde server rounds reaping id headless cwd sample_book
            auto_sleep)
  unfolding start_instance_json
  start_instance_json-Returns server rounds reaping id headless cwd sample_book auto_sleep long =
      elim (Bool-cases (is_valid_instance_id id)) [
        | inr bad ↦ rw bad (_, refl)
        | inl good ↦
            let connected = is_some (get t server.instances id) in
            rw good (
              start_called-Returns server id sample_book auto_sleep rounds reaping
                (start os server.spawn id headless cwd connected sample_book auto_sleep)
                (rw (config-start os server.spawn id headless connected sample_book auto_sleep cwd)
                  (ground arith))
                (ground arith))
      ]

  then_answered-Returns :
      (queued : Result Value String) (o : Option (McpServer t os))
      → Returns t o
      → Returns t (then_answered t os serde queued o)
  then_answered-Returns queued none (a, e) = cc
  then_answered-Returns queued (some server) r = (_, refl)

  reap_default-Returns :
      (server : McpServer t os) (o : Option String) (reaping : StartRound os)
      → leb reap_wait_ms reaping.waited_ms ≡ true
      → Returns t (reap_default t os serde server o reaping)
  reap_default-Returns server none reaping long = (_, refl)
  reap_default-Returns server (some id) reaping long =
      child_awaited-Returns (reaped t os serde server id) (Dict.lookup id server.spawn.children)
        reaping long

  reap_if_spawned-Returns :
      (server : McpServer t os) (given : Option String) (reaping : StartRound os)
      → leb reap_wait_ms reaping.waited_ms ≡ true
      → Returns t (reap_if_spawned t os serde server given reaping)
  unfolding reap_if_spawned
  reap_if_spawned-Returns server none reaping long =
      reap_default-Returns server server.instances.default_instance reaping long
  reap_if_spawned-Returns server (some id) reaping long =
      elim (Bool-cases (is_valid_instance_id id)) [
        | inl good ↦ rw good (reap_default-Returns server (some id) reaping long)
        | inr bad ↦ rw bad (_, refl)
      ]

  pub shutdown_instance-Returns :
      (server : McpServer t os) (reaping : StartRound os) (given : Option String)
      → leb reap_wait_ms reaping.waited_ms ≡ true
      → Returns t (shutdown_instance t os serde server reaping given)
  unfolding shutdown_instance
  shutdown_instance-Returns server reaping given long =
      let queued = shutdown_instance_json t server.instances given in
      then_answered-Returns queued.1 _
        (reap_if_spawned-Returns (record server { instances = queued.0 }) given reaping long)
