-- ===== src/Mcp/Start.antt =====
-- crates/csm-proxy/src/mcp.rs: `start_instance`, which waits for the child to register, and the reaping
-- of a child after a shutdown. The server is the instances and the supervisor together.
pub mod Outcome
pub mod Registered
pub mod Shutdown
pub mod Returns
use crosspoint_simulator_mcp.Prelude.{
  ℕ, String, Bool, true, false, not, Option, none, some, List, [], ◌∷◌, Result, ok, err, leb,
  is_some, if◌then◌else◌, string_eq,
}
use crosspoint_simulator_mcp.Prelude.Dict
use crosspoint_simulator_mcp.Tokio.{Tokio}
use crosspoint_simulator_mcp.State.{InstanceMap, InstanceSnapshot, is_valid_instance_id}
use crosspoint_simulator_mcp.Instances.{get}
use crosspoint_simulator_mcp.History.{Action, run}
use crosspoint_simulator_mcp.Json.{Value, bool, string, json, nat_json, option_json, Serde}
use crosspoint_simulator_mcp.Mcp.View.{shutdown_instance_json}
use crosspoint_simulator_mcp.Spawn.{
  SpawnError, spawn_error_text, invalid_id, exited_before_register, register_timeout, Os,
}
use crosspoint_simulator_mcp.Spawn.Supervisor.{Supervisor, start, reap, child_alive}
use crosspoint_simulator_mcp.Spawn.Supervisor.Awaits.{ReapPause, reap_awaited}
use crosspoint_simulator_mcp.Spawn.Supervisor.Overlaps.{SpawnAction, run_spawn}

pub record McpServer (t : Tokio) (os : Os) : Type 0 where
  pub instances : InstanceMap t
  pub spawn : Supervisor os

-- A round of the wait: the time waited so far, and what the other tasks do to the instances and to the
-- supervisor, and the processes to the world, while the call sleeps after it. `pending` has the ids of the
-- starts of other tasks that are under way.
pub record StartRound (os : Os) : Type 0 where
  pub waited_ms : ℕ
  pub meanwhile : List Action
  pub pending : List String
  pub spawn_actions : List (SpawnAction os)

module _ (t : Tokio) (os : Os) (serde : Serde) where
  abbrev pub started_json : InstanceSnapshot → ℕ → Bool → Bool → Value
  started_json snap pid sample_book auto_sleep = json (
      ("instanceId", string snap.register.instance_id)
      ∷ ("pid", nat_json pid)
      ∷ ("register", serde.register_json snap.register)
      ∷ ("lastHeartbeat", option_json serde.heartbeat_json snap.last_heartbeat)
      ∷ ("sampleBook", bool sample_book)
      ∷ ("autoSleep", bool auto_sleep)
      ∷ [])

  abbrev pub reaped : McpServer t os → String → McpServer t os
  reaped server id = record server { spawn = reap os server.spawn id }

  -- The other tasks and the processes go on.
  abbrev pub slept : McpServer t os → StartRound os → McpServer t os
  slept server round = record {
    instances = run t server.instances round.meanwhile;
    spawn =
        (run_spawn os (record { supervisor = server.spawn; pending = round.pending })
          round.spawn_actions).supervisor;
  }

  abbrev pub as_pause : StartRound os → ReapPause os
  as_pause round = record {
    waited_ms = round.waited_ms;
    pending = round.pending;
    spawn_actions = round.spawn_actions;
  }

  abbrev pub with_supervisor : InstanceMap t → Option (Supervisor os) → Option (McpServer t os)
  with_supervisor s none = none
  with_supervisor s (some spawn) = some (record { instances = s; spawn = spawn })

  -- The await of a reap, where it took a child: the other tasks go on.
  abbrev pub child_awaited : McpServer t os → Option ℕ → StartRound os → Option (McpServer t os)
  child_awaited server none round = some server
  child_awaited server (some child) round =
      with_supervisor (run t server.instances round.meanwhile)
        (reap_awaited os server.spawn (some child) (as_pause round))

  -- How far the loop comes: an error stands with the child that the reap then waits for.
  abbrev pub Looped : Type 0
  Looped = Option (McpServer t os × Result Value (Option ℕ × String))

  -- A round in which the instance is not connected: the child has ended, the time is up, or the rounds
  -- go on.
  abbrev pub not_yet :
      McpServer t os → String → Supervisor os × Bool → Bool → (McpServer t os → Looped) → Looped
  not_yet server id (spawn, false) late go_on = some (
    reaped (record server { spawn = spawn }) id,
    err (Dict.lookup id spawn.children, spawn_error_text exited_before_register),
  )
  not_yet server id (spawn, true) true go_on = some (
    reaped (record server { spawn = spawn }) id,
    err (Dict.lookup id spawn.children, spawn_error_text register_timeout),
  )
  not_yet server id (spawn, true) false go_on = go_on (record server { spawn = spawn })

  -- The loop over the rounds to come, up to the await of the reap where it fails: no result where the
  -- rounds end before it does.
  unfoldable pub register_loop :
      McpServer t os → String → ℕ → Bool → Bool → List (StartRound os) → Looped
  register_loop server id pid sample_book auto_sleep [] = none
  register_loop server id pid sample_book auto_sleep (round ∷ rounds) =
      elim (get t server.instances id) [
        | some snap ↦ some (server, ok (started_json snap pid sample_book auto_sleep))
        | none ↦
            not_yet server id (child_alive os server.spawn id)
              (leb server.spawn.config.wait_ms round.waited_ms)
              λ server. register_loop (slept server round) id pid sample_book auto_sleep rounds
      ]

  abbrev pub start_failed :
      String → Option (McpServer t os) → Option (McpServer t os × Result Value String)
  start_failed message none = none
  start_failed message (some server) = some (server, err message)

  abbrev pub loop_ended : StartRound os → Looped → Option (McpServer t os × Result Value String)
  loop_ended reaping none = none
  loop_ended reaping (some (server, ok v)) = some (server, ok v)
  loop_ended reaping (some (server, err (child, message))) =
      start_failed message (child_awaited server child reaping)

  abbrev pub start_called :
      McpServer t os
      → String
      → Bool
      → Bool
      → List (StartRound os)
      → StartRound os
      → Supervisor os × Result ℕ SpawnError
      → Option (McpServer t os × Result Value String)
  start_called server id sample_book auto_sleep rounds reaping (spawn, err e) =
      some (record server { spawn = spawn }, err (spawn_error_text e))
  start_called server id sample_book auto_sleep rounds reaping (spawn, ok pid) =
      loop_ended reaping
        (register_loop (record server { spawn = spawn }) id pid sample_book auto_sleep rounds)

  unfoldable pub start_instance_json :
      McpServer t os
      → List (StartRound os)
      → StartRound os
      → String
      → Bool
      → Option String
      → Bool
      → Bool
      → Option (McpServer t os × Result Value String)
  start_instance_json server rounds reaping id headless cwd sample_book auto_sleep =
      if not (is_valid_instance_id id)
      then some (server, err (spawn_error_text invalid_id))
      else start_called server id sample_book auto_sleep rounds reaping (
          start os server.spawn id headless cwd (is_some (get t server.instances id)) sample_book
            auto_sleep)

  -- The whole of `reap`.
  abbrev pub reap_here : McpServer t os → String → StartRound os → Option (McpServer t os)
  reap_here server id reaping =
      child_awaited (reaped server id) (Dict.lookup id server.spawn.children) reaping

  abbrev pub reap_default : McpServer t os → Option String → StartRound os → Option (McpServer t os)
  reap_default server none reaping = some server
  reap_default server (some id) reaping = reap_here server id reaping

  unfoldable pub reap_if_spawned :
      McpServer t os → Option String → StartRound os → Option (McpServer t os)
  reap_if_spawned server (some id) reaping =
      if is_valid_instance_id id then reap_here server id reaping else some server
  reap_if_spawned server none reaping =
      reap_default server server.instances.default_instance reaping

  abbrev pub then_answered :
      Result Value String → Option (McpServer t os) → Option (McpServer t os × Result Value String)
  then_answered queued none = none
  then_answered queued (some server) = some (server, queued)

  -- The tool: the request first, then the child.
  abbrev pub shut_down :
      McpServer t os
      → Option String
      → StartRound os
      → InstanceMap t × Result Value String
      → Option (McpServer t os × Result Value String)
  shut_down server given reaping (s, queued) =
      then_answered queued (reap_if_spawned (record server { instances = s }) given reaping)

  unfoldable pub shutdown_instance :
      McpServer t os → StartRound os → Option String → Option (McpServer t os × Result Value String)
  unfolding reap_if_spawned
  shutdown_instance server reaping given =
      shut_down server given reaping (shutdown_instance_json t server.instances given)
