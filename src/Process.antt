-- ===== src/Process.antt =====
-- crates/csm-proxy/src/lib.rs and main.rs, and the end of mcp.rs: the process from its arguments to its
-- exit. The listeners and transports of connectrpc, rmcp and axum are a parameter: what they come to.
use crosspoint_simulator_mcp.Prelude.{
  ℕ, ◌≡◌, ◌↔◌, arith, refl, String, Option, none, some, List, [], ◌∷◌, Result, ok, err, true, leb,
}
use crosspoint_simulator_mcp.Tokio.{Tokio}
use crosspoint_simulator_mcp.State.{InstanceMap}
use crosspoint_simulator_mcp.Instances.{new}
use crosspoint_simulator_mcp.Json.{Serde}
use crosspoint_simulator_mcp.Spawn.{SpawnConfig, default_config, Os}
use crosspoint_simulator_mcp.Spawn.Supervisor.Awaits.{ReapPause, reap_wait_ms}
use crosspoint_simulator_mcp.Spawn.Supervisor.Reaping.{stores_nothing, reap_all-empties}
use crosspoint_simulator_mcp.Mcp.Start.{McpServer}
use crosspoint_simulator_mcp.Mcp.Capabilities.{with_spawn, reap_spawned}
use crosspoint_simulator_mcp.Cli.{Args, from_args, apply_instance_hints}

module _ (t : Tokio) (os : Os) (serde : Serde) where
  -- An MCP transport: it fails to start, or it ends, with a result, once the clients have made something
  -- of the server. The pauses are what goes on while the children are waited for.
  pub data Transport : Type 0 where
    refused : String → Transport
    ended : (McpServer t os → McpServer t os) → (ℕ → ReapPause os) → Result Unit String → Transport

  -- Which of the two services of the process ends first. The other is dropped in the middle.
  pub data FirstEnd : Type 0 where
    session_ends : (McpServer t os → McpServer t os) → Result Unit String → FirstEnd
    mcp_ends : Transport → FirstEnd

  -- A server that served a transport to its end.
  -- No result where a pause is over before the wait that it stands for.
  abbrev pub Served : Type 0
  Served = Option (McpServer t os × Result Unit String)

  abbrev pub with_result : Result Unit String → Option (McpServer t os) → Served
  with_result result none = none
  with_result result (some server) = some (server, result)

  abbrev pub after_transport : McpServer t os → Transport → Served
  after_transport server (refused e) = some (server, err e)
  after_transport server (ended f pauses result) =
      with_result result (reap_spawned t os serde (f server) pauses)

  unfoldable pub serve_mcp_stdio : InstanceMap t → SpawnConfig → os.World → Transport → Served
  unfolding with_spawn reap_spawned
  serve_mcp_stdio instances spawn w transport =
      after_transport (with_spawn t os serde instances spawn w) transport

  -- A listener that has no local address is refused.
  unfoldable pub serve_mcp_http_listener_with_spawn :
      InstanceMap t → SpawnConfig → os.World → Transport → Served
  unfolding with_spawn reap_spawned
  serve_mcp_http_listener_with_spawn instances spawn w transport =
      after_transport (with_spawn t os serde instances spawn w) transport

  unfoldable pub serve_mcp_http_listener : InstanceMap t → os.World → Transport → Served
  unfolding serve_mcp_http_listener_with_spawn
  serve_mcp_http_listener instances w transport =
      serve_mcp_http_listener_with_spawn instances default_config w transport

  -- A failure to bind is refused as well.
  unfoldable pub serve_mcp_http : InstanceMap t → SpawnConfig → os.World → Transport → Served
  unfolding serve_mcp_http_listener_with_spawn
  serve_mcp_http instances spawn w transport =
      serve_mcp_http_listener_with_spawn instances spawn w transport

  -- The server of a service that is dropped: its children are killed on drop.
  unfoldable pub drop_each : List (String × ℕ) → os.World → os.World
  drop_each [] w = w
  drop_each ((id, child) ∷ children) w = drop_each children (os.drop_child child w)

  unfoldable pub drop_server : McpServer t os → McpServer t os
  unfolding drop_each
  drop_server server = record server {
    spawn = record server.spawn {
      children = [];
      starting = [];
      world = drop_each server.spawn.children server.spawn.world;
    };
  }

  abbrev pub serve_mcp : Option String → InstanceMap t → SpawnConfig → os.World → Transport → Served
  serve_mcp (some addr) instances spawn w transport = serve_mcp_http instances spawn w transport
  serve_mcp none instances spawn w transport = serve_mcp_stdio instances spawn w transport

  abbrev pub selected : Option String → InstanceMap t → SpawnConfig → os.World → FirstEnd → Served
  selected addr instances spawn w (session_ends f result) =
      some (drop_server (f (with_spawn t os serde instances spawn w)), result)
  selected addr instances spawn w (mcp_ends transport) = serve_mcp addr instances spawn w transport

  unfoldable pub run : Args → t.Net → os.World → FirstEnd → Served
  unfolding serve_mcp_http serve_mcp_stdio drop_server
  run args net w first =
      selected args.mcp_http (apply_instance_hints t args (new t net)) (from_args args) w first

  -- main.rs: ExitCode::SUCCESS and ExitCode::FAILURE.
  abbrev pub exit_code : Result Unit String → ℕ
  exit_code (ok _) = 0
  exit_code (err e) = 1

  abbrev pub exited : Served → Option (McpServer t os × ℕ)
  exited none = none
  exited (some (server, result)) = some (server, exit_code result)

  unfoldable pub main : Args → t.Net → os.World → FirstEnd → Option (McpServer t os × ℕ)
  unfolding run
  main args net w first = exited (run args net w first)

  -- The server that the MCP transport is given.
  abbrev pub started : Args → t.Net → os.World → McpServer t os
  started args net w =
      with_spawn t os serde (apply_instance_hints t args (new t net)) (from_args args) w

  ends_reaped :
      (addr : Option String) (instances : InstanceMap t) (spawn : SpawnConfig) (w : os.World)
      (f : McpServer t os → McpServer t os) (pauses : ℕ → ReapPause os)
      (result : Result Unit String)
      → serve_mcp addr instances spawn w (ended f pauses result)
        ≡ with_result result
            (reap_spawned t os serde (f (with_spawn t os serde instances spawn w)) pauses)
  unfolding serve_mcp_http serve_mcp_stdio serve_mcp_http_listener_with_spawn
  ends_reaped none instances spawn w f pauses result = refl
  ends_reaped (some addr) instances spawn w f pauses result = refl

  -- Where the MCP transport ends, over stdio or HTTP and with success or an error, each wait for a child
  -- has its two seconds and no start of another task ends meanwhile, the program returns, no child is left
  -- in the table, and the exit code is 0 exactly for success.
  pub main-reaps :
      (args : Args) (net : t.Net) (w : os.World) (f : McpServer t os → McpServer t os)
      (pauses : ℕ → ReapPause os) (result : Result Unit String)
      → ((index : ℕ) → leb reap_wait_ms (pauses index).waited_ms ≡ true)
      → ((index : ℕ) → stores_nothing os (pauses index).spawn_actions ≡ true)
      → (server : McpServer t os) × (code : ℕ) × (main args net w (mcp_ends (ended f pauses result))
          ≡ some (server, code))
        × (server.spawn.children ≡ [])
        × ((code ≡ 0) ↔ (result ≡ ok tt))
  unfolding main run reap_spawned
  main-reaps args net w f pauses result long quiet =
      let served = f (started args net w) in
      let (spawn, returned, none_left) = reap_all-empties os pauses long quiet served.spawn in
      (
        record { instances = served.instances; spawn = spawn },
        exit_code result,
        rw
            (
              ends_reaped args.mcp_http (apply_instance_hints t args (new t net)) (from_args args) w
                  f pauses result,
              returned,
            )
            refl,
        none_left,
        exit_code_iff result,
      )
    where
      exit_code_iff : (r : Result Unit String) → (exit_code r ≡ 0) ↔ (r ≡ ok tt)
      exit_code_iff (ok u) = ground arith
      exit_code_iff (err e) = ground arith
