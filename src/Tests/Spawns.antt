-- ===== src/Tests/Spawns.antt =====
-- The supervisor, `start_instance` and the arguments, on an operating system whose processes never end.
use crosspoint_simulator_mcp.Prelude.{
  ℕ, ◌+◌, ◌≡◌, refl, true, false, none, some, List, [], ◌∷◌, ok, nat_eq, string_eq,
}
use crosspoint_simulator_mcp.State.{is_valid_instance_id}
use crosspoint_simulator_mcp.Instances.{new}
use crosspoint_simulator_mcp.Spawn.{Os}
use crosspoint_simulator_mcp.Spawn.Supervisor.{Supervisor, contains, start}
use crosspoint_simulator_mcp.Spawn.Supervisor.Reservation.{start-frees}
use crosspoint_simulator_mcp.Mcp.Start.{McpServer, StartRound, register_loop}
use crosspoint_simulator_mcp.Mcp.Start.Outcome.{Settles, register_loop-Settles}
use crosspoint_simulator_mcp.Cli.{Args, parse_instance_id}
use crosspoint_simulator_mcp.Tests.Channels.{channels, no_channels}
use crosspoint_simulator_mcp.Tests.Tools.{documents}

abbrev pub machine : Os
machine = record {
  World = ℕ;
  temp_dir = "/tmp";
  join = λ p b. p;
  create_dir_all = λ p w. (w, ok tt);
  write = λ p c w. (w, ok tt);
  spawn = λ argv dir w. (w + 1, ok w);
  pid = λ child w. some child;
  running = λ child w. true;
  start_kill = λ child w. (w, ok tt);
  drop_child = λ child w. w;
}

abbrev pub arguments : Args
arguments = record {
  listen = "127.0.0.1:50051";
  mcp_http = none;
  default_instance = some "a";
  simulator = some "program";
  simulator_arg = [];
  auto_sleep = false;
  observe_wait_ms = 8000;
}

abbrev pub idle : Supervisor machine
idle = record {
  config = record {
    binary = some "program";
    extra_args = [];
    listen = "127.0.0.1:50051";
    wait_ms = 15000;
    auto_sleep_default = false;
    observe_wait_ms = 8000;
  };
  children = [];
  starting = [];
  world = 0;
}

start-frees_example :
    contains machine "a" (start machine idle "a" true none false true false).0.starting ≡ false
start-frees_example = start-frees machine idle "a" true false true false none refl

abbrev busy : Supervisor machine
busy = record idle { children = ("a", 4) ∷ ("b", 5) ∷ [] }

abbrev pub server : McpServer channels machine
server = record { instances = new channels no_channels; spawn = busy }

abbrev start_rounds : List (StartRound machine)
start_rounds =
    record { waited_ms = 0; meanwhile = []; pending = []; spawn_actions = [] }
    ∷ record { waited_ms = 15000; meanwhile = []; pending = []; spawn_actions = [] }
    ∷ []

register_loop-Settles_example :
    Settles channels machine documents "a"
      (register_loop channels machine documents server "a" 4 true false start_rounds)
register_loop-Settles_example =
    register_loop-Settles channels machine documents server "a" 4 true false start_rounds

valid_a : is_valid_instance_id "a" ≡ true
unfolding is_valid_instance_id
valid_a = refl

parsed_a : parse_instance_id "a" ≡ ok "a"
unfolding parse_instance_id is_valid_instance_id
parsed_a = refl
