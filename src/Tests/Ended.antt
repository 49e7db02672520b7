-- ===== src/Tests/Ended.antt =====
-- The end of the process on an operating system whose processes live until they are killed.
use crosspoint_simulator_mcp.Prelude.{
  ℕ, ◌≡◌, ◌↔◌, refl, String, not, some, List, [], ◌∷◌, Result, ok, err, any, ◌==◌, nat_eq,
  string_eq,
}
use crosspoint_simulator_mcp.Spawn.{Os}
use crosspoint_simulator_mcp.Spawn.Supervisor.{store}
use crosspoint_simulator_mcp.Spawn.Supervisor.Awaits.{ReapPause}
use crosspoint_simulator_mcp.Mcp.Start.{McpServer}
use crosspoint_simulator_mcp.Process.{ended, mcp_ends, main, main-reaps}
use crosspoint_simulator_mcp.Tests.Channels.{channels, no_channels}
use crosspoint_simulator_mcp.Tests.Tools.{documents}
use crosspoint_simulator_mcp.Tests.Spawns.{arguments}

-- The world is the list of the processes that were killed.
abbrev pub mortal : Os
mortal = record {
  World = List ℕ;
  temp_dir = "/tmp";
  join = λ p b. p;
  create_dir_all = λ p w. (w, ok tt);
  write = λ p c w. (w, ok tt);
  spawn = λ argv dir w. (w, ok 7);
  pid = λ child w. some child;
  running = λ child w. not (any (λ c. c == child) w);
  start_kill = λ child w. (child ∷ w, ok tt);
  drop_child = λ child w. child ∷ w;
}

-- Each wait for a child takes its two seconds, and nothing else happens.
abbrev pauses : ℕ → ReapPause mortal
pauses index = record { waited_ms = 2000; pending = []; spawn_actions = [] }

abbrev with_child : McpServer channels mortal → McpServer channels mortal
with_child server = record server { spawn = store mortal server.spawn "a" 7 }

abbrev failure : Result Unit String
failure = err "broken pipe"

main-reaps_example :
    (server : McpServer channels mortal) × (code : ℕ) × (main channels mortal documents arguments
        no_channels []
        (mcp_ends (ended with_child pauses failure))
      ≡ some (server, code))
    × (server.spawn.children ≡ [])
    × ((code ≡ 0) ↔ (failure ≡ ok tt))
main-reaps_example =
    main-reaps channels mortal documents arguments no_channels [] with_child pauses failure
      (λ index. refl) (λ index. refl)
