-- ===== src/Tests/Dialled.antt =====
-- What a simulator sends while a tool waits for it.
use crosspoint_simulator_mcp.Prelude.{
  ◌≡◌, refl, true, false, none, some, [], ◌∷◌, ok, arith, string_eq, nat_eq,
}
use crosspoint_simulator_mcp.Prelude.Dict
use crosspoint_simulator_mcp.Messages.{SimToServer, SimPayload}
use crosspoint_simulator_mcp.State.{Instance, InstanceMap, is_valid_instance_id}
use crosspoint_simulator_mcp.Instances.{new, get}
use crosspoint_simulator_mcp.Session.{Session, message}
use crosspoint_simulator_mcp.History.{opens, receives, numbers, step, run}
use crosspoint_simulator_mcp.Mcp.Until.{ObserveSpec}
use crosspoint_simulator_mcp.Mcp.Observe.{Round, matches, observe_loop, observe_result}
use crosspoint_simulator_mcp.Mcp.Observe.Drain.{holding, shown}
use crosspoint_simulator_mcp.Mcp.Observe.Noticed.{queuing, observe_loop-notices}
use crosspoint_simulator_mcp.Spawn.Supervisor.{child_alive}
use crosspoint_simulator_mcp.Spawn.Supervisor.Overlaps.{begins, reaps}
use crosspoint_simulator_mcp.Mcp.Start.{StartRound, started_json, slept, register_loop}
use crosspoint_simulator_mcp.Mcp.Start.Registered.{fresh_snapshot, register_loop-registers}
use crosspoint_simulator_mcp.Tests.Channels.{channels, no_channels}
use crosspoint_simulator_mcp.Tests.Tools.{documents}
use crosspoint_simulator_mcp.Tests.Waits.{register_named}
use crosspoint_simulator_mcp.Tests.Spawns.{machine, server}
use crosspoint_simulator_mcp.Tests.Logged.{
  log_documents, log_documents-LogLaws, line, line_message, entry, until_ready, ready_there,
}

abbrev quiet : Instance
quiet = record entry { inbound = record { items = []; cap = 128 } }

abbrev connected : InstanceMap channels
connected = record (new channels no_channels) { inner = ("a", quiet) ∷ [] }

abbrev session : Session
session = record { id_for_loop = "a"; token = 1 }

abbrev arrival : Round
arrival = record {
  waited_ms = 0;
  meanwhile = numbers ∷ receives session (some (message line_message)) ∷ [];
}

abbrev later : Round
later = record { waited_ms = 50; meanwhile = [] }

not_matched : matches channels log_documents connected "a" until_ready none [] ≡ false
unfolding get crosspoint_simulator_mcp.Mcp.Until.observe_until_matched
not_matched = refl

quiet_there : Dict.lookup "a" (run channels connected (numbers ∷ [])).inner ≡ some quiet
unfolding run Dict.lookup step crosspoint_simulator_mcp.Instances.take_corr
quiet_there = refl

valid : is_valid_instance_id "a" ≡ true
unfolding is_valid_instance_id
valid = refl

observe_loop-notices_example :
    let s' =
      step channels
        (run channels connected (numbers ∷ []))
        (receives session (some (message line_message))) in
    let s'' = holding channels s' "a" (queuing channels quiet line_message) [] in
    observe_loop channels log_documents connected "a" until_ready 8000 none []
      (arrival ∷ later ∷ [])
    ≡ some (
      s'',
      ok (
          observe_result channels log_documents s'' "a"
            (shown channels log_documents [] (line_message ∷ []))
            true
            true
            false),
    )
unfolding crosspoint_simulator_mcp.State.inbound_visible
    crosspoint_simulator_mcp.Waiters.is_excluded
observe_loop-notices_example =
    observe_loop-notices channels log_documents log_documents-LogLaws connected until_ready 8000
      none [] arrival later [] (numbers ∷ []) session line_message line quiet "ready" refl refl
      not_matched refl refl quiet_there refl valid refl refl ready_there refl refl (omega arith)

abbrev hello : SimToServer
hello = record { seq = 1; corr = 0; payload = some (SimPayload.register (register_named "a")) }

-- Another task starts a simulator meanwhile.
abbrev dialled : StartRound machine
dialled = record {
  waited_ms = 0;
  meanwhile = numbers ∷ opens (some (message hello)) ∷ [];
  pending = "b" ∷ [];
  spawn_actions = reaps "b" ∷ begins "c" ∷ [];
}

abbrev looks_again : StartRound machine
looks_again = record { waited_ms = 100; meanwhile = []; pending = []; spawn_actions = [] }

alive : (child_alive machine server.spawn "a").1 ≡ true
unfolding child_alive Dict.lookup
alive = refl

absent : get channels server.instances "a" ≡ none
unfolding get Dict.lookup new
absent = refl

register_loop-registers_example :
    let server' =
      slept channels machine documents
        (record server { spawn = (child_alive machine server.spawn "a").0 })
        dialled in
    let snap =
      fresh_snapshot channels
        (run channels server.instances (numbers ∷ [])).next_token
        (register_named "a") in
    register_loop channels machine documents server "a" 4 true false (dialled ∷ looks_again ∷ [])
    ≡ some (server', ok (started_json channels machine documents snap 4 true false))
register_loop-registers_example =
    register_loop-registers channels machine documents server 4 true false dialled looks_again []
      (numbers ∷ []) hello (register_named "a") absent alive refl refl refl valid
