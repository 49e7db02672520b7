-- ===== src/Tests/Answered.antt =====
-- A reply that comes in while other steps are taken.
use crosspoint_simulator_mcp.Prelude.{
  ◌≡◌, ◌≢◌, ◌⊎◌, refl, true, some, List, [], ◌∷◌, arith, ok, string_eq, nat_eq,
}
use crosspoint_simulator_mcp.Prelude.Dict
use crosspoint_simulator_mcp.Tokio.{pending}
use crosspoint_simulator_mcp.State.{InstanceMap, WaitKind}
use crosspoint_simulator_mcp.Instances.{new, owns}
use crosspoint_simulator_mcp.Waiters.{send_start, send_finish, waiter_matches}
use crosspoint_simulator_mcp.Session.{message, Session}
use crosspoint_simulator_mcp.History.{Action, receives, numbers, finishes, run}
use crosspoint_simulator_mcp.History.Waits.{run-IsSound}
use crosspoint_simulator_mcp.History.Answered.{send_start-answered}
use crosspoint_simulator_mcp.Tests.Channels.{channels, channels-TokioLaws, no_channels}
use crosspoint_simulator_mcp.Tests.Queue.{ack_of}
use crosspoint_simulator_mcp.Tests.Waits.{script, ask}

abbrev waits : InstanceMap channels
waits = run channels (new channels no_channels) script

abbrev asked : InstanceMap channels
asked = (send_start channels waits "a" (ask 3) WaitKind.any_reply).0

abbrev meanwhile : List Action
meanwhile = numbers ∷ finishes 1 0 true ∷ []

abbrev session : Session
session = record { id_for_loop = "a"; token = 1 }

abbrev others : List Action
others = receives session (some (message (ack_of 2))) ∷ []

asks : (send_start channels waits "a" (ask 3) WaitKind.any_reply).1 ≡ ok 2
unfolding send_start Dict.lookup run crosspoint_simulator_mcp.History.step
    crosspoint_simulator_mcp.Session.open_session crosspoint_simulator_mcp.Session.first_register
    crosspoint_simulator_mcp.Session.register_session crosspoint_simulator_mcp.Instances.insert
    Dict.insert new crosspoint_simulator_mcp.Instances.try_send
    crosspoint_simulator_mcp.Waiters.register_waiter
asks = refl

session_owns : owns channels (run channels asked meanwhile) "a" 1 ≡ true
unfolding owns Dict.lookup run crosspoint_simulator_mcp.History.step send_finish
    crosspoint_simulator_mcp.Instances.take_corr send_start
    crosspoint_simulator_mcp.Session.open_session crosspoint_simulator_mcp.Session.first_register
    crosspoint_simulator_mcp.Session.register_session crosspoint_simulator_mcp.Instances.insert
    Dict.insert new crosspoint_simulator_mcp.Instances.try_send
    crosspoint_simulator_mcp.Waiters.register_waiter crosspoint_simulator_mcp.Waiters.take_waiter
session_owns = refl

send_start-answered_example :
    let s₁ = run channels asked meanwhile in
    let s₂ = run channels s₁ (receives session (some (message (ack_of 3))) ∷ others) in
    (channels.poll 2 s₁.net ≢ pending)
    ⊎ (send_finish channels s₂ 3 2 true ≡ some (s₂, ok (ack_of 3)))
unfolding waiter_matches
send_start-answered_example =
    send_start-answered channels channels-TokioLaws waits "a" (ask 3) WaitKind.any_reply 2 meanwhile
      others session (ack_of 3) true (run-IsSound channels channels-TokioLaws no_channels script)
      asks session_owns refl (omega arith) refl
