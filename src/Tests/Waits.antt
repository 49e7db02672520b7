-- ===== src/Tests/Waits.antt =====
-- Two instances, one call that waits for each.
use crosspoint_simulator_mcp.Prelude.{
  ℕ, ◌≡◌, ◌≢◌, ◌⊎◌, refl, String, true, false, Option, none, some, List, [], ◌∷◌, arith, ok, err,
  is_some, inl, string_eq, nat_eq,
}
use crosspoint_simulator_mcp.Prelude.Dict
use crosspoint_simulator_mcp.Messages.{ServerToSim, ServerPayload, SimPayload, Register}
use crosspoint_simulator_mcp.Tokio.{pending}
use crosspoint_simulator_mcp.State.{InstanceMap, WaitKind, WaitError}
use crosspoint_simulator_mcp.Instances.{new, owns, insert, new_instance}
use crosspoint_simulator_mcp.Waiters.{
  push_inbound, send_start, send_finish, remove_if, take_waiter, waiter_matches, register_waiter,
}
use crosspoint_simulator_mcp.Waiters.Reply.{push_inbound-answers, push_inbound-keeps}
use crosspoint_simulator_mcp.Waiters.Disconnect.{remove_if-disconnects}
use crosspoint_simulator_mcp.Session.{Item, message, Session}
use crosspoint_simulator_mcp.History.{Action, opens, sends, receives, finishes, run, step}
use crosspoint_simulator_mcp.History.Steps.{IsSound}
use crosspoint_simulator_mcp.History.Waits.{run-IsSound, send_start-run}
use crosspoint_simulator_mcp.History.Registry.{run-IsRegistry}
use crosspoint_simulator_mcp.History.Insertion.{IsRegistry}
use crosspoint_simulator_mcp.History.Numbered.{Numbered, starts, takes, waits, goes_on}
use crosspoint_simulator_mcp.History.Numbered.Apart.{send_start-apart}
use crosspoint_simulator_mcp.Instances.{take_corr}
use crosspoint_simulator_mcp.Prelude.{◌<◌}
use crosspoint_simulator_mcp.Tests.Channels.{channels, channels-TokioLaws, no_channels}
use crosspoint_simulator_mcp.Tests.Queue.{ack_of}

abbrev pub register_named : String → Register
register_named id = record {
  instance_id = id;
  board_id = "x4";
  controller = "c";
  width = 480;
  height = 800;
  cap_touch = true;
  cap_home = false;
  cap_frontlight = false;
  pid = 7;
  version = "1";
}

abbrev pub hello : String → Option Item
hello id = some (
    message
      (record { seq = 1; corr = 0; payload = some (SimPayload.register (register_named id)) }))

abbrev pub ask : ℕ → ServerToSim
ask corr = record { corr = corr; ack_requested = true; payload = ServerPayload.inject_home 0 }

abbrev pub script : List Action
script =
    opens (hello "a")
    ∷ opens (hello "b")
    ∷ sends "a" (ask 1) WaitKind.input_ack
    ∷ sends "b" (ask 2) WaitKind.any_reply
    ∷ []

two_waits : InstanceMap channels
two_waits = run channels (new channels no_channels) script

two_waits-IsSound : IsSound channels two_waits
unfolding two_waits
two_waits-IsSound = run-IsSound channels channels-TokioLaws no_channels script

waiter_1 : Dict.lookup 1 two_waits.waiters ≡ some (WaitKind.input_ack, 0)
unfolding two_waits run step new Dict.lookup send_start
    crosspoint_simulator_mcp.Session.open_session crosspoint_simulator_mcp.Session.first_register
    crosspoint_simulator_mcp.Session.register_session insert Dict.insert
    crosspoint_simulator_mcp.Instances.try_send register_waiter
waiter_1 = refl

waiter_2 : Dict.lookup 2 two_waits.waiters ≡ some (WaitKind.any_reply, 1)
unfolding two_waits run step new Dict.lookup send_start
    crosspoint_simulator_mcp.Session.open_session crosspoint_simulator_mcp.Session.first_register
    crosspoint_simulator_mcp.Session.register_session insert Dict.insert
    crosspoint_simulator_mcp.Instances.try_send register_waiter
waiter_2 = refl

whose_2 : Dict.lookup 2 two_waits.waiter_instance ≡ some "b"
unfolding two_waits run step new Dict.lookup send_start
    crosspoint_simulator_mcp.Session.open_session crosspoint_simulator_mcp.Session.first_register
    crosspoint_simulator_mcp.Session.register_session insert Dict.insert
    crosspoint_simulator_mcp.Instances.try_send register_waiter
whose_2 = refl

owner_a : owns channels two_waits "a" 1 ≡ true
unfolding two_waits run step new owns Dict.lookup send_start
    crosspoint_simulator_mcp.Session.open_session crosspoint_simulator_mcp.Session.first_register
    crosspoint_simulator_mcp.Session.register_session insert Dict.insert
    crosspoint_simulator_mcp.Instances.try_send register_waiter
owner_a = refl

push_inbound-answers_example :
    (send_finish channels (push_inbound channels two_waits "b" (ack_of 1)) 1 0 true
      ≡ some (push_inbound channels two_waits "b" (ack_of 1), ok (ack_of 1)))
    × (Dict.lookup 1 (push_inbound channels two_waits "b" (ack_of 1)).waiters ≡ none)
unfolding waiter_matches
push_inbound-answers_example =
    push_inbound-answers channels channels-TokioLaws two_waits "b" (ack_of 1) WaitKind.input_ack 0
      true two_waits-IsSound.wired (omega arith) waiter_1 refl

push_inbound-keeps_example :
    (Dict.lookup 2 (push_inbound channels two_waits "b" (ack_of 1)).waiters
      ≡ some (WaitKind.any_reply, 1))
    × (channels.poll 1 (push_inbound channels two_waits "b" (ack_of 1)).net ≡ pending)
push_inbound-keeps_example =
    push_inbound-keeps channels channels-TokioLaws two_waits "b" (ack_of 1) 2 WaitKind.any_reply 1
      two_waits-IsSound.wired waiter_2 (inl (omega arith))

remove_if-disconnects_example :
    (send_finish channels (remove_if channels two_waits "a" 1) 2 1 false ≡ none)
    × (send_finish channels (remove_if channels two_waits "a" 1) 2 1 true
        ≡ some (take_waiter channels (remove_if channels two_waits "a" 1) 2, err WaitError.timeout))
remove_if-disconnects_example =
    remove_if-disconnects channels channels-TokioLaws two_waits "a" 1 2 WaitKind.any_reply 1 "b"
      two_waits-IsSound.wired owner_a waiter_2 whose_2

run-IsSound_example : IsSound channels (run channels (new channels no_channels) script)
run-IsSound_example = run-IsSound channels channels-TokioLaws no_channels script

abbrev later : List Action
later = finishes 3 2 false ∷ receives (record { id_for_loop = "a"; token = 1 }) none ∷ []

start_3 : (send_start channels two_waits "a" (ask 3) WaitKind.snapshot).1 ≡ ok 2
unfolding two_waits run step new send_start Dict.lookup
    crosspoint_simulator_mcp.Session.open_session crosspoint_simulator_mcp.Session.first_register
    crosspoint_simulator_mcp.Session.register_session insert Dict.insert
    crosspoint_simulator_mcp.Instances.try_send register_waiter
start_3 = refl

send_start-run_example :
    let s' = run channels (send_start channels two_waits "a" (ask 3) WaitKind.snapshot).0 later in
    (channels.poll 2 s'.net ≢ pending)
    ⊎ ((Dict.lookup 3 s'.waiters ≡ some (WaitKind.snapshot, 2))
        × (Dict.lookup 3 s'.waiter_instance ≡ some "a")
        × (is_some (Dict.lookup "a" s'.inner) ≡ true))
send_start-run_example =
    send_start-run channels channels-TokioLaws two_waits "a" (ask 3) WaitKind.snapshot 2 later
      two_waits-IsSound start_3

run-IsRegistry_example : IsRegistry channels (run channels (new channels no_channels) script)
run-IsRegistry_example = run-IsRegistry channels no_channels script (omega arith)

-- Two corrs are taken, and the call with the first one waits.
abbrev both_open : InstanceMap channels
both_open =
    step channels (step channels (new channels no_channels) (opens (hello "a"))) (opens (hello "b"))

abbrev one_taken : InstanceMap channels
one_taken = (take_corr channels both_open).1

abbrev two_taken : InstanceMap channels
two_taken = (take_corr channels one_taken).1

abbrev one_waits : InstanceMap channels
one_waits = (send_start channels two_taken "a" (ask 1) WaitKind.input_ack).0

one_waits-Numbered : Numbered channels one_waits (2 ∷ [])
unfolding take_corr step new insert crosspoint_simulator_mcp.Session.open_session
    crosspoint_simulator_mcp.Session.first_register
    crosspoint_simulator_mcp.Session.register_session
one_waits-Numbered = waits two_taken (2 ∷ 1 ∷ []) "a" (ask 1) WaitKind.input_ack refl (
    takes one_taken (1 ∷ []) (omega arith) (
      takes both_open [] (omega arith) (
        goes_on (step channels (new channels no_channels) (opens (hello "a"))) []
          (opens (hello "b")) tt
          (goes_on (new channels no_channels) [] (opens (hello "a")) tt (starts no_channels)))))

first_waits : Dict.lookup 1 one_waits.waiters ≡ some (WaitKind.input_ack, 0)
unfolding Dict.lookup send_start take_corr step crosspoint_simulator_mcp.Session.open_session
    crosspoint_simulator_mcp.Session.first_register
    crosspoint_simulator_mcp.Session.register_session insert Dict.insert new
    crosspoint_simulator_mcp.Instances.try_send register_waiter
first_waits = refl

send_start-apart_example :
    (0 < 2)
    × (Dict.lookup 1 (send_start channels one_waits "b" (ask 2) WaitKind.any_reply).0.waiters
        ≡ some (WaitKind.input_ack, 0))
send_start-apart_example =
    send_start-apart channels one_waits (2 ∷ []) "b" (ask 2) WaitKind.any_reply 1
      (WaitKind.input_ack, 0) one_waits-Numbered refl first_waits
