-- ===== src/Tests/Calls.antt =====
-- The inject tools and the batch on two connected instances.
use crosspoint_simulator_mcp.Prelude.{
  ℕ, ◌≡◌, refl, String, true, false, none, some, [], ◌∷◌, ok, err, string_eq, nat_eq,
}
use crosspoint_simulator_mcp.Prelude.Dict
use crosspoint_simulator_mcp.Messages.{ServerPayload}
use crosspoint_simulator_mcp.Queue.{push}
use crosspoint_simulator_mcp.State.{is_valid_instance_id, WaitKind, InstanceMap, inbound_visible}
use crosspoint_simulator_mcp.Instances.{
  new, owns, resolve_or_default, get, insert, take_corr, try_send,
}
use crosspoint_simulator_mcp.Waiters.{
  send_start, register_waiter, push_inbound, complete_waiter, waiter_matches, deliver, send_finish,
}
use crosspoint_simulator_mcp.Session.{
  open_session, first_register, register_session, receive_payload, message, receive,
}
use crosspoint_simulator_mcp.History.{receives, numbers, enqueues, sends, run, step}
use crosspoint_simulator_mcp.Json.{Value}
use crosspoint_simulator_mcp.Mcp.Requests.{
  Pause, resolve, enqueue, enqueue_to, enqueue_wait, wait_for, request, queued_json,
}
use crosspoint_simulator_mcp.Mcp.Inject.{Waiting, inject, inject_reply, acked_json}
use crosspoint_simulator_mcp.Mcp.Inject.Outcome.{Accepted, inject-Accepted}
use crosspoint_simulator_mcp.Mcp.Batch.{
  InjectBatchStep, run_step, inject_batch_json, result_json, error_json, stopped_json,
}
use crosspoint_simulator_mcp.Mcp.Batch.Stops.{Succeeds, finished, succeeds, inject_batch_json-stops}
use crosspoint_simulator_mcp.Tests.Channels.{channels}
use crosspoint_simulator_mcp.Tests.Queue.{ack_of}
use crosspoint_simulator_mcp.Tests.Tools.{connected, snap_a, resolved_a}

-- A wait that nothing interrupts, to its timeout.
abbrev pub quiet : Pause
quiet = record { meanwhile = []; waited_ms = 2000 }

abbrev pub pauses : ℕ → Pause
pauses index = quiet

abbrev pub no_wait : Waiting
no_wait = record { wait = false; wait_mode = none; space = none; wait_ms = none }

abbrev pub waits : Waiting
waits = record { wait = true; wait_mode = some "ack"; space = none; wait_ms = none }

abbrev pub step_of : String → InjectBatchStep
step_of kind = record {
  kind = kind;
  x = 1;
  y = 2;
  touch_kind = none;
  name = none;
  hold_ms = 0;
  start_x = 0;
  start_y = 0;
  end_x = 0;
  end_y = 0;
  duration_ms = 0;
  wait = none;
  wait_mode = none;
  space = none;
  wait_ms = none;
}

abbrev pub home : ServerPayload
home = ServerPayload.inject_home 0

abbrev pub answered_by : Pause
answered_by = record {
  meanwhile = receives (record { id_for_loop = "a"; token = 1 }) (some (message (ack_of 1))) ∷ [];
  waited_ms = 5;
}

unfoldable pub after_home : InstanceMap channels
after_home =
    run channels connected
      (numbers ∷ sends "a" (request 1 true home) WaitKind.any_reply ∷ answered_by.meanwhile)

abbrev pub acked : Value
acked = acked_json "a" 1 none

pub home_runs :
    inject channels connected answered_by (some "a") waits home ≡ some (after_home, ok acked)
unfolding connected resolve resolve_or_default is_valid_instance_id Dict.lookup run step
    open_session first_register register_session insert Dict.insert new take_corr after_home inject
    enqueue_wait wait_for send_start try_send register_waiter receive receive_payload push_inbound
    complete_waiter waiter_matches owns deliver send_finish get Dict.remove push inbound_visible
    inject_reply
home_runs = refl

inject-Accepted_example : Accepted channels after_home acked
inject-Accepted_example =
    inject-Accepted channels connected after_home answered_by (some "a") waits home acked refl
      home_runs

queued_home : InstanceMap channels
queued_home = run channels connected (numbers ∷ enqueues "a" (request 1 false home) ∷ [])

home_queued :
    run_step channels connected quiet "a" no_wait (step_of "home")
    ≡ some (queued_home, ok (queued_json "a" 1))
unfolding connected resolve resolve_or_default is_valid_instance_id Dict.lookup run step
    open_session first_register register_session insert Dict.insert new take_corr queued_home
    run_step inject enqueue enqueue_to try_send
home_queued = refl

dance_fails :
    run_step channels queued_home quiet "a" no_wait (step_of "dance")
    ≡ some (queued_home, err "unknown inject_batch step kind: dance")
unfolding connected queued_home run_step
dance_fails = refl

home-Succeeds :
    Succeeds channels pauses "a" no_wait connected 0
      (step_of "home" ∷ [])
      queued_home
      (result_json 0 (queued_json "a" 1) ∷ [])
home-Succeeds =
    succeeds connected queued_home queued_home 0 (step_of "home") [] (queued_json "a" 1) []
      home_queued (finished queued_home 1)

inject_batch_json-stops_example :
    inject_batch_json channels connected pauses
      (some "a")
      no_wait
      (step_of "home" ∷ step_of "dance" ∷ step_of "key" ∷ [])
    ≡ some (
      queued_home,
      ok (
          stopped_json "a" 1 "unknown inject_batch step kind: dance" (
            result_json 0 (queued_json "a" 1)
            ∷ error_json 1 "unknown inject_batch step kind: dance"
            ∷ [])),
    )
inject_batch_json-stops_example =
    inject_batch_json-stops channels pauses no_wait connected queued_home queued_home (some "a")
      snap_a (step_of "home" ∷ []) (step_of "key" ∷ []) (step_of "dance")
      (result_json 0 (queued_json "a" 1) ∷ []) "unknown inject_batch step kind: dance" resolved_a
      home-Succeeds dance_fails
