-- ===== src/Mcp/Requests.antt =====
-- crates/csm-proxy/src/mcp.rs: the helpers that every tool goes through, from the resolution of an
-- instance to a queued request or a reply. A call that waits is given a pause: what the other tasks do
-- meanwhile, and how long it waits. It has no result where the pause ends neither with an answer nor at
-- the timeout.
use crosspoint_simulator_mcp.Prelude.{
  ℕ, String, Bool, true, Option, none, some, List, [], ◌∷◌, Result, ok, err, leb, map_err,
}
use crosspoint_simulator_mcp.Messages.{SimToServer, ServerToSim, ServerPayload}
use crosspoint_simulator_mcp.Tokio.{Tokio}
use crosspoint_simulator_mcp.State.{
  InstanceMap, InstanceSnapshot, WaitKind, WaitError, TrySendError, ResolveError,
}
use crosspoint_simulator_mcp.Instances.{resolve_or_default, take_corr, try_send}
use crosspoint_simulator_mcp.Waiters.{send_start, send_finish}
use crosspoint_simulator_mcp.History.{Action, run}
use crosspoint_simulator_mcp.Json.{Value, bool, string, json, nat_json}

abbrev pub reply_timeout : ℕ
reply_timeout = 2000

pub record Pause : Type 0 where
  pub meanwhile : List Action
  pub waited_ms : ℕ

abbrev pub resolve_text : ResolveError → String
resolve_text ResolveError.empty_id =
    "instance_id is required (1-64 bytes) or set --default-instance"
resolve_text ResolveError.unknown_instance = "unknown instance"

abbrev pub send_text : TrySendError → String
send_text TrySendError.unknown_instance = "unknown instance"
send_text TrySendError.queue_full = "outbound queue is full"

abbrev pub wait_text : WaitError → String
wait_text WaitError.unknown_instance = "unknown instance"
wait_text WaitError.queue_full = "outbound queue is full"
wait_text WaitError.timeout = "timed out waiting for session reply"
wait_text WaitError.disconnected = "instance disconnected"

abbrev pub queued_json : String → ℕ → Value
queued_json id corr =
    json (("queued", bool true) ∷ ("instanceId", string id) ∷ ("corr", nat_json corr) ∷ [])

abbrev pub request : ℕ → Bool → ServerPayload → ServerToSim
request corr ack_requested payload = record {
  corr = corr;
  ack_requested = ack_requested;
  payload = payload;
}

module _ (t : Tokio) where
  unfoldable pub resolve : InstanceMap t → Option String → Result InstanceSnapshot String
  resolve s instance_id = map_err resolve_text (resolve_or_default t s instance_id)

  abbrev pub enqueued :
      InstanceMap t
      → String
      → ℕ
      → Result (InstanceMap t) TrySendError
      → InstanceMap t × Result Value String
  enqueued s id corr (ok s') = (s', ok (queued_json id corr))
  enqueued s id corr (err e) = (s, err (send_text e))

  -- The lines after the resolution.
  unfoldable pub enqueue_to :
      InstanceMap t → String → Bool → ServerPayload → InstanceMap t × Result Value String
  enqueue_to s id ack_requested payload =
      let (corr, s') = take_corr t s in
      enqueued s' id corr (try_send t s' id (request corr ack_requested payload))

  abbrev pub enqueue_resolved :
      InstanceMap t
      → Bool
      → ServerPayload
      → Result InstanceSnapshot String
      → InstanceMap t × Result Value String
  enqueue_resolved s ack_requested payload (err e) = (s, err e)
  enqueue_resolved s ack_requested payload (ok snap) =
      enqueue_to s snap.register.instance_id ack_requested payload

  unfoldable pub enqueue :
      InstanceMap t → Option String → Bool → ServerPayload → InstanceMap t × Result Value String
  enqueue s instance_id ack_requested payload =
      enqueue_resolved s ack_requested payload (resolve s instance_id)

  abbrev pub Reply : Type 0
  Reply = Result (String × ℕ × SimToServer) String

  abbrev pub replied :
      String
      → ℕ
      → Option (InstanceMap t × Result SimToServer WaitError)
      → Option (InstanceMap t × Reply)
  replied id corr none = none
  replied id corr (some (s, ok reply)) = some (s, ok (id, corr, reply))
  replied id corr (some (s, err e)) = some (s, err (wait_text e))

  -- The wait for an answer, after what happens meanwhile.
  abbrev pub paused :
      Pause → String → ℕ → ℕ → InstanceMap t × Result ℕ WaitError → Option (InstanceMap t × Reply)
  paused pause id corr timeout (s, err e) = some (s, err (wait_text e))
  paused pause id corr timeout (s, ok rx) =
      replied id corr
        (send_finish t (run t s pause.meanwhile) corr rx (leb timeout pause.waited_ms))

  unfoldable pub wait_for :
      InstanceMap t
      → Pause
      → String
      → Bool
      → ServerPayload
      → WaitKind
      → ℕ
      → Option (InstanceMap t × Reply)
  wait_for s pause id ack_requested payload kind timeout =
      let (corr, s') = take_corr t s in
      paused pause id corr timeout (send_start t s' id (request corr ack_requested payload) kind)

  abbrev pub wait_resolved :
      InstanceMap t
      → Pause
      → Bool
      → ServerPayload
      → WaitKind
      → ℕ
      → Result InstanceSnapshot String
      → Option (InstanceMap t × Reply)
  wait_resolved s pause ack_requested payload kind timeout (err e) = some (s, err e)
  wait_resolved s pause ack_requested payload kind timeout (ok snap) =
      wait_for s pause snap.register.instance_id ack_requested payload kind timeout

  unfoldable pub enqueue_wait :
      InstanceMap t
      → Pause
      → Option String
      → Bool
      → ServerPayload
      → WaitKind
      → ℕ
      → Option (InstanceMap t × Reply)
  enqueue_wait s pause instance_id ack_requested payload kind timeout =
      wait_resolved s pause ack_requested payload kind timeout (resolve s instance_id)
