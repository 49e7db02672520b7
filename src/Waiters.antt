-- ===== src/Waiters.antt =====
-- InstanceMap of crates/csm-proxy/src/instances.rs: the waiters for replies, the inbound path that
-- completes them, and the removal of an instance, which fails them.
pub mod Wired
pub mod Reply
pub mod Disconnect
pub mod Frame
pub mod Progress
use crosspoint_simulator_mcp.Prelude.{
  ℕ, String, Bool, true, false, not, Option, none, some, List, [], ◌∷◌, ◌==◌, string_eq, nat_eq,
  any, filter, map, if◌then◌else◌, Result, ok, err, is_some,
}
use crosspoint_simulator_mcp.Prelude.Dict
use crosspoint_simulator_mcp.Messages.{SimToServer, ServerToSim, SimPayload}
use crosspoint_simulator_mcp.Queue.{push}
use crosspoint_simulator_mcp.Tokio.{Tokio, Poll}
use crosspoint_simulator_mcp.State.{
  Instance, InstanceMap, WaitKind, WaitError, TrySendError, inbound_visible,
}
use crosspoint_simulator_mcp.Instances.{get, try_send, owns, drop_instance}

unfoldable pub payload_matches : WaitKind → Option SimPayload → Bool
payload_matches WaitKind.any_reply payload = true
payload_matches WaitKind.input_ack (some (SimPayload.input_ack _)) = true
payload_matches WaitKind.input_ack _ = false
payload_matches WaitKind.ui_result (some (SimPayload.ui_result _)) = true
payload_matches WaitKind.ui_result (some (SimPayload.input_ack ack)) = not ack.accepted
payload_matches WaitKind.ui_result _ = false
payload_matches WaitKind.snapshot (some (SimPayload.snapshot _)) = true
payload_matches WaitKind.snapshot (some (SimPayload.snapshot_error _)) = true
payload_matches WaitKind.snapshot _ = false

unfoldable pub waiter_matches : WaitKind → SimToServer → Bool
unfolding payload_matches
waiter_matches kind msg = payload_matches kind msg.payload

unfoldable pub is_excluded : List String → Option SimPayload → Bool
is_excluded components (some (SimPayload.log line)) =
    any (λ component. component == line.component) components
is_excluded components _ = false

-- The waiter that a message completes.
abbrev pub completed : Option (WaitKind × ℕ) → SimToServer → Option ℕ
completed none msg = none
completed (some (kind, tx)) msg = if waiter_matches kind msg then some tx else none

unfoldable pub corrs_of : String → List (ℕ × String) → List ℕ
corrs_of instance_id entries = map (λ e. e.0) (filter (λ e. e.1 == instance_id) entries)

module _ (t : Tokio) where
  -- A sender that leaves the table is dropped.
  abbrev pub drop_waiter : Option (WaitKind × ℕ) → t.Net → t.Net
  drop_waiter none net = net
  drop_waiter (some (kind, tx)) net = t.oneshot_drop tx net

  unfoldable pub register_waiter : InstanceMap t → String → ℕ → WaitKind → InstanceMap t × ℕ
  register_waiter s instance_id corr kind = (
    record s {
      waiters = Dict.insert corr (kind, t.created s.net) s.waiters;
      waiter_instance = Dict.insert corr instance_id s.waiter_instance;
      net = drop_waiter (Dict.lookup corr s.waiters) (t.oneshot_channel s.net);
    },
    t.created s.net,
  )

  -- Every caller drops the sender that `take_waiter` returns.
  unfoldable pub take_waiter : InstanceMap t → ℕ → InstanceMap t
  take_waiter s corr = record s {
    waiter_instance = Dict.remove corr s.waiter_instance;
    waiters = Dict.remove corr s.waiters;
    net = drop_waiter (Dict.lookup corr s.waiters) s.net;
  }

  unfoldable pub complete_waiter : InstanceMap t → SimToServer → InstanceMap t
  complete_waiter s msg =
      if msg.corr == 0 then s else elim (completed (Dict.lookup msg.corr s.waiters) msg) [
        | none ↦ s
        | some tx ↦ record s {
          waiters = Dict.remove msg.corr s.waiters;
          waiter_instance = Dict.remove msg.corr s.waiter_instance;
          net = t.oneshot_send tx msg s.net;
        }
      ]

  unfoldable pub take_waiters : InstanceMap t → List ℕ → InstanceMap t
  take_waiters s [] = s
  take_waiters s (corr ∷ corrs) = take_waiters (take_waiter s corr) corrs

  unfoldable pub fail_waiters : InstanceMap t → String → InstanceMap t
  fail_waiters s instance_id = take_waiters s (corrs_of instance_id s.waiter_instance)

  -- The part of `remove_if` under the lock of the table.
  unfoldable pub remove_instance : InstanceMap t → String → InstanceMap t
  remove_instance s instance_id = record s {
    inner = Dict.remove instance_id s.inner;
    net = drop_instance t (Dict.lookup instance_id s.inner) s.net;
  }

  unfoldable pub remove_if : InstanceMap t → String → ℕ → InstanceMap t
  remove_if s instance_id token =
      if owns t s instance_id token
      then fail_waiters (remove_instance s instance_id) instance_id
      else s

  -- The queue of an instance takes a message that its view shows.
  unfoldable pub deliver : InstanceMap t → String → SimToServer → Instance → InstanceMap t
  unfolding is_excluded
  deliver s instance_id msg inst =
      if not (inbound_visible inst.read_mask msg)
      then s
      else if is_excluded inst.exclude_log_components msg.payload
      then s
      else record s {
        inner = Dict.insert instance_id (record inst { inbound = push inst.inbound msg }) s.inner;
      }

  abbrev pub deliver_to : InstanceMap t → String → SimToServer → Option Instance → InstanceMap t
  deliver_to s instance_id msg none = s
  deliver_to s instance_id msg (some inst) = deliver s instance_id msg inst

  unfoldable pub push_inbound : InstanceMap t → String → SimToServer → InstanceMap t
  push_inbound s instance_id msg =
      let s' = complete_waiter s msg in
      deliver_to s' instance_id msg (Dict.lookup instance_id s'.inner)

  abbrev pub started :
      InstanceMap t
      → ℕ
      → ℕ
      → Result (InstanceMap t) TrySendError
      → InstanceMap t × Result ℕ WaitError
  started s corr rx (ok s') = (s', ok rx)
  started s corr rx (err TrySendError.unknown_instance) =
      (take_waiter s corr, err WaitError.unknown_instance)
  started s corr rx (err TrySendError.queue_full) = (take_waiter s corr, err WaitError.queue_full)

  -- `send_and_wait_for` up to its await: the handle of the receiver, or the early error.
  unfoldable pub send_start :
      InstanceMap t → String → ServerToSim → WaitKind → InstanceMap t × Result ℕ WaitError
  unfolding get
  send_start s instance_id msg kind =
      if not (is_some (get t s instance_id))
      then (s, err WaitError.unknown_instance)
      else let (s', rx) = register_waiter s instance_id msg.corr kind in
        started s' msg.corr rx (try_send t s' instance_id msg)

  abbrev pub awaited :
      InstanceMap t → ℕ → Bool → Poll → Option (InstanceMap t × Result SimToServer WaitError)
  awaited s corr elapsed (Poll.value reply) = some (s, ok reply)
  awaited s corr elapsed Poll.closed = some (s, err WaitError.disconnected)
  awaited s corr false Poll.pending = none
  awaited s corr true Poll.pending = some (take_waiter s corr, err WaitError.timeout)

  -- The await: `elapsed` says whether the timeout has passed, and none that the wait goes on. A reply
  -- that is there when the timeout passes is taken.
  unfoldable pub send_finish :
      InstanceMap t → ℕ → ℕ → Bool → Option (InstanceMap t × Result SimToServer WaitError)
  send_finish s corr rx elapsed = awaited s corr elapsed (t.poll rx s.net)
