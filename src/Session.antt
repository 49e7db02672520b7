-- ===== src/Session.antt =====
-- SessionService of crates/csm-proxy/src/session.rs: the first message opens a session, and the read loop
-- takes the others one by one. The stream of requests is the sequence of items that it yields, with
-- none for its end.
pub mod Ownership
pub mod Loop
use crosspoint_simulator_mcp.Prelude.{
  ℕ, String, Bool, true, false, not, Option, none, some, List, [], ◌∷◌, if◌then◌else◌, Result, ok,
  err,
}
use crosspoint_simulator_mcp.Messages.{Register, SimToServer, SimPayload}
use crosspoint_simulator_mcp.Tokio.{Tokio}
use crosspoint_simulator_mcp.State.{InstanceMap, is_valid_instance_id, queue_capacity}
use crosspoint_simulator_mcp.Instances.{insert, owns, set_heartbeat}
use crosspoint_simulator_mcp.Waiters.{push_inbound, remove_if}

pub data ConnectError : Type 0 where
  inbound_failed : ConnectError
  invalid_argument : String → ConnectError

-- An item of the request stream: a message, or an error of the transport.
pub data Item : Type 0 where
  message : SimToServer → Item
  failed : Item

-- What the read loop of a session holds.
pub record Session : Type 0 where
  pub id_for_loop : String
  pub token : ℕ

unfoldable pub register_of : Option SimPayload → Result Register ConnectError
register_of (some (SimPayload.register register)) = ok register
register_of _ = err (invalid_argument "first session message must be Register")

-- The identity that the first item of the stream registers, or the refusal.
unfoldable pub first_register : Option Item → Result Register ConnectError
unfolding register_of is_valid_instance_id
first_register none = err (invalid_argument "session opened with no messages")
first_register (some failed) = err inbound_failed
first_register (some (message first)) = elim (register_of first.payload) [
  | err e ↦ err e
  | ok register ↦
      if not (is_valid_instance_id register.instance_id)
      then err (invalid_argument "instance_id must be 1-64 bytes")
      else ok register
]

module _ (t : Tokio) where
  -- A registered session: its queues, its entry in the table and its token.
  unfoldable pub register_session : InstanceMap t → Register → InstanceMap t × Session
  register_session s register =
      let (outbound_tx, net) = t.mpsc_channel queue_capacity s.net in
      let (s', token) = insert t (record s { net = net }) register queue_capacity outbound_tx in
      (s', record { id_for_loop = register.instance_id; token = token })

  unfoldable pub open_session :
      InstanceMap t → Option Item → Result (InstanceMap t × Session) ConnectError
  open_session s first = elim (first_register first) [
    | err e ↦ err e
    | ok register ↦ ok (register_session s register)
  ]

  -- The last lines of the task, after its loop.
  unfoldable pub close_session : InstanceMap t → Session → InstanceMap t
  close_session s session = remove_if t s session.id_for_loop session.token

  -- The `match` of the loop. The flag says whether the loop goes on.
  unfoldable pub receive_payload :
      InstanceMap t → Session → SimToServer → Option SimPayload → InstanceMap t × Bool
  receive_payload s session owned (some (SimPayload.heartbeat heartbeat)) = (
    push_inbound t (set_heartbeat t s session.id_for_loop session.token heartbeat)
        session.id_for_loop owned,
    true,
  )
  receive_payload s session owned (some (SimPayload.goodbye _)) = (
    close_session
        (remove_if t (push_inbound t s session.id_for_loop owned) session.id_for_loop session.token)
        session,
    false,
  )
  receive_payload s session owned _ = (push_inbound t s session.id_for_loop owned, true)

  -- One round of the loop, with the lines after the loop where it ends.
  unfoldable pub receive : InstanceMap t → Session → Option Item → InstanceMap t × Bool
  receive s session none = (close_session s session, false)
  receive s session (some item) =
      if not (owns t s session.id_for_loop session.token)
      then (close_session s session, false)
      else elim item [
        | failed ↦ (close_session s session, false)
        | message owned ↦ receive_payload s session owned owned.payload
      ]
