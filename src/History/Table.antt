-- ===== src/History/Table.antt =====
-- The steps of crates/csm-proxy that open no session keep the entries of the table.
use crosspoint_simulator_mcp.Prelude.{
  ℕ, ◌≡◌, refl, String, Bool, true, false, Option, none, some, List, [], ◌∷◌, string_eq, nat_eq,
  is_some, arith, Bool-cases, inl, inr, Result, ok, err,
}
use crosspoint_simulator_mcp.Prelude.Dict
use crosspoint_simulator_mcp.Prelude.Dict.{lookup-insert, lookup-remove}
use crosspoint_simulator_mcp.Messages.{SimToServer, ServerToSim, SimPayload}
use crosspoint_simulator_mcp.Tokio.{Tokio, Poll, pending, value, closed}
use crosspoint_simulator_mcp.State.{Instance, InstanceMap, WaitKind, TrySendError}
use crosspoint_simulator_mcp.Instances.{get, try_send, owns, sent, send_to}
use crosspoint_simulator_mcp.Waiters.{
  take_waiter, take_waiters, register_waiter, remove_instance, remove_if, fail_waiters, send_start,
  started, send_finish, awaited,
}
use crosspoint_simulator_mcp.Session.{
  Session, Item, message, failed, receive, receive_payload, close_session,
}
use crosspoint_simulator_mcp.History.{
  Action, opens, receives, sends, finishes, enqueues, drains, masks, excludes, numbers, defaults,
  step, after_finish, after_send,
}
use crosspoint_simulator_mcp.History.Entries.{
  Keeps, Keeps-refl, Keeps-trans, same_inner, push_inbound-Keeps, set_heartbeat-Keeps,
  set_read_mask-Keeps, set_exclude_log_components-Keeps, try_recv_inbound-Keeps, take_corr-Keeps,
  SameSession-refl,
}

module _ (t : Tokio) where
  take_waiter-Keeps : (s : InstanceMap t) (c : ℕ) → Keeps t s (take_waiter t s c)
  unfolding take_waiter
  take_waiter-Keeps s c = same_inner t s _ refl refl refl

  take_waiters-Keeps : (s : InstanceMap t) (cs : List ℕ) → Keeps t s (take_waiters t s cs)
  unfolding take_waiters
  take_waiters-Keeps s [] = Keeps-refl t s
  take_waiters-Keeps s (c ∷ cs) =
      Keeps-trans t (take_waiter-Keeps s c) (take_waiters-Keeps (take_waiter t s c) cs)

  remove_instance-Keeps : (s : InstanceMap t) (id : String) → Keeps t s (remove_instance t s id)
  unfolding remove_instance
  remove_instance-Keeps s id = record {
    next_token = refl;
    default_instance = refl;
    entry = λ k j e. (j, ground (arith, lookup-remove id k s.inner), SameSession-refl j);
  }

  remove_if-Keeps :
      (s : InstanceMap t) (id : String) (token : ℕ) → Keeps t s (remove_if t s id token)
  unfolding remove_if fail_waiters
  remove_if-Keeps s id token = elim (Bool-cases (owns t s id token)) [
    | inl e ↦
        rw e (
          Keeps-trans t (remove_instance-Keeps s id)
            (take_waiters-Keeps (remove_instance t s id) _))
    | inr e ↦ rw e (Keeps-refl t s)
  ]

  sent-Keeps : (s s' : InstanceMap t) (net : Option t.Net) → sent t s net ≡ ok s' → Keeps t s s'
  sent-Keeps s s' none h = cc
  sent-Keeps s s' (some net) h =
      let same : record s { net = net } ≡ s' = ground (arith, h) in
      rw (← same) (same_inner t s _ refl refl refl)

  send_to-Keeps :
      (s s' : InstanceMap t) (msg : ServerToSim) (inst : Option Instance)
      → send_to t s msg inst ≡ ok s'
      → Keeps t s s'
  send_to-Keeps s s' msg none h = cc
  send_to-Keeps s s' msg (some inst) h = sent-Keeps s s' (t.try_send inst.outbound_tx msg s.net) h

  try_send-Keeps :
      (s s' : InstanceMap t) (id : String) (msg : ServerToSim)
      → try_send t s id msg ≡ ok s'
      → Keeps t s s'
  unfolding try_send
  try_send-Keeps s s' id msg h = send_to-Keeps s s' msg (Dict.lookup id s.inner) h

  started-Keeps :
      (s : InstanceMap t) (id : String) (msg : ServerToSim) (rx : ℕ)
      (r : Result (InstanceMap t) TrySendError)
      → try_send t s id msg ≡ r
      → Keeps t s (started t s msg.corr rx r).0
  started-Keeps s id msg rx (ok s') e = try_send-Keeps s s' id msg e
  started-Keeps s id msg rx (err TrySendError.unknown_instance) e = take_waiter-Keeps s msg.corr
  started-Keeps s id msg rx (err TrySendError.queue_full) e = take_waiter-Keeps s msg.corr

  register_waiter-Keeps :
      (s : InstanceMap t) (id : String) (corr : ℕ) (kind : WaitKind)
      → Keeps t s (register_waiter t s id corr kind).0
  unfolding register_waiter
  register_waiter-Keeps s id corr kind = same_inner t s _ refl refl refl

  send_start-Keeps :
      (s : InstanceMap t) (id : String) (msg : ServerToSim) (kind : WaitKind)
      → Keeps t s (send_start t s id msg kind).0
  unfolding send_start
  send_start-Keeps s id msg kind = elim (Bool-cases (is_some (get t s id))) [
    | inr e ↦ rw e (Keeps-refl t s)
    | inl e ↦
        let (s', rx) = register_waiter t s id msg.corr kind in
        rw e (
          Keeps-trans t (register_waiter-Keeps s id msg.corr kind)
            (started-Keeps s' id msg rx (try_send t s' id msg) refl))
  ]

  awaited-Keeps :
      (s : InstanceMap t) (corr : ℕ) (elapsed : Bool) (p : Poll)
      → Keeps t s (after_finish t s (awaited t s corr elapsed p))
  awaited-Keeps s corr elapsed (value reply) = Keeps-refl t s
  awaited-Keeps s corr elapsed closed = Keeps-refl t s
  awaited-Keeps s corr false pending = Keeps-refl t s
  awaited-Keeps s corr true pending = take_waiter-Keeps s corr

  receive_payload-Keeps :
      (s : InstanceMap t) (session : Session) (owned : SimToServer) (payload : Option SimPayload)
      → Keeps t s (receive_payload t s session owned payload).0
  unfolding receive_payload close_session
  receive_payload-Keeps s session owned (some (SimPayload.heartbeat hb)) =
      Keeps-trans t (set_heartbeat-Keeps t s session.id_for_loop session.token hb)
        (push_inbound-Keeps t _ session.id_for_loop owned)
  receive_payload-Keeps s session owned (some (SimPayload.goodbye reason)) =
      Keeps-trans t (push_inbound-Keeps t s session.id_for_loop owned) (
        Keeps-trans t (remove_if-Keeps _ session.id_for_loop session.token)
          (remove_if-Keeps _ session.id_for_loop session.token))
  receive_payload-Keeps s session owned _ = push_inbound-Keeps t s session.id_for_loop owned

  receive_item-Keeps :
      (s : InstanceMap t) (session : Session) (item : Item)
      → Keeps t s (receive t s session (some item)).0
  unfolding receive close_session
  receive_item-Keeps s session failed =
      elim (Bool-cases (owns t s session.id_for_loop session.token)) [
        | inl e ↦ rw e (remove_if-Keeps s session.id_for_loop session.token)
        | inr e ↦ rw e (remove_if-Keeps s session.id_for_loop session.token)
      ]
  receive_item-Keeps s session (message owned) =
      elim (Bool-cases (owns t s session.id_for_loop session.token)) [
        | inl e ↦ rw e (receive_payload-Keeps s session owned owned.payload)
        | inr e ↦ rw e (remove_if-Keeps s session.id_for_loop session.token)
      ]

  receive-Keeps :
      (s : InstanceMap t) (session : Session) (item : Option Item)
      → Keeps t s (receive t s session item).0
  receive-Keeps s session none =
      unfold receive close_session in remove_if-Keeps s session.id_for_loop session.token
  receive-Keeps s session (some item) = receive_item-Keeps s session item

  after_send-Keeps :
      (s : InstanceMap t) (id : String) (msg : ServerToSim)
      (r : Result (InstanceMap t) TrySendError)
      → try_send t s id msg ≡ r
      → Keeps t s (after_send t s r)
  after_send-Keeps s id msg (ok s') e = try_send-Keeps s s' id msg e
  after_send-Keeps s id msg (err _) e = Keeps-refl t s

  -- A step that neither opens a session nor sets the default keeps every entry of the table.
  abbrev pub IsQuiet : Action → Type 0
  IsQuiet (opens first) = ⊥
  IsQuiet (defaults id) = ⊥
  IsQuiet _ = Unit

  pub step-Keeps : (s : InstanceMap t) (a : Action) → IsQuiet a → Keeps t s (step t s a)
  unfolding step send_finish
  step-Keeps s (opens first) q = absurd q
  step-Keeps s (receives session item) q = receive-Keeps s session item
  step-Keeps s (sends id msg kind) q = send_start-Keeps s id msg kind
  step-Keeps s (finishes corr rx elapsed) q = awaited-Keeps s corr elapsed (t.poll rx s.net)
  step-Keeps s (enqueues id msg) q = after_send-Keeps s id msg (try_send t s id msg) refl
  step-Keeps s (drains id) q = try_recv_inbound-Keeps t s id
  step-Keeps s (masks id paths) q = set_read_mask-Keeps t s id paths
  step-Keeps s (excludes id components) q = set_exclude_log_components-Keeps t s id components
  step-Keeps s numbers q = take_corr-Keeps t s
  step-Keeps s (defaults id) q = absurd q
