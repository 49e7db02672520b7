-- ===== src/History/Unordered/Steps.antt =====
-- The steps of History do not depend on the order of the instances: they act on the states up to that
-- order.
use mathlib.Core.Quot
use mathlib.Core.Quot.{Quot, Quot-set}
use crosspoint_simulator_mcp.Prelude.{
  ℕ, ◌≡◌, refl, ap, String, Option, none, some, List, [], ◌∷◌, string_eq, nat_eq, Bool-cases, inl,
  inr, Result, ok, err,
}
use crosspoint_simulator_mcp.Messages.{SimToServer, SimPayload, Register}
use crosspoint_simulator_mcp.Tokio.{Tokio}
use crosspoint_simulator_mcp.State.{Instance, InstanceMap, queue_capacity, ResolveError}
use crosspoint_simulator_mcp.Instances.{
  owns, get, resolve, resolve_or_default, set_heartbeat, set_read_mask, set_exclude_log_components,
  take_corr, set_default_instance,
}
use crosspoint_simulator_mcp.Waiters.{push_inbound, remove_if}
use crosspoint_simulator_mcp.Session.{
  Session, Item, message, failed, ConnectError, open_session, register_session, first_register,
  receive, receive_payload, close_session,
}
use crosspoint_simulator_mcp.History.{
  Action, opens, receives, sends, finishes, enqueues, drains, masks, excludes, numbers, defaults,
  step, run, after_open,
}
use crosspoint_simulator_mcp.History.Unordered.{
  SameEntries, with_table, SameTable, SameTable-of, respects, insert-respects,
  update_instance-respects, owns-respects, set_heartbeat-respects, try_recv_inbound-respects,
}
use crosspoint_simulator_mcp.History.Unordered.Waiting.{
  push_inbound-respects, remove_if-respects, send_start-respects, send_finish-respects,
  try_send-respects,
}

module _ (t : Tokio) where
  opened-respects :
      (s : InstanceMap t) (m : List (String × Instance)) (r : Result Register ConnectError)
      → SameEntries s.inner m
      → SameTable t
          (after_open t s
            (elim r [ err e ↦ err e | ok register ↦ ok (register_session t s register) ]))
          (after_open t (with_table t s m) (elim r [
            | err e ↦ err e
            | ok register ↦ ok (register_session t (with_table t s m) register)
          ]))
  unfolding register_session
  opened-respects s m (err e) h = SameTable-of t s m h
  opened-respects s m (ok register) h =
      let (outbound_tx, net) = t.mpsc_channel queue_capacity s.net in
      insert-respects t (record s { net = net }) m register queue_capacity outbound_tx h

  open_session-respects :
      (s s' : InstanceMap t) (first : Option Item)
      → SameTable t s s'
      → SameTable t
          (after_open t s (open_session t s first))
          (after_open t s' (open_session t s' first))
  unfolding open_session
  open_session-respects s s' first =
      respects t (λ s. after_open t s (open_session t s first)) s s'
        λ m h. opened-respects s m (first_register first) h

  close_session-respects :
      (s s' : InstanceMap t) (session : Session)
      → SameTable t s s'
      → SameTable t (close_session t s session) (close_session t s' session)
  unfolding close_session
  close_session-respects s s' session = remove_if-respects t s s' session.id_for_loop session.token

  receive_payload-respects :
      (s s' : InstanceMap t) (session : Session) (owned : SimToServer) (payload : Option SimPayload)
      → SameTable t s s'
      → SameTable t
          (receive_payload t s session owned payload).0
          (receive_payload t s' session owned payload).0
  unfolding receive_payload
  receive_payload-respects s s' session owned (some (SimPayload.heartbeat hb)) same =
      let id = session.id_for_loop in
      push_inbound-respects t (set_heartbeat t s id session.token hb)
        (set_heartbeat t s' id session.token hb) id owned
        (set_heartbeat-respects t s s' id session.token hb same)
  receive_payload-respects s s' session owned (some (SimPayload.goodbye reason)) same =
      let id = session.id_for_loop in
      let p = push_inbound t s id owned in
      let p' = push_inbound t s' id owned in
      close_session-respects (remove_if t p id session.token) (remove_if t p' id session.token)
        session
        (remove_if-respects t p p' id session.token (push_inbound-respects t s s' id owned same))
  receive_payload-respects s s' session owned _ same =
      push_inbound-respects t s s' session.id_for_loop owned same

  receive-respects :
      (s s' : InstanceMap t) (session : Session) (item : Option Item)
      → SameTable t s s'
      → SameTable t (receive t s session item).0 (receive t s' session item).0
  unfolding receive
  receive-respects s s' session none same = close_session-respects s s' session same
  receive-respects s s' session (some failed) same =
      let own' = owns-respects t s s' session.id_for_loop session.token same in
      elim (Bool-cases (owns t s session.id_for_loop session.token)) [
        | inr stale ↦ rw (own', stale) (close_session-respects s s' session same)
        | inl own ↦ rw (own', own) (close_session-respects s s' session same)
      ]
  receive-respects s s' session (some (message owned)) same =
      let own' = owns-respects t s s' session.id_for_loop session.token same in
      elim (Bool-cases (owns t s session.id_for_loop session.token)) [
        | inr stale ↦ rw (own', stale) (close_session-respects s s' session same)
        | inl own ↦ rw (own', own) (receive_payload-respects s s' session owned owned.payload same)
      ]

  step-respects :
      (s s' : InstanceMap t) (a : Action)
      → SameTable t s s'
      → SameTable t (step t s a) (step t s' a)
  unfolding step take_corr set_default_instance set_read_mask set_exclude_log_components
  step-respects s s' (opens first) same = open_session-respects s s' first same
  step-respects s s' (receives session item) same = receive-respects s s' session item same
  step-respects s s' (sends id msg kind) same = send_start-respects t s s' id msg kind same
  step-respects s s' (finishes corr rx elapsed) same =
      send_finish-respects t s s' corr rx elapsed same
  step-respects s s' (enqueues id msg) same = try_send-respects t s s' id msg same
  step-respects s s' (drains id) same = try_recv_inbound-respects t s s' id same
  step-respects s s' (masks id paths) same =
      respects t (λ s. set_read_mask t s id paths) s s'
        (λ m h. update_instance-respects t s m id (λ inst. record inst { read_mask = paths }) h)
        same
  step-respects s s' (excludes id components) same =
      respects t (λ s. set_exclude_log_components t s id components) s s'
        (λ m h.
          update_instance-respects t s m id
            (λ inst. record inst { exclude_log_components = components }) h)
        same
  step-respects s s' numbers same =
      respects t (λ s. (take_corr t s).1) s s' (λ m h. SameTable-of t (take_corr t s).1 m h) same
  step-respects s s' (defaults id) same =
      respects t (λ s. set_default_instance t s id) s s'
        (λ m h. SameTable-of t (set_default_instance t s id) m h) same

  pub run-respects :
      (s s' : InstanceMap t) (actions : List Action)
      → SameTable t s s'
      → SameTable t (run t s actions) (run t s' actions)
  unfolding run
  run-respects s s' [] same = same
  run-respects s s' (a ∷ actions) same =
      run-respects (step t s a) (step t s' a) actions (step-respects s s' a same)

  -- The states up to the order of the table, and what steps make of them.
  abbrev pub Unordered : Type 0
  Unordered = Quot (SameTable t)

  abbrev pub up_to_order : InstanceMap t → Unordered
  up_to_order = Quot.mk

  abbrev pub run_unordered : List Action → Unordered → Unordered
  run_unordered actions =
      Quot.lift Quot-set (λ s. up_to_order (run t s actions))
        λ s s' same. Quot.sound (run-respects s s' actions same)

  resolve-respects :
      (s s' : InstanceMap t) (id : String) → SameTable t s s' → resolve t s' id ≡ resolve t s id
  unfolding resolve get
  resolve-respects s s' id same = rw (same.entries id) refl

  resolve_or_default-respects :
      (s s' : InstanceMap t) (given : Option String)
      → SameTable t s s'
      → resolve_or_default t s' given ≡ resolve_or_default t s given
  unfolding resolve_or_default
  resolve_or_default-respects s s' (some id) same = resolve-respects s s' id same
  resolve_or_default-respects s s' none same =
      defaulted s.default_instance s'.default_instance (ap (λ r. r.default_instance) same.rest)
    where
      defaulted :
          (o o' : Option String)
          → o' ≡ o
          → (elim o' [ some default ↦ resolve t s' default | none ↦ err ResolveError.empty_id ])
            ≡ elim o [ some default ↦ resolve t s default | none ↦ err ResolveError.empty_id ]
      defaulted none none e = refl
      defaulted (some a) (some b) e = let h = resolve-respects s s' b same in cc
      defaulted none (some b) e = cc
      defaulted (some a) none e = cc

  -- The order in which the entries of the table of instances stand never matters to the steps. They act on
  -- the states that forget it: from any arrangement of the table they lead to what they lead to there. After
  -- the same steps from two arrangements, the same ids resolve to the same instances, the default id
  -- included, and what each waiting call has been answered is the same.
  pub run-unordered :
      (s s' : InstanceMap t) (actions : List Action)
      → SameTable t s s'
      → let r = run t s actions in
        let r' = run t s' actions in
        (run_unordered actions (up_to_order s) ≡ up_to_order r')
        × ((given : Option String) → resolve_or_default t r' given ≡ resolve_or_default t r given)
        × ((rx : ℕ) → t.poll rx r'.net ≡ t.poll rx r.net)
  run-unordered s s' actions same =
      let r = run t s actions in
      let r' = run t s' actions in
      let after = run-respects s s' actions same in
      (
        Quot.sound after,
        λ given. resolve_or_default-respects r r' given after,
        λ rx. ap (λ r. t.poll rx r.net) after.rest,
      )
