-- ===== src/History/Waits.antt =====
-- What holds of the waiting calls after any history of crates/csm-proxy.
use crosspoint_simulator_mcp.Prelude.{
  ℕ, ◌≡◌, ◌≢◌, ◌⊎◌, refl, ◌∙◌, String, true, Option, none, some, List, [], ◌∷◌, ◌==◌, string_eq,
  nat_eq, is_some, arith, Bool-cases, eq_self, inl, inr, Result, ok, err,
}
use crosspoint_simulator_mcp.Prelude.Dict
use crosspoint_simulator_mcp.Prelude.Dict.{lookup-insert}
use crosspoint_simulator_mcp.Messages.{SimToServer, ServerToSim, SimPayload, Register}
use crosspoint_simulator_mcp.Tokio.{Tokio, TokioLaws, pending}
use crosspoint_simulator_mcp.State.{InstanceMap, WaitKind, TrySendError, queue_capacity}
use crosspoint_simulator_mcp.Instances.{new, owns, try_send, get}
use crosspoint_simulator_mcp.Waiters.{send_start, register_waiter, started}
use crosspoint_simulator_mcp.Waiters.Frame.{
  Frame, Frame-trans, insert-Frame, set_heartbeat-Frame, set_read_mask-Frame,
  set_exclude_log_components-Frame, try_recv_inbound-Frame, take_corr-Frame,
  set_default_instance-Frame, try_send-Frame,
}
use crosspoint_simulator_mcp.Session.{
  Session, Item, message, failed, ConnectError, open_session, register_session, first_register,
  receive, receive_payload, close_session,
}
use crosspoint_simulator_mcp.History.{
  Action, opens, receives, sends, finishes, enqueues, drains, masks, excludes, numbers, defaults,
  step, run, after_open, after_send,
}
use crosspoint_simulator_mcp.History.Steps.{
  IsSound, Advance, Frame-Advance, Advance-refl, Advance-trans, push_inbound-Advance,
  remove_if-Advance, send_start-Advance, send_finish-Advance,
}

nat_eq_self : (c : ℕ) → (c == c) ≡ true
nat_eq_self c = eq_self c

module _ (t : Tokio) (laws : TokioLaws t) where
  register_session-Frame :
      (s : InstanceMap t) (register : Register) → Frame t s (register_session t s register).0
  unfolding register_session
  register_session-Frame s register =
      Frame-trans t
        (record {
          waiters = refl;
          waiter_instance = refl;
          created = laws.created-mpsc queue_capacity s.net;
          poll = λ rx. laws.poll-mpsc queue_capacity rx s.net;
          stays = λ id h. h;
        })
        (insert-Frame t laws _ register queue_capacity _)

  open_session-Advance :
      (s : InstanceMap t) (first : Option Item)
      → IsSound t s
      → Advance t s (after_open t s (open_session t s first))
  unfolding open_session
  open_session-Advance s first v = opened (first_register first)
    where
      opened :
          (r : Result Register ConnectError)
          → Advance t s (
              after_open t s
                (elim r [ err e ↦ err e | ok register ↦ ok (register_session t s register) ]))
      opened (err e) = Advance-refl t s v
      opened (ok register) = Frame-Advance t (register_session-Frame s register) v

  pub close_session-Advance :
      (s : InstanceMap t) (session : Session)
      → IsSound t s
      → Advance t s (close_session t s session)
  unfolding close_session
  close_session-Advance s session v = remove_if-Advance t laws s session.id_for_loop session.token v

  receive_payload-Advance :
      (s : InstanceMap t) (session : Session) (owned : SimToServer) (payload : Option SimPayload)
      → IsSound t s
      → Advance t s (receive_payload t s session owned payload).0
  unfolding receive_payload
  receive_payload-Advance s session owned (some (SimPayload.heartbeat hb)) v =
      let first =
        Frame-Advance t (set_heartbeat-Frame t s session.id_for_loop session.token hb) v in
      Advance-trans t v first (push_inbound-Advance t laws _ session.id_for_loop owned first.sound)
  receive_payload-Advance s session owned (some (SimPayload.goodbye reason)) v =
      let first = push_inbound-Advance t laws s session.id_for_loop owned v in
      let second = remove_if-Advance t laws _ session.id_for_loop session.token first.sound in
      Advance-trans t v first
        (Advance-trans t first.sound second (close_session-Advance _ session second.sound))
  receive_payload-Advance s session owned _ v =
      push_inbound-Advance t laws s session.id_for_loop owned v

  receive_item-Advance :
      (s : InstanceMap t) (session : Session) (item : Item)
      → IsSound t s
      → Advance t s (receive t s session (some item)).0
  unfolding receive
  receive_item-Advance s session failed v =
      elim (Bool-cases (owns t s session.id_for_loop session.token)) [
        | inl e ↦ rw e (close_session-Advance s session v)
        | inr e ↦ rw e (close_session-Advance s session v)
      ]
  receive_item-Advance s session (message owned) v =
      elim (Bool-cases (owns t s session.id_for_loop session.token)) [
        | inl e ↦ rw e (receive_payload-Advance s session owned owned.payload v)
        | inr e ↦ rw e (close_session-Advance s session v)
      ]

  receive-Advance :
      (s : InstanceMap t) (session : Session) (item : Option Item)
      → IsSound t s
      → Advance t s (receive t s session item).0
  receive-Advance s session none v = unfold receive in close_session-Advance s session v
  receive-Advance s session (some item) v = receive_item-Advance s session item v

  enqueued-Advance :
      (s : InstanceMap t) (id : String) (msg : ServerToSim)
      (r : Result (InstanceMap t) TrySendError)
      → try_send t s id msg ≡ r
      → IsSound t s
      → Advance t s (after_send t s r)
  enqueued-Advance s id msg (ok s') e v = Frame-Advance t (try_send-Frame t laws s s' id msg e) v
  enqueued-Advance s id msg (err _) e v = Advance-refl t s v

  pub step-Advance : (s : InstanceMap t) (a : Action) → IsSound t s → Advance t s (step t s a)
  unfolding step
  step-Advance s (opens first) v = open_session-Advance s first v
  step-Advance s (receives session item) v = receive-Advance s session item v
  step-Advance s (sends id msg kind) v = send_start-Advance t laws s id msg kind v
  step-Advance s (finishes corr rx elapsed) v = send_finish-Advance t laws s corr rx elapsed v
  step-Advance s (enqueues id msg) v = enqueued-Advance s id msg (try_send t s id msg) refl v
  step-Advance s (drains id) v = Frame-Advance t (try_recv_inbound-Frame t s id) v
  step-Advance s (masks id paths) v = Frame-Advance t (set_read_mask-Frame t s id paths) v
  step-Advance s (excludes id components) v =
      Frame-Advance t (set_exclude_log_components-Frame t s id components) v
  step-Advance s numbers v = Frame-Advance t (take_corr-Frame t s) v
  step-Advance s (defaults id) v = Frame-Advance t (set_default_instance-Frame t s id) v

  pub run-Advance :
      (s : InstanceMap t) (actions : List Action) → IsSound t s → Advance t s (run t s actions)
  unfolding run
  run-Advance s [] v = Advance-refl t s v
  run-Advance s (a ∷ actions) v =
      let first = step-Advance s a v in
      Advance-trans t v first (run-Advance (step t s a) actions first.sound)

  new-IsSound : (net : t.Net) → IsSound t (new t net)
  unfolding new Dict.lookup
  new-IsSound net = record {
    wired = record {
      agree = λ c. refl;
      made = λ c k tx e. cc;
      unanswered = λ c k tx e. cc;
      apart = λ c d j k tx e f. cc;
      unique = tt;
    };
    attached = record { connected = λ c id e. cc };
  }

  -- After any history of an empty map: the two waiter tables name the same corrs, each sender in the
  -- table is the only one of an unanswered channel, and every waiter's instance is connected.
  pub run-IsSound : (net : t.Net) (actions : List Action) → IsSound t (run t (new t net) actions)
  run-IsSound net actions = (run-Advance (new t net) actions (new-IsSound net)).sound

  started-ok :
      (s : InstanceMap t) (id : String) (msg : ServerToSim) (rx₀ rx : ℕ)
      (r : Result (InstanceMap t) TrySendError)
      → try_send t s id msg ≡ r
      → (started t s msg.corr rx₀ r).1 ≡ ok rx
      → (rx₀ ≡ rx) × Frame t s (started t s msg.corr rx₀ r).0
  started-ok s id msg rx₀ rx (ok s') e h = (ground arith, try_send-Frame t laws s s' id msg e)
  started-ok s id msg rx₀ rx (err TrySendError.unknown_instance) e h = cc
  started-ok s id msg rx₀ rx (err TrySendError.queue_full) e h = cc

  register_waiter-Held :
      (s : InstanceMap t) (id : String) (corr : ℕ) (kind : WaitKind)
      → let (s', rx) = register_waiter t s id corr kind in
        (Dict.lookup corr s'.waiters ≡ some (kind, rx))
        × (Dict.lookup corr s'.waiter_instance ≡ some id)
  unfolding register_waiter
  register_waiter-Held s id corr kind =
      (simp (lookup-insert, nat_eq_self corr), simp (lookup-insert, nat_eq_self corr))

  -- A call that starts to wait stands in both tables.
  pub send_start-Held :
      (s : InstanceMap t) (id : String) (msg : ServerToSim) (kind : WaitKind) (rx : ℕ)
      → (send_start t s id msg kind).1 ≡ ok rx
      → let s' = (send_start t s id msg kind).0 in
        (Dict.lookup msg.corr s'.waiters ≡ some (kind, rx))
        × (Dict.lookup msg.corr s'.waiter_instance ≡ some id)
  unfolding send_start
  send_start-Held s id msg kind rx = elim (Bool-cases (is_some (get t s id))) [
    | inr e ↦ rw e (λ h. cc)
    | inl e ↦ rw e λ h.
        let (s', rx₀) = register_waiter t s id msg.corr kind in
        let (same, f) = started-ok s' id msg rx₀ rx (try_send t s' id msg) refl h in
        let held = register_waiter-Held s id msg.corr kind in
        (rw (f.waiters, ← same) held.0, rw f.waiter_instance held.1)
  ]

  -- A call that waits is never forgotten: from a sound state in which it started, whatever steps follow,
  -- its receiver has been answered or disconnected, or its sender still stands in the table under its
  -- corr for its instance, and that instance is connected.
  pub send_start-run :
      (s : InstanceMap t) (id : String) (msg : ServerToSim) (kind : WaitKind) (rx : ℕ)
      (actions : List Action)
      → IsSound t s
      → (send_start t s id msg kind).1 ≡ ok rx
      → let s' = run t (send_start t s id msg kind).0 actions in
        (t.poll rx s'.net ≢ pending)
        ⊎ ((Dict.lookup msg.corr s'.waiters ≡ some (kind, rx))
            × (Dict.lookup msg.corr s'.waiter_instance ≡ some id)
            × (is_some (Dict.lookup id s'.inner) ≡ true))
  send_start-run s id msg kind rx actions v e =
      let first = send_start-Advance t laws s id msg kind v in
      let rest = run-Advance (send_start t s id msg kind).0 actions first.sound in
      let held = send_start-Held s id msg kind rx e in
      elim (rest.progress.keeps msg.corr kind rx held.0) [
        | inr done ↦ inl done
        | inl h ↦
            let whose = h.1 ∙ held.1 in
            inr (h.0, whose, rest.sound.attached.connected msg.corr id whose)
      ]
