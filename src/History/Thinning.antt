-- ===== src/History/Thinning.antt =====
-- The steps of crates/csm-proxy/src/instances.rs that put no waiter into the table: it only grows
-- thinner, and the counter of the corrs stays.
use crosspoint_simulator_mcp.Prelude.{
  ℕ, ◌≡◌, refl, ◌∙◌, String, Bool, true, false, Option, none, some, List, [], ◌∷◌, ◌==◌, string_eq,
  nat_eq, arith, Option-cases, Bool-cases, inl, inr, Result, ok, err,
}
use crosspoint_simulator_mcp.Prelude.Dict
use crosspoint_simulator_mcp.Prelude.Dict.{lookup-remove}
use crosspoint_simulator_mcp.Messages.{SimToServer, ServerToSim, SimPayload, Register, Heartbeat}
use crosspoint_simulator_mcp.Tokio.{Tokio, Poll, pending, value, closed}
use crosspoint_simulator_mcp.State.{Instance, InstanceMap, inbound_visible, TrySendError}
use crosspoint_simulator_mcp.Instances.{
  owns, insert, write_instance, set_heartbeat, set_read_mask, set_exclude_log_components, recv_from,
  try_recv_inbound, set_default_instance, sent, send_to, try_send,
}
use crosspoint_simulator_mcp.Waiters.{
  take_waiter, take_waiters, fail_waiters, remove_instance, remove_if, complete_waiter, completed,
  deliver, deliver_to, is_excluded, push_inbound, awaited, send_finish,
}
use crosspoint_simulator_mcp.Session.{
  Session, Item, message, failed, ConnectError, first_register, register_session, open_session,
  close_session, receive_payload, receive,
}
use crosspoint_simulator_mcp.History.{
  Action, opens, receives, sends, finishes, enqueues, drains, masks, excludes, numbers, defaults,
  step, after_open, after_finish, after_send,
}

-- No waiter came, and no corr was given away.
pub record Thins (t : Tokio) (s s' : InstanceMap t) : Type 0 where
  pub next_corr : s'.next_corr ≡ s.next_corr
  pub absent : (c : ℕ) → Dict.lookup c s.waiters ≡ none → Dict.lookup c s'.waiters ≡ none

-- A step that neither registers a waiter nor gives a corr away.
abbrev pub NoNumber : Action → Type 0
NoNumber (sends id msg kind) = ⊥
NoNumber numbers = ⊥
NoNumber _ = Unit

module _ (t : Tokio) where
  Thins-refl : (s : InstanceMap t) → Thins t s s
  Thins-refl s = record { next_corr = refl; absent = λ c h. h }

  pub Thins-trans : {s s' s'' : InstanceMap t} → Thins t s s' → Thins t s' s'' → Thins t s s''
  Thins-trans p q = record {
    next_corr = q.next_corr ∙ p.next_corr;
    absent = λ c h. q.absent c (p.absent c h);
  }

  -- A step that does not write the waiters.
  same_waiters :
      (s s' : InstanceMap t) → s'.waiters ≡ s.waiters → s'.next_corr ≡ s.next_corr → Thins t s s'
  same_waiters s s' waiters next = record { next_corr = next; absent = λ c h. rw waiters h }

  write_instance-Thins :
      (s : InstanceMap t) (id : String) (f : Instance → Instance) (inst : Option Instance)
      → Thins t s (write_instance t s id f inst)
  write_instance-Thins s id f none = Thins-refl s
  write_instance-Thins s id f (some i) = same_waiters s _ refl refl

  set_heartbeat-Thins :
      (s : InstanceMap t) (id : String) (token : ℕ) (hb : Heartbeat)
      → Thins t s (set_heartbeat t s id token hb)
  unfolding set_heartbeat
  set_heartbeat-Thins s id token hb = elim (Bool-cases (owns t s id token)) [
    | inl e ↦ rw e (
        write_instance-Thins s id (λ inst. record inst { last_heartbeat = some hb })
          (Dict.lookup id s.inner))
    | inr e ↦ rw e (Thins-refl s)
  ]

  recv_from-Thins :
      (s : InstanceMap t) (id : String) (inst : Option Instance)
      → Thins t s (recv_from t s id inst).0
  recv_from-Thins s id none = Thins-refl s
  recv_from-Thins s id (some i) = same_waiters s _ refl refl

  pub take_waiter-Thins : (s : InstanceMap t) (c : ℕ) → Thins t s (take_waiter t s c)
  unfolding take_waiter
  take_waiter-Thins s c = record {
    next_corr = refl;
    absent = λ d h. ground (arith, lookup-remove c d s.waiters);
  }

  take_waiters-Thins : (s : InstanceMap t) (cs : List ℕ) → Thins t s (take_waiters t s cs)
  unfolding take_waiters
  take_waiters-Thins s [] = Thins-refl s
  take_waiters-Thins s (c ∷ cs) =
      Thins-trans (take_waiter-Thins s c) (take_waiters-Thins (take_waiter t s c) cs)

  remove_if-Thins :
      (s : InstanceMap t) (id : String) (token : ℕ) → Thins t s (remove_if t s id token)
  unfolding remove_if fail_waiters remove_instance
  remove_if-Thins s id token = elim (Bool-cases (owns t s id token)) [
    | inl e ↦
        let s₁ = remove_instance t s id in
        rw e (Thins-trans (same_waiters s s₁ refl refl) (take_waiters-Thins s₁ _))
    | inr e ↦ rw e (Thins-refl s)
  ]

  complete_waiter-Thins :
      (s : InstanceMap t) (msg : SimToServer) → Thins t s (complete_waiter t s msg)
  unfolding complete_waiter
  complete_waiter-Thins s msg = elim (Bool-cases (msg.corr == 0)) [
    | inl zero_corr ↦ rw zero_corr (Thins-refl s)
    | inr corr ↦ elim (Option-cases (completed (Dict.lookup msg.corr s.waiters) msg)) [
      | inl none_completed ↦ rw (corr, none_completed) (Thins-refl s)
      | inr (tx, e) ↦
          rw (corr, e)
            (record {
              next_corr = refl;
              absent = λ d h. ground (arith, lookup-remove msg.corr d s.waiters);
            })
    ]
  ]

  deliver_to-Thins :
      (s : InstanceMap t) (id : String) (msg : SimToServer) (inst : Option Instance)
      → Thins t s (deliver_to t s id msg inst)
  unfolding deliver
  deliver_to-Thins s id msg none = Thins-refl s
  deliver_to-Thins s id msg (some i) = elim (Bool-cases (inbound_visible i.read_mask msg)) [
    | inr hidden ↦ rw hidden (Thins-refl s)
    | inl seen ↦ elim (Bool-cases (is_excluded i.exclude_log_components msg.payload)) [
      | inl out ↦ rw (seen, out) (Thins-refl s)
      | inr kept ↦ rw (seen, kept) (same_waiters s _ refl refl)
    ]
  ]

  push_inbound-Thins :
      (s : InstanceMap t) (id : String) (msg : SimToServer) → Thins t s (push_inbound t s id msg)
  unfolding push_inbound
  push_inbound-Thins s id msg =
      let s' = complete_waiter t s msg in
      Thins-trans (complete_waiter-Thins s msg)
        (deliver_to-Thins s' id msg (Dict.lookup id s'.inner))

  receive_payload-Thins :
      (s : InstanceMap t) (session : Session) (owned : SimToServer) (payload : Option SimPayload)
      → Thins t s (receive_payload t s session owned payload).0
  unfolding receive_payload close_session
  receive_payload-Thins s session owned (some (SimPayload.heartbeat hb)) =
      Thins-trans (set_heartbeat-Thins s session.id_for_loop session.token hb)
        (push_inbound-Thins _ session.id_for_loop owned)
  receive_payload-Thins s session owned (some (SimPayload.goodbye reason)) =
      Thins-trans (push_inbound-Thins s session.id_for_loop owned) (
        Thins-trans (remove_if-Thins _ session.id_for_loop session.token)
          (remove_if-Thins _ session.id_for_loop session.token))
  receive_payload-Thins s session owned _ = push_inbound-Thins s session.id_for_loop owned

  pub receive-Thins :
      (s : InstanceMap t) (session : Session) (item : Option Item)
      → Thins t s (receive t s session item).0
  unfolding receive close_session
  receive-Thins s session none = remove_if-Thins s session.id_for_loop session.token
  receive-Thins s session (some failed) =
      elim (Bool-cases (owns t s session.id_for_loop session.token)) [
        | inl e ↦ rw e (remove_if-Thins s session.id_for_loop session.token)
        | inr e ↦ rw e (remove_if-Thins s session.id_for_loop session.token)
      ]
  receive-Thins s session (some (message owned)) =
      elim (Bool-cases (owns t s session.id_for_loop session.token)) [
        | inl e ↦ rw e (receive_payload-Thins s session owned owned.payload)
        | inr e ↦ rw e (remove_if-Thins s session.id_for_loop session.token)
      ]

  opened-Thins :
      (s : InstanceMap t) (first : Option Item) (r : Result Register ConnectError)
      → first_register first ≡ r
      → Thins t s (after_open t s (open_session t s first))
  unfolding open_session register_session insert
  opened-Thins s first (err e) h = rw (after_open, h) (Thins-refl s)
  opened-Thins s first (ok register) h = rw (after_open, h) (same_waiters s _ refl refl)

  -- No waiter changed, and no corr was given away.
  abbrev pub Same : InstanceMap t → InstanceMap t → Type 0
  Same s s' = (s'.waiters ≡ s.waiters) × (s'.next_corr ≡ s.next_corr)

  sent-Same : (s s' : InstanceMap t) (net : Option t.Net) → sent t s net ≡ ok s' → Same s s'
  sent-Same s s' none h = cc
  sent-Same s s' (some net) h =
      let same : record s { net = net } ≡ s' = ground (arith, h) in rw (← same) (refl, refl)

  send_to-Same :
      (s s' : InstanceMap t) (msg : ServerToSim) (inst : Option Instance)
      → send_to t s msg inst ≡ ok s'
      → Same s s'
  send_to-Same s s' msg none h = cc
  send_to-Same s s' msg (some inst) h = sent-Same s s' (t.try_send inst.outbound_tx msg s.net) h

  pub try_send-Same :
      (s s' : InstanceMap t) (id : String) (msg : ServerToSim)
      → try_send t s id msg ≡ ok s'
      → Same s s'
  unfolding try_send
  try_send-Same s s' id msg h = send_to-Same s s' msg (Dict.lookup id s.inner) h

  pub try_send-Thins :
      (s s' : InstanceMap t) (id : String) (msg : ServerToSim)
      → try_send t s id msg ≡ ok s'
      → Thins t s s'
  try_send-Thins s s' id msg h =
      let (waiters, next) = try_send-Same s s' id msg h in same_waiters s s' waiters next

  after_send-Thins :
      (s : InstanceMap t) (id : String) (msg : ServerToSim)
      (r : Result (InstanceMap t) TrySendError)
      → try_send t s id msg ≡ r
      → Thins t s (after_send t s r)
  after_send-Thins s id msg (ok s') e = try_send-Thins s s' id msg e
  after_send-Thins s id msg (err _) e = Thins-refl s

  awaited-Thins :
      (s : InstanceMap t) (corr : ℕ) (elapsed : Bool) (p : Poll)
      → Thins t s (after_finish t s (awaited t s corr elapsed p))
  awaited-Thins s corr elapsed (value reply) = Thins-refl s
  awaited-Thins s corr elapsed closed = Thins-refl s
  awaited-Thins s corr false pending = Thins-refl s
  awaited-Thins s corr true pending = take_waiter-Thins s corr

  pub step-Thins : (s : InstanceMap t) (a : Action) → NoNumber a → Thins t s (step t s a)
  unfolding step send_finish set_read_mask set_exclude_log_components try_recv_inbound
      set_default_instance
  step-Thins s (opens first) q = opened-Thins s first (first_register first) refl
  step-Thins s (receives session item) q = receive-Thins s session item
  step-Thins s (sends id msg kind) q = absurd q
  step-Thins s (finishes corr rx elapsed) q = awaited-Thins s corr elapsed (t.poll rx s.net)
  step-Thins s (enqueues id msg) q = after_send-Thins s id msg (try_send t s id msg) refl
  step-Thins s (drains id) q = recv_from-Thins s id (Dict.lookup id s.inner)
  step-Thins s (masks id paths) q = write_instance-Thins s id _ (Dict.lookup id s.inner)
  step-Thins s (excludes id components) q = write_instance-Thins s id _ (Dict.lookup id s.inner)
  step-Thins s numbers q = absurd q
  step-Thins s (defaults id) q = same_waiters s _ refl refl
