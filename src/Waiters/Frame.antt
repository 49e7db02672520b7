-- ===== src/Waiters/Frame.antt =====
-- The operations that leave the waiters alone, and the invariant that ties the waiters to the table
-- of instances.
use crosspoint_simulator_mcp.Prelude.{
  ℕ, ◌≡◌, refl, ◌∙◌, String, true, Option, none, some, List, string_eq, nat_eq, is_some, arith,
  Bool-cases, inl, inr, ok,
}
use crosspoint_simulator_mcp.Prelude.Dict
use crosspoint_simulator_mcp.Prelude.Dict.{lookup-insert, lookup-remove}
use crosspoint_simulator_mcp.Messages.{SimToServer, ServerToSim, Register, Heartbeat}
use crosspoint_simulator_mcp.Tokio.{Tokio, TokioLaws}
use crosspoint_simulator_mcp.State.{Instance, InstanceMap, inbound_visible}
use crosspoint_simulator_mcp.Instances.{
  insert, new_instance, write_instance, recv_from, sent, send_to, update_instance, set_heartbeat,
  set_default_instance, take_corr, try_send, set_read_mask, owns, set_exclude_log_components,
  try_recv_inbound,
}
use crosspoint_simulator_mcp.Waiters.{deliver, deliver_to, is_excluded}
use crosspoint_simulator_mcp.Waiters.Wired.{IsWired, created-drop_instance, poll-drop_instance}

-- Every waiter's instance is connected.
pub record IsAttached (t : Tokio) (s : InstanceMap t) : Type 0 where
  pub connected :
      (c : ℕ) (id : String)
      → Dict.lookup c s.waiter_instance ≡ some id
      → is_some (Dict.lookup id s.inner) ≡ true

-- From `s` to `s'` no waiter changed, no receiver sees another thing, and no instance went away.
pub record Frame (t : Tokio) (s s' : InstanceMap t) : Type 0 where
  pub waiters : s'.waiters ≡ s.waiters
  pub waiter_instance : s'.waiter_instance ≡ s.waiter_instance
  pub created : t.created s'.net ≡ t.created s.net
  pub poll : (rx : ℕ) → t.poll rx s'.net ≡ t.poll rx s.net
  pub stays :
      (id : String)
      → is_some (Dict.lookup id s.inner) ≡ true
      → is_some (Dict.lookup id s'.inner) ≡ true

module _ (t : Tokio) where
  pub Frame-refl : (s : InstanceMap t) → Frame t s s
  Frame-refl s = record {
    waiters = refl;
    waiter_instance = refl;
    created = refl;
    poll = λ rx. refl;
    stays = λ id h. h;
  }

  pub Frame-trans : {s s' s'' : InstanceMap t} → Frame t s s' → Frame t s' s'' → Frame t s s''
  Frame-trans f g = record {
    waiters = g.waiters ∙ f.waiters;
    waiter_instance = g.waiter_instance ∙ f.waiter_instance;
    created = g.created ∙ f.created;
    poll = λ rx. g.poll rx ∙ f.poll rx;
    stays = λ id h. g.stays id (f.stays id h);
  }

  pub Frame-IsWired : {s s' : InstanceMap t} → Frame t s s' → IsWired t s → IsWired t s'
  Frame-IsWired f v = record {
    agree = λ c. rw (f.waiters, f.waiter_instance) (v.agree c);
    made = λ c k tx e. rw f.created (v.made c k tx (rw f.waiters at e));
    unanswered = λ c k tx e. f.poll tx ∙ v.unanswered c k tx (rw f.waiters at e);
    apart = λ c d j k tx e e'. v.apart c d j k tx (rw f.waiters at e) (rw f.waiters at e');
    unique = rw f.waiter_instance v.unique;
  }

  pub Frame-IsAttached : {s s' : InstanceMap t} → Frame t s s' → IsAttached t s → IsAttached t s'
  Frame-IsAttached f a = record {
    connected = λ c id e. f.stays id (a.connected c id (rw f.waiter_instance at e));
  }

  -- A write to the entry of an instance.
  inner-Frame :
      (s : InstanceMap t) (id : String) (inst : Instance)
      → Frame t s (record s { inner = Dict.insert id inst s.inner })
  inner-Frame s id inst = record {
    waiters = refl;
    waiter_instance = refl;
    created = refl;
    poll = λ rx. refl;
    stays = λ j h. ground (arith, lookup-insert id j inst s.inner);
  }

  write_instance-Frame :
      (s : InstanceMap t) (id : String) (f : Instance → Instance) (inst : Option Instance)
      → Frame t s (write_instance t s id f inst)
  write_instance-Frame s id f none = Frame-refl s
  write_instance-Frame s id f (some inst) = inner-Frame s id (f inst)

  update_instance-Frame :
      (s : InstanceMap t) (id : String) (f : Instance → Instance)
      → Frame t s (update_instance t s id f)
  update_instance-Frame s id f = write_instance-Frame s id f (Dict.lookup id s.inner)

  pub set_heartbeat-Frame :
      (s : InstanceMap t) (id : String) (token : ℕ) (hb : Heartbeat)
      → Frame t s (set_heartbeat t s id token hb)
  unfolding set_heartbeat
  set_heartbeat-Frame s id token hb = elim (Bool-cases (owns t s id token)) [
    | inl e ↦ rw e (update_instance-Frame s id (λ inst. record inst { last_heartbeat = some hb }))
    | inr e ↦ rw e (Frame-refl s)
  ]

  pub set_read_mask-Frame :
      (s : InstanceMap t) (id : String) (paths : List String)
      → Frame t s (set_read_mask t s id paths)
  unfolding set_read_mask
  set_read_mask-Frame s id paths =
      update_instance-Frame s id (λ inst. record inst { read_mask = paths })

  pub set_exclude_log_components-Frame :
      (s : InstanceMap t) (id : String) (components : List String)
      → Frame t s (set_exclude_log_components t s id components)
  unfolding set_exclude_log_components
  set_exclude_log_components-Frame s id components =
      update_instance-Frame s id (λ inst. record inst { exclude_log_components = components })

  recv_from-Frame :
      (s : InstanceMap t) (id : String) (inst : Option Instance)
      → Frame t s (recv_from t s id inst).0
  recv_from-Frame s id none = Frame-refl s
  recv_from-Frame s id (some inst) = inner-Frame s id _

  pub try_recv_inbound-Frame :
      (s : InstanceMap t) (id : String) → Frame t s (try_recv_inbound t s id).0
  unfolding try_recv_inbound
  try_recv_inbound-Frame s id = recv_from-Frame s id (Dict.lookup id s.inner)

  pub take_corr-Frame : (s : InstanceMap t) → Frame t s (take_corr t s).1
  unfolding take_corr
  take_corr-Frame s = record {
    waiters = refl;
    waiter_instance = refl;
    created = refl;
    poll = λ rx. refl;
    stays = λ id h. h;
  }

  pub set_default_instance-Frame :
      (s : InstanceMap t) (id : Option String) → Frame t s (set_default_instance t s id)
  unfolding set_default_instance
  set_default_instance-Frame s id = record {
    waiters = refl;
    waiter_instance = refl;
    created = refl;
    poll = λ rx. refl;
    stays = λ id h. h;
  }

  pub deliver_to-Frame :
      (s : InstanceMap t) (id : String) (msg : SimToServer) (inst : Option Instance)
      → Frame t s (deliver_to t s id msg inst)
  unfolding deliver
  deliver_to-Frame s id msg none = Frame-refl s
  deliver_to-Frame s id msg (some inst) = elim (Bool-cases (inbound_visible inst.read_mask msg)) [
    | inr hidden ↦ rw hidden (Frame-refl s)
    | inl seen ↦ elim (Bool-cases (is_excluded inst.exclude_log_components msg.payload)) [
      | inl out ↦ rw (seen, out) (Frame-refl s)
      | inr kept ↦ rw (seen, kept) (inner-Frame s id _)
    ]
  ]

module _ (t : Tokio) (laws : TokioLaws t) where
  pub insert-Frame :
      (s : InstanceMap t) (register : Register) (cap tx : ℕ)
      → Frame t s (insert t s register cap tx).0
  unfolding insert
  insert-Frame s register inbound_cap tx = record {
    waiters = refl;
    waiter_instance = refl;
    created = created-drop_instance t laws (Dict.lookup register.instance_id s.inner) s.net;
    poll = λ rx. poll-drop_instance t laws (Dict.lookup register.instance_id s.inner) rx s.net;
    stays = λ j h. ground (
      arith,
      lookup-insert register.instance_id j (new_instance s.next_token register inbound_cap tx)
          s.inner,
    );
  }

  sent-Frame :
      (s s' : InstanceMap t) (tx : ℕ) (msg : ServerToSim) (net : Option t.Net)
      → t.try_send tx msg s.net ≡ net
      → sent t s net ≡ ok s'
      → Frame t s s'
  sent-Frame s s' tx msg none e h = cc
  sent-Frame s s' tx msg (some net) e h =
      let same : record s { net = net } ≡ s' = ground (arith, h) in
      rw (← same) (record {
        waiters = refl;
        waiter_instance = refl;
        created = laws.created-try_send tx msg s.net net e;
        poll = λ rx. laws.poll-try_send tx rx msg s.net net e;
        stays = λ id h. h;
      })

  send_to-Frame :
      (s s' : InstanceMap t) (msg : ServerToSim) (inst : Option Instance)
      → send_to t s msg inst ≡ ok s'
      → Frame t s s'
  send_to-Frame s s' msg none h = cc
  send_to-Frame s s' msg (some inst) h =
      sent-Frame s s' inst.outbound_tx msg (t.try_send inst.outbound_tx msg s.net) refl h

  pub try_send-Frame :
      (s s' : InstanceMap t) (id : String) (msg : ServerToSim)
      → try_send t s id msg ≡ ok s'
      → Frame t s s'
  unfolding try_send
  try_send-Frame s s' id msg h = send_to-Frame s s' msg (Dict.lookup id s.inner) h
