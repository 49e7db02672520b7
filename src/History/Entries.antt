-- ===== src/History/Entries.antt =====
-- How the entries of the table of instances of crates/csm-proxy/src/instances.rs change: but for a new
-- session, each keeps its token and its identity.
use crosspoint_simulator_mcp.Prelude.{
  ℕ, ◌≡◌, refl, ◌∙◌, String, Option, none, some, List, ◌==◌, string_eq, nat_eq, arith, Option-cases,
  Bool-cases, inl, inr, eq_of_beq,
}
use crosspoint_simulator_mcp.Prelude.Dict
use crosspoint_simulator_mcp.Prelude.Dict.{lookup-insert, lookup-remove}
use crosspoint_simulator_mcp.Messages.{SimToServer, Heartbeat}
use crosspoint_simulator_mcp.Queue.Bounds.{
  IsBounded, push-IsBounded, cap-push, try_recv-IsBounded, cap-try_recv,
}
use crosspoint_simulator_mcp.Tokio.{Tokio}
use crosspoint_simulator_mcp.State.{Instance, InstanceMap, inbound_visible}
use crosspoint_simulator_mcp.Instances.{
  owns, write_instance, set_heartbeat, set_read_mask, set_exclude_log_components, recv_from,
  try_recv_inbound, take_corr,
}
use crosspoint_simulator_mcp.Waiters.{
  complete_waiter, completed, deliver, deliver_to, push_inbound, is_excluded,
}

-- The session and the identity of an entry stay, and so does the bound of its queue.
pub record SameSession (i j : Instance) : Type 0 where
  pub token : j.token ≡ i.token
  pub register : j.register ≡ i.register
  pub capacity : j.inbound.cap ≡ i.inbound.cap
  pub bounded : IsBounded i.inbound → IsBounded j.inbound

-- Every entry after was there before.
pub record Keeps (t : Tokio) (s s' : InstanceMap t) : Type 0 where
  pub next_token : s'.next_token ≡ s.next_token
  pub default_instance : s'.default_instance ≡ s.default_instance
  pub entry :
      (id : String) (j : Instance)
      → Dict.lookup id s'.inner ≡ some j
      → (i : Instance) × (Dict.lookup id s.inner ≡ some i) × SameSession i j

pub SameSession-refl : (i : Instance) → SameSession i i
SameSession-refl i = record { token = refl; register = refl; capacity = refl; bounded = λ b. b }

module _ (t : Tokio) where
  -- A step that does not write the table.
  pub same_inner :
      (s s' : InstanceMap t)
      → s'.inner ≡ s.inner
      → s'.next_token ≡ s.next_token
      → s'.default_instance ≡ s.default_instance
      → Keeps t s s'
  same_inner s s' inner next default = record {
    next_token = next;
    default_instance = default;
    entry = λ id j e. (j, rw inner at e, SameSession-refl j);
  }

  pub Keeps-refl : (s : InstanceMap t) → Keeps t s s
  Keeps-refl s = same_inner s s refl refl refl

  pub Keeps-trans : {s s' s'' : InstanceMap t} → Keeps t s s' → Keeps t s' s'' → Keeps t s s''
  Keeps-trans p q = record {
    next_token = q.next_token ∙ p.next_token;
    default_instance = q.default_instance ∙ p.default_instance;
    entry = λ id k e.
        let (j, ej, sj) = q.entry id k e in
        let (i, ei, si) = p.entry id j ej in
        (
          i,
          ei,
          record {
            token = sj.token ∙ si.token;
            register = sj.register ∙ si.register;
            capacity = sj.capacity ∙ si.capacity;
            bounded = λ b. sj.bounded (si.bounded b);
          },
        );
  }

  -- A write to an entry that keeps its session.
  write-Keeps :
      (s : InstanceMap t) (id : String) (i j : Instance)
      → Dict.lookup id s.inner ≡ some i
      → SameSession i j
      → Keeps t s (record s { inner = Dict.insert id j s.inner })
  write-Keeps s id i j there same = record {
    next_token = refl;
    default_instance = refl;
    entry = λ k j' e. elim (Bool-cases (id == k)) [
      | inl hit ↦
          let now : j ≡ j' = ground (arith, lookup-insert id k j s.inner) in
          (i, rw (← eq_of_beq id k hit) there, rw (← now) same)
      | inr miss ↦ (j', ground (arith, lookup-insert id k j s.inner), SameSession-refl j')
    ];
  }

  write_instance-Keeps :
      (s : InstanceMap t) (id : String) (f : Instance → Instance) (inst : Option Instance)
      → Dict.lookup id s.inner ≡ inst
      → ((i : Instance) → SameSession i (f i))
      → Keeps t s (write_instance t s id f inst)
  write_instance-Keeps s id f none e same = Keeps-refl s
  write_instance-Keeps s id f (some i) e same = write-Keeps s id i (f i) e (same i)

  pub set_heartbeat-Keeps :
      (s : InstanceMap t) (id : String) (token : ℕ) (hb : Heartbeat)
      → Keeps t s (set_heartbeat t s id token hb)
  unfolding set_heartbeat
  set_heartbeat-Keeps s id token hb = elim (Bool-cases (owns t s id token)) [
    | inl e ↦ rw e (
        write_instance-Keeps s id (λ inst. record inst { last_heartbeat = some hb })
          (Dict.lookup id s.inner) refl
          (λ i. record { token = refl; register = refl; capacity = refl; bounded = λ b. b }))
    | inr e ↦ rw e (Keeps-refl s)
  ]

  pub set_read_mask-Keeps :
      (s : InstanceMap t) (id : String) (paths : List String)
      → Keeps t s (set_read_mask t s id paths)
  unfolding set_read_mask
  set_read_mask-Keeps s id paths =
      write_instance-Keeps s id (λ inst. record inst { read_mask = paths }) (Dict.lookup id s.inner)
        refl (λ i. record { token = refl; register = refl; capacity = refl; bounded = λ b. b })

  pub set_exclude_log_components-Keeps :
      (s : InstanceMap t) (id : String) (components : List String)
      → Keeps t s (set_exclude_log_components t s id components)
  unfolding set_exclude_log_components
  set_exclude_log_components-Keeps s id components =
      write_instance-Keeps s id (λ inst. record inst { exclude_log_components = components })
        (Dict.lookup id s.inner) refl
        (λ i. record { token = refl; register = refl; capacity = refl; bounded = λ b. b })

  recv_from-Keeps :
      (s : InstanceMap t) (id : String) (inst : Option Instance)
      → Dict.lookup id s.inner ≡ inst
      → Keeps t s (recv_from t s id inst).0
  recv_from-Keeps s id none e = Keeps-refl s
  recv_from-Keeps s id (some i) e = write-Keeps s id i _ e (record {
    token = refl;
    register = refl;
    capacity = cap-try_recv i.inbound;
    bounded = try_recv-IsBounded i.inbound;
  })

  pub try_recv_inbound-Keeps :
      (s : InstanceMap t) (id : String) → Keeps t s (try_recv_inbound t s id).0
  unfolding try_recv_inbound
  try_recv_inbound-Keeps s id = recv_from-Keeps s id (Dict.lookup id s.inner) refl

  pub take_corr-Keeps : (s : InstanceMap t) → Keeps t s (take_corr t s).1
  unfolding take_corr
  take_corr-Keeps s = same_inner s _ refl refl refl

  deliver_to-Keeps :
      (s : InstanceMap t) (id : String) (msg : SimToServer) (inst : Option Instance)
      → Dict.lookup id s.inner ≡ inst
      → Keeps t s (deliver_to t s id msg inst)
  unfolding deliver
  deliver_to-Keeps s id msg none e = Keeps-refl s
  deliver_to-Keeps s id msg (some i) e = elim (Bool-cases (inbound_visible i.read_mask msg)) [
    | inr hidden ↦ rw hidden (Keeps-refl s)
    | inl seen ↦ elim (Bool-cases (is_excluded i.exclude_log_components msg.payload)) [
      | inl out ↦ rw (seen, out) (Keeps-refl s)
      | inr kept ↦
          rw (seen, kept)
            (write-Keeps s id i _ e (record {
              token = refl;
              register = refl;
              capacity = cap-push i.inbound msg;
              bounded = push-IsBounded i.inbound msg;
            }))
    ]
  ]

  complete_waiter-Keeps :
      (s : InstanceMap t) (msg : SimToServer) → Keeps t s (complete_waiter t s msg)
  unfolding complete_waiter
  complete_waiter-Keeps s msg = elim (Bool-cases (msg.corr == 0)) [
    | inl zero_corr ↦ rw zero_corr (Keeps-refl s)
    | inr corr ↦ elim (Option-cases (completed (Dict.lookup msg.corr s.waiters) msg)) [
      | inl none_completed ↦ rw (corr, none_completed) (Keeps-refl s)
      | inr (tx, e) ↦ rw (corr, e) (same_inner s _ refl refl refl)
    ]
  ]

  pub push_inbound-Keeps :
      (s : InstanceMap t) (id : String) (msg : SimToServer) → Keeps t s (push_inbound t s id msg)
  unfolding push_inbound
  push_inbound-Keeps s id msg =
      let s' = complete_waiter t s msg in
      Keeps-trans (complete_waiter-Keeps s msg)
        (deliver_to-Keeps s' id msg (Dict.lookup id s'.inner) refl)
