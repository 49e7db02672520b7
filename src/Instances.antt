-- ===== src/Instances.antt =====
-- InstanceMap of crates/csm-proxy/src/instances.rs: the operations on the table of instances. Each
-- method holds its locks for one step.
pub mod Resolve
use mathlib.Core.Option
use crosspoint_simulator_mcp.Prelude.{
  ok_or, ℕ, ◌+◌, ◌%◌, String, Bool, false, not, Option, none, some, List, [], ◌==◌, string_eq,
  nat_eq, map, if◌then◌else◌, Result, ok, err,
}
use crosspoint_simulator_mcp.Prelude.Dict
use crosspoint_simulator_mcp.Messages.{Register, Heartbeat, SimToServer, ServerToSim}
use crosspoint_simulator_mcp.Queue.{new_queue, try_recv}
use crosspoint_simulator_mcp.Tokio.{Tokio}
use crosspoint_simulator_mcp.State.{
  u64_modulus, is_valid_instance_id, TrySendError, ResolveError, InstanceSnapshot, Instance,
  InstanceMap, instance_snapshot,
}

unfoldable pub new_instance : ℕ → Register → ℕ → ℕ → Instance
unfolding new_queue
new_instance token register inbound_cap outbound_tx = record {
  token = token;
  register = register;
  last_heartbeat = none;
  inbound = new_queue inbound_cap;
  outbound_tx = outbound_tx;
  read_mask = [];
  exclude_log_components = [];
}

unfoldable pub valid_or_none : Option String → Option String
unfolding is_valid_instance_id
valid_or_none none = none
valid_or_none (some id) = if is_valid_instance_id id then some id else none

module _ (t : Tokio) where
  unfoldable pub new : t.Net → InstanceMap t
  new net = record {
    inner = [];
    next_token = 1;
    next_corr = 1;
    default_instance = none;
    waiters = [];
    waiter_instance = [];
    net = net;
  }

  -- The drop of an instance drops its outbound sender.
  abbrev pub drop_instance : Option Instance → t.Net → t.Net
  drop_instance none net = net
  drop_instance (some inst) net = t.drop_sender inst.outbound_tx net

  unfoldable pub insert : InstanceMap t → Register → ℕ → ℕ → InstanceMap t × ℕ
  unfolding new_instance
  insert s register inbound_cap outbound_tx = (
    record s {
      next_token = (s.next_token + 1) % u64_modulus;
      inner =
          Dict.insert register.instance_id
            (new_instance s.next_token register inbound_cap outbound_tx) s.inner;
      net = drop_instance (Dict.lookup register.instance_id s.inner) s.net;
    },
    s.next_token,
  )

  abbrev pub has_token : ℕ → Option Instance → Bool
  has_token token none = false
  has_token token (some inst) = inst.token == token

  unfoldable pub owns : InstanceMap t → String → ℕ → Bool
  owns s instance_id token = has_token token (Dict.lookup instance_id s.inner)

  -- `get_mut`, and a write through the reference.
  abbrev pub write_instance :
      InstanceMap t → String → (Instance → Instance) → Option Instance → InstanceMap t
  write_instance s instance_id f none = s
  write_instance s instance_id f (some inst) = record s {
    inner = Dict.insert instance_id (f inst) s.inner;
  }

  abbrev pub update_instance : InstanceMap t → String → (Instance → Instance) → InstanceMap t
  update_instance s instance_id f = write_instance s instance_id f (Dict.lookup instance_id s.inner)

  -- The test of the token and the write are made under one lock.
  unfoldable pub set_heartbeat : InstanceMap t → String → ℕ → Heartbeat → InstanceMap t
  unfolding owns
  set_heartbeat s instance_id token heartbeat =
      if owns s instance_id token
      then update_instance s instance_id (λ inst. record inst { last_heartbeat = some heartbeat })
      else s

  unfoldable pub list : InstanceMap t → List String
  list s = Dict.keys s.inner

  unfoldable pub snapshots : InstanceMap t → List InstanceSnapshot
  snapshots s = map instance_snapshot (Dict.values s.inner)

  -- `fetch_add`: the value before, which the next call does not return.
  unfoldable pub take_corr : InstanceMap t → ℕ × InstanceMap t
  take_corr s = (s.next_corr, record s { next_corr = (s.next_corr + 1) % u64_modulus })

  unfoldable pub set_default_instance : InstanceMap t → Option String → InstanceMap t
  unfolding valid_or_none
  set_default_instance s id = record s { default_instance = valid_or_none id }

  unfoldable pub get : InstanceMap t → String → Option InstanceSnapshot
  get s instance_id = Option.map instance_snapshot (Dict.lookup instance_id s.inner)

  unfoldable pub resolve : InstanceMap t → String → Result InstanceSnapshot ResolveError
  unfolding get
  resolve s id =
      if not (is_valid_instance_id id)
      then err ResolveError.empty_id
      else ok_or (get s id) ResolveError.unknown_instance

  unfoldable pub resolve_or_default :
      InstanceMap t → Option String → Result InstanceSnapshot ResolveError
  unfolding resolve
  resolve_or_default s (some id) = resolve s id
  resolve_or_default s none = elim s.default_instance [
    | some default ↦ resolve s default
    | none ↦ err ResolveError.empty_id
  ]

  abbrev pub sent : InstanceMap t → Option t.Net → Result (InstanceMap t) TrySendError
  sent s none = err TrySendError.queue_full
  sent s (some net) = ok (record s { net = net })

  abbrev pub send_to :
      InstanceMap t → ServerToSim → Option Instance → Result (InstanceMap t) TrySendError
  send_to s msg none = err TrySendError.unknown_instance
  send_to s msg (some inst) = sent s (t.try_send inst.outbound_tx msg s.net)

  unfoldable pub try_send :
      InstanceMap t → String → ServerToSim → Result (InstanceMap t) TrySendError
  try_send s instance_id msg = send_to s msg (Dict.lookup instance_id s.inner)

  unfoldable pub set_read_mask : InstanceMap t → String → List String → InstanceMap t
  set_read_mask s instance_id paths =
      update_instance s instance_id (λ inst. record inst { read_mask = paths })

  unfoldable pub read_mask : InstanceMap t → String → Option (List String)
  read_mask s instance_id = Option.map (λ inst. inst.read_mask) (Dict.lookup instance_id s.inner)

  unfoldable pub set_exclude_log_components : InstanceMap t → String → List String → InstanceMap t
  set_exclude_log_components s instance_id components =
      update_instance s instance_id (λ inst. record inst { exclude_log_components = components })

  unfoldable pub exclude_log_components : InstanceMap t → String → Option (List String)
  exclude_log_components s instance_id =
      Option.map (λ inst. inst.exclude_log_components) (Dict.lookup instance_id s.inner)

  abbrev pub recv_from :
      InstanceMap t → String → Option Instance → InstanceMap t × Option SimToServer
  recv_from s instance_id none = (s, none)
  recv_from s instance_id (some inst) =
      let (q, msg) = try_recv inst.inbound in
      (record s { inner = Dict.insert instance_id (record inst { inbound = q }) s.inner }, msg)

  unfoldable pub try_recv_inbound : InstanceMap t → String → InstanceMap t × Option SimToServer
  try_recv_inbound s instance_id = recv_from s instance_id (Dict.lookup instance_id s.inner)
