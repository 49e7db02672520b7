-- ===== src/History/Registry.antt =====
-- The table of instances of crates/csm-proxy/src/instances.rs after any history: ids, tokens and queues.
use crosspoint_simulator_mcp.Prelude.{
  ◌+◌, ◌≤◌, ◌<◌, ◌≡◌, refl, sym, ◌∙◌, ap, String, true, Option, none, some, List, [], ◌∷◌,
  string_eq, nat_eq, if◌then◌else◌, arith, Result, ok, err, length, not,
}
use crosspoint_simulator_mcp.Prelude.Dict
use crosspoint_simulator_mcp.Prelude.Dict.{lookup-insert}
use crosspoint_simulator_mcp.Messages.{Register}
use crosspoint_simulator_mcp.Tokio.{Tokio}
use crosspoint_simulator_mcp.State.{InstanceMap, is_valid_instance_id, queue_capacity, u64_modulus}
use crosspoint_simulator_mcp.Instances.{new, set_default_instance, valid_or_none}
use crosspoint_simulator_mcp.Session.{
  Item, message, failed, ConnectError, open_session, register_session, first_register, register_of,
}
use crosspoint_simulator_mcp.History.{
  Action, opens, receives, sends, finishes, enqueues, drains, masks, excludes, numbers, defaults,
  step, run, after_open,
}
use crosspoint_simulator_mcp.History.Insertion.{IsRegistry, insert-IsRegistry, next_token-insert}
use crosspoint_simulator_mcp.History.Entries.{Keeps}
use crosspoint_simulator_mcp.History.Table.{step-Keeps}

-- A session is registered under a valid id only.
pub first_register-valid :
    (first : Option Item) (register : Register)
    → first_register first ≡ ok register
    → is_valid_instance_id register.instance_id ≡ true
unfolding first_register
first_register-valid none register e = cc
first_register-valid (some failed) register e = cc
first_register-valid (some (message m)) register e = checked (register_of m.payload) e
  where
    checked :
        (r : Result Register ConnectError)
        → (elim r [
          | err e ↦ err e
          | ok register ↦
              if not (is_valid_instance_id register.instance_id)
              then err (ConnectError.invalid_argument "instance_id must be 1-64 bytes")
              else ok register
        ])
          ≡ ok register
        → is_valid_instance_id register.instance_id ≡ true
    checked (err f) h = cc
    checked (ok found) h = ground arith

valid_or_none-valid :
    (given : Option String) (id : String)
    → valid_or_none given ≡ some id
    → is_valid_instance_id id ≡ true
unfolding valid_or_none
valid_or_none-valid none id e = cc
valid_or_none-valid (some given) id e = ground arith

module _ (t : Tokio) where
  Keeps-IsRegistry : {s s' : InstanceMap t} → Keeps t s s' → IsRegistry t s → IsRegistry t s'
  Keeps-IsRegistry k v = record {
    entry = λ id j e.
        let (i, there, same) = k.entry id j e in
        let was = v.entry id i there in
        record {
          named = ap (λ (r : Register). r.instance_id) same.register ∙ was.named;
          valid = was.valid;
          issued = omega (arith, was.issued, same.token, k.next_token);
          capacity = same.capacity ∙ was.capacity;
          bounded = same.bounded was.bounded;
        };
    distinct = λ a b i j e f h.
        let (i', there_i, same_i) = k.entry a i e in
        let (j', there_j, same_j) = k.entry b j f in
        v.distinct a b i' j' there_i there_j (omega (arith, same_i.token, same_j.token));
    default_valid = λ id e. v.default_valid id (sym k.default_instance ∙ e);
  }

  opened-IsRegistry :
      (s : InstanceMap t) (first : Option Item) (r : Result Register ConnectError)
      → first_register first ≡ r
      → s.next_token + 1 < u64_modulus
      → IsRegistry t s
      → let s' =
          after_open t s
            (elim r [ err e ↦ err e | ok register ↦ ok (register_session t s register) ]) in
        IsRegistry t s' × (s'.next_token ≤ s.next_token + 1)
  unfolding register_session
  opened-IsRegistry s first (err e) h fits v = (v, omega arith)
  opened-IsRegistry s first (ok register) h fits v =
      let (tx, net) = t.mpsc_channel queue_capacity s.net in
      let s' : InstanceMap t = record s { net = net } in
      (
        insert-IsRegistry t s' register tx (first_register-valid first register h) fits
            (record { entry = v.entry; distinct = v.distinct; default_valid = v.default_valid }),
        next_token-insert t s' register tx,
      )

  Keeps-step :
      {s s' : InstanceMap t}
      → Keeps t s s'
      → IsRegistry t s
      → IsRegistry t s' × (s'.next_token ≤ s.next_token + 1)
  Keeps-step k v = (Keeps-IsRegistry k v, omega (arith, k.next_token))

  step-IsRegistry :
      (s : InstanceMap t) (a : Action)
      → s.next_token + 1 < u64_modulus
      → IsRegistry t s
      → IsRegistry t (step t s a) × ((step t s a).next_token ≤ s.next_token + 1)
  unfolding step open_session set_default_instance
  step-IsRegistry s (opens first) fits v =
      opened-IsRegistry s first (first_register first) refl fits v
  step-IsRegistry s (defaults id) fits v = (
    record { entry = v.entry; distinct = v.distinct; default_valid = valid_or_none-valid id },
    omega arith,
  )
  step-IsRegistry s (receives session item) fits v =
      Keeps-step (step-Keeps t s (receives session item) tt) v
  step-IsRegistry s (sends id msg kind) fits v =
      Keeps-step (step-Keeps t s (sends id msg kind) tt) v
  step-IsRegistry s (finishes corr rx elapsed) fits v =
      Keeps-step (step-Keeps t s (finishes corr rx elapsed) tt) v
  step-IsRegistry s (enqueues id msg) fits v = Keeps-step (step-Keeps t s (enqueues id msg) tt) v
  step-IsRegistry s (drains id) fits v = Keeps-step (step-Keeps t s (drains id) tt) v
  step-IsRegistry s (masks id paths) fits v = Keeps-step (step-Keeps t s (masks id paths) tt) v
  step-IsRegistry s (excludes id components) fits v =
      Keeps-step (step-Keeps t s (excludes id components) tt) v
  step-IsRegistry s numbers fits v = Keeps-step (step-Keeps t s numbers tt) v

  run_from-IsRegistry :
      (s : InstanceMap t) (actions : List Action)
      → s.next_token + length actions < u64_modulus
      → IsRegistry t s
      → IsRegistry t (run t s actions)
  unfolding run
  run_from-IsRegistry s [] fits v = v
  run_from-IsRegistry s (a ∷ actions) fits v =
      let (now, grows) = step-IsRegistry s a (omega arith) v in
      run_from-IsRegistry (step t s a) actions (omega arith) now

  new-IsRegistry : (net : t.Net) → IsRegistry t (new t net) × ((new t net).next_token ≡ 1)
  unfolding new Dict.lookup
  new-IsRegistry net = (
    record { entry = λ id inst e. cc; distinct = λ a b i j e f h. cc; default_valid = λ id e. cc },
    refl,
  )

  -- After fewer than 2^64 - 1 actions on an empty map: every instance stands under its own id of 1 to 64
  -- bytes, its inbound queue holds at most 128 messages, no two instances have the same token, and a
  -- default id is a valid id.
  pub run-IsRegistry :
      (net : t.Net) (actions : List Action)
      → length actions + 1 < u64_modulus
      → IsRegistry t (run t (new t net) actions)
  run-IsRegistry net actions fits =
      let (v, start) = new-IsRegistry net in run_from-IsRegistry (new t net) actions (omega arith) v
