-- ===== src/State.antt =====
-- The data of crates/csm-proxy/src/instances.rs: ids, errors, instances and the state of `InstanceMap`,
-- where a `Mutex` or an `Atomic` is a field.
use Prim.Native.String.{len}
use crosspoint_simulator_mcp.Prelude.{
  ℕ, ◌^◌, String, Bool, true, false, not, ◌&&◌, ◌||◌, Option, none, some, List, [], ◌∷◌, ◌==◌,
  string_eq, leb, any,
}
use crosspoint_simulator_mcp.Messages.{Register, Heartbeat, SimToServer, SimPayload}
use crosspoint_simulator_mcp.Queue.{InboundQueue}
use crosspoint_simulator_mcp.Tokio.{Tokio}

abbrev pub queue_capacity : ℕ
queue_capacity = 128

abbrev pub u64_modulus : ℕ
u64_modulus = 2 ^ 64

abbrev pub instance_id_max_len : ℕ
instance_id_max_len = 64

unfoldable pub is_valid_instance_id : String → Bool
is_valid_instance_id id = not (id == "") && leb (len id) instance_id_max_len

pub data WaitKind : Type 0 where
  any_reply input_ack ui_result snapshot : WaitKind

pub data TrySendError : Type 0 where
  unknown_instance queue_full : TrySendError

pub data WaitError : Type 0 where
  unknown_instance queue_full timeout disconnected : WaitError

pub data ResolveError : Type 0 where
  empty_id unknown_instance : ResolveError

pub record InstanceSnapshot : Type 0 where
  pub token : ℕ
  pub register : Register
  pub last_heartbeat : Option Heartbeat

pub record Instance : Type 0 where
  pub token : ℕ
  pub register : Register
  pub last_heartbeat : Option Heartbeat
  pub inbound : InboundQueue
  pub outbound_tx : ℕ
  pub read_mask : List String
  pub exclude_log_components : List String

-- `waiters` holds for each `corr` the kind of reply and the handle of the oneshot sender.
pub record InstanceMap (t : Tokio) : Type 0 where
  pub inner : List (String × Instance)
  pub next_token : ℕ
  pub next_corr : ℕ
  pub default_instance : Option String
  pub waiters : List (ℕ × (WaitKind × ℕ))
  pub waiter_instance : List (ℕ × String)
  pub net : t.Net

abbrev pub instance_snapshot : Instance → InstanceSnapshot
instance_snapshot inst = record {
  token = inst.token;
  register = inst.register;
  last_heartbeat = inst.last_heartbeat;
}

unfoldable pub payload_name : Option SimPayload → Option String
payload_name (some (SimPayload.register _)) = some "register"
payload_name (some (SimPayload.heartbeat _)) = some "heartbeat"
payload_name (some (SimPayload.snapshot _)) = some "snapshot"
payload_name (some (SimPayload.snapshot_error _)) = some "snapshot_error"
payload_name (some (SimPayload.log _)) = some "log"
payload_name (some (SimPayload.input_ack _)) = some "input_ack"
payload_name (some (SimPayload.input_observed _)) = some "input_observed"
payload_name (some (SimPayload.goodbye _)) = some "goodbye"
payload_name (some (SimPayload.ui_result _)) = some "ui_result"
payload_name none = none

abbrev pub inbound_payload_name : SimToServer → Option String
inbound_payload_name msg = payload_name msg.payload

abbrev pub is_nil {ℓ} : {A : Type ℓ} → List A → Bool
is_nil [] = true
is_nil (x ∷ xs) = false

unfoldable pub mask_has : List String → Option String → Bool
mask_has mask none = false
mask_has mask (some name) = any (λ path. path == name) mask

unfoldable pub inbound_visible : List String → SimToServer → Bool
unfolding mask_has
inbound_visible mask msg = is_nil mask || mask_has mask (inbound_payload_name msg)
