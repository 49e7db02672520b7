-- ===== src/Queue.antt =====
-- InboundQueue of crates/csm-proxy/src/instances.rs with the eviction order.
pub mod Rank
pub mod Evict
pub mod Bounds
pub mod Keeping
use crosspoint_simulator_mcp.Prelude.{
  ℕ, ◌+◌, ◌-◌, ◌^◌, Bool, true, false, string_eq, not, ◌&&◌, ◌||◌, Option, none, some, List, [],
  ◌∷◌, ◌++◌, ◌==◌, length, ltb, leb, filter, nat_beq, nat_eq, if◌then◌else◌, remove_at,
}
use mathlib.Core.Option
use crosspoint_simulator_mcp.Messages.{SimToServer, SimPayload}

pub record InboundQueue : Type 0 where
  pub items : List SimToServer
  pub cap : ℕ

unfoldable pub is_heartbeat_payload : Option SimPayload → Bool
is_heartbeat_payload (some (SimPayload.heartbeat _)) = true
is_heartbeat_payload _ = false

unfoldable pub is_heartbeat : SimToServer → Bool
unfolding is_heartbeat_payload
is_heartbeat msg = is_heartbeat_payload msg.payload

unfoldable pub is_never_drop_payload : Option SimPayload → Bool
is_never_drop_payload (some (SimPayload.input_ack _)) = true
is_never_drop_payload (some (SimPayload.ui_result _)) = true
is_never_drop_payload (some (SimPayload.snapshot _)) = true
is_never_drop_payload (some (SimPayload.snapshot_error _)) = true
is_never_drop_payload (some (SimPayload.log line)) =
    line.component == "ACT" || line.component == "ERS"
is_never_drop_payload _ = false

unfoldable pub is_never_drop : SimToServer → Bool
unfolding is_never_drop_payload
is_never_drop msg = is_never_drop_payload msg.payload

unfoldable pub eviction_rank_payload : Option SimPayload → ℕ
unfolding is_never_drop_payload
eviction_rank_payload (some (SimPayload.heartbeat _)) = 4
eviction_rank_payload (some (SimPayload.log line)) =
    if line.component == "MEM" || line.component == "SCT"
    then 3
    else if line.component == "ACT" || line.component == "ERS"
    then 0
    else 2
eviction_rank_payload other = if not (is_never_drop_payload other) then 1 else 0

unfoldable pub eviction_rank : SimToServer → ℕ
unfolding eviction_rank_payload
eviction_rank msg = eviction_rank_payload msg.payload

abbrev pub usize_max : ℕ
usize_max = 2 ^ 64 - 1

-- `Iterator::enumerate` from an index.
unfoldable pub enumerate {ℓ} : {A : Type ℓ} → ℕ → List A → List (ℕ × A)
enumerate i [] = []
enumerate i (x ∷ xs) = (i, x) ∷ enumerate (i + 1) xs

-- The order of the pairs that are the keys of `max_by_key`.
unfoldable pub key_leb : ℕ × ℕ → ℕ × ℕ → Bool
key_leb (a, b) (c, d) = ltb a c || nat_beq a c && leb b d

unfoldable pub eviction_key : ℕ × SimToServer → ℕ × ℕ
eviction_key (index, msg) = (eviction_rank msg, usize_max - index)

-- `Iterator::max_by_key`: of equal keys the last one is kept.
unfoldable pub max_by_key :
    Option (ℕ × SimToServer) → List (ℕ × SimToServer) → Option (ℕ × SimToServer)
unfolding key_leb eviction_key
max_by_key best [] = best
max_by_key none (e ∷ es) = max_by_key (some e) es
max_by_key (some b) (e ∷ es) =
    max_by_key (some (if key_leb (eviction_key b) (eviction_key e) then e else b)) es

unfoldable pub candidates : ℕ → List SimToServer → List (ℕ × SimToServer)
unfolding enumerate
candidates i items = filter (λ e. ltb 0 (eviction_rank e.1)) (enumerate i items)

unfoldable pub eviction_index : List SimToServer → Option ℕ
unfolding candidates max_by_key
eviction_index items = Option.map (λ e. e.0) (max_by_key none (candidates 0 items))

unfoldable pub new_queue : ℕ → InboundQueue
new_queue cap = record { items = []; cap = cap }

abbrev push_back : InboundQueue → SimToServer → InboundQueue
push_back q msg = record q { items = q.items ++ msg ∷ [] }

unfoldable pub push : InboundQueue → SimToServer → InboundQueue
unfolding is_heartbeat is_never_drop
push q msg =
    if length q.items == q.cap
    then (if is_heartbeat msg then q else elim (eviction_index q.items) [
      | some index ↦ push_back (record q { items = remove_at index q.items }) msg
      | none ↦ if not (is_never_drop msg) then q else q
    ])
    else push_back q msg

unfoldable pub pop_front : InboundQueue → List SimToServer → InboundQueue × Option SimToServer
pop_front q [] = (q, none)
pop_front q (msg ∷ rest) = (record q { items = rest }, some msg)

unfoldable pub try_recv : InboundQueue → InboundQueue × Option SimToServer
unfolding pop_front
try_recv q = pop_front q q.items
