-- ===== src/Queue/Rank.antt =====
-- The eviction rank against `is_never_drop` (crates/csm-proxy/src/instances.rs).
use crosspoint_simulator_mcp.Prelude.{
  ◌≤◌, ◌≡◌, refl, true, false, Option, none, some, arith, ltb, not, String, string_eq, ◌==◌,
  eq_of_beq,
}
use crosspoint_simulator_mcp.Messages.{SimToServer, SimPayload}
use crosspoint_simulator_mcp.Queue.{
  is_never_drop, is_never_drop_payload, is_heartbeat, is_heartbeat_payload, eviction_rank,
  eviction_rank_payload,
}

-- A text that equals one of two different texts does not equal the other.
beq_other : (c s t : String) → (s == t) ≡ false → (c == s) ≡ true → (c == t) ≡ false
beq_other c s t differ same = rw (eq_of_beq c s same) differ

rank_payload-never_drop :
    (p : Option SimPayload) → ltb 0 (eviction_rank_payload p) ≡ not (is_never_drop_payload p)
unfolding eviction_rank_payload
rank_payload-never_drop none = refl
rank_payload-never_drop (some (SimPayload.log line)) = ground (
  arith,
  beq_other line.component "MEM" "ACT" refl,
  beq_other line.component "MEM" "ERS" refl,
  beq_other line.component "SCT" "ACT" refl,
  beq_other line.component "SCT" "ERS" refl,
)
rank_payload-never_drop (some _) = refl

-- The eviction considers exactly the messages that are not marked never-drop.
pub rank-never_drop : (m : SimToServer) → ltb 0 (eviction_rank m) ≡ not (is_never_drop m)
unfolding eviction_rank is_never_drop
rank-never_drop m = rank_payload-never_drop m.payload

rank_payload_le : (p : Option SimPayload) → eviction_rank_payload p ≤ 4
unfolding eviction_rank_payload
rank_payload_le none = omega arith
rank_payload_le (some (SimPayload.log line)) = ground arith
rank_payload_le (some _) = omega arith

pub rank_le : (m : SimToServer) → eviction_rank m ≤ 4
unfolding eviction_rank
rank_le m = rank_payload_le m.payload

heartbeat_payload-never_drop :
    (p : Option SimPayload) → is_heartbeat_payload p ≡ true → is_never_drop_payload p ≡ false
unfolding is_heartbeat_payload is_never_drop_payload
heartbeat_payload-never_drop none h = refl
heartbeat_payload-never_drop (some (SimPayload.heartbeat _)) h = refl
heartbeat_payload-never_drop (some _) h = cc

pub heartbeat-never_drop : (m : SimToServer) → is_heartbeat m ≡ true → is_never_drop m ≡ false
unfolding is_heartbeat is_never_drop
heartbeat-never_drop m h = heartbeat_payload-never_drop m.payload h
