-- ===== src/Tests/Queue.antt =====
-- The inbound queue at a capacity of two.
use crosspoint_simulator_mcp.Prelude.{ℕ, ◌≡◌, refl, true, String, some, List, [], ◌∷◌, arith}
use crosspoint_simulator_mcp.Messages.{SimToServer, SimPayload}
use crosspoint_simulator_mcp.Queue.{
  InboundQueue, push, eviction_index, is_never_drop, eviction_rank,
}
use crosspoint_simulator_mcp.Queue.Bounds.{IsBounded, push-IsBounded}
use crosspoint_simulator_mcp.Queue.Keeping.{kept, push_all, kept-push_all, push_full_of_kept}

abbrev pub log_of : ℕ → String → SimToServer
log_of seq component = record {
  seq = seq;
  corr = 0;
  payload = some (
      SimPayload.log
        (record { seq = seq; log_type = 1; severity = 2; component = component; text = "line" }));
}

abbrev pub ack_of : ℕ → SimToServer
ack_of seq = record {
  seq = seq;
  corr = seq;
  payload = some (SimPayload.input_ack (record { accepted = true; reason = "" }));
}

abbrev mixed : List SimToServer
mixed = log_of 1 "ACT" ∷ log_of 2 "APP" ∷ log_of 3 "MEM" ∷ log_of 4 "SCT" ∷ []

abbrev two : InboundQueue
two = record { items = ack_of 1 ∷ log_of 2 "MEM" ∷ []; cap = 2 }

abbrev full_of_acks : InboundQueue
full_of_acks = record { items = ack_of 1 ∷ ack_of 2 ∷ []; cap = 2 }

two-IsBounded : IsBounded two
two-IsBounded = record { within = omega arith; addressable = omega arith }

acks-IsBounded : IsBounded full_of_acks
acks-IsBounded = record { within = omega arith; addressable = omega arith }

eviction_index_runs : eviction_index mixed ≡ some 2
unfolding eviction_index eviction_rank
eviction_index_runs = refl

push_evicts : (push two (ack_of 3)).items ≡ ack_of 1 ∷ ack_of 3 ∷ []
unfolding push eviction_index eviction_rank
push_evicts = refl

push-IsBounded_example : IsBounded (push two (ack_of 3))
push-IsBounded_example = push-IsBounded two (ack_of 3) two-IsBounded

kept-push_all_example :
    kept (push_all two (log_of 3 "APP" ∷ log_of 4 "ERS" ∷ [])).items
    ≡ ack_of 1 ∷ log_of 4 "ERS" ∷ []
unfolding is_never_drop
kept-push_all_example =
    kept-push_all two (log_of 3 "APP" ∷ log_of 4 "ERS" ∷ []) two-IsBounded (omega arith)

push_full_of_kept_example : push full_of_acks (ack_of 3) ≡ full_of_acks
unfolding is_never_drop
push_full_of_kept_example = push_full_of_kept full_of_acks (ack_of 3) acks-IsBounded refl
