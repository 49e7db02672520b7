-- ===== src/Mcp/View/Wire.antt =====
-- The session view of crates/csm-proxy/src/mcp.rs: what the simulator is asked to send against what the
-- host shows.
use crosspoint_simulator_mcp.Prelude.{
  ◌≡◌, refl, String, true, false, ◌||◌, Option, none, some, List, [], ◌∷◌, ◌++◌, any, arith,
  Bool-cases, ◌==◌, string_eq, inl, inr,
}
use crosspoint_simulator_mcp.Messages.{SimToServer, SimPayload}
use crosspoint_simulator_mcp.Queue.{is_heartbeat, is_heartbeat_payload}
use crosspoint_simulator_mcp.State.{mask_has, inbound_visible, payload_name, is_nil}
use crosspoint_simulator_mcp.Mcp.View.{wire_session_view_paths}

mask_has-append :
    (paths : List String) (name : Option String)
    → mask_has (paths ++ "heartbeat" ∷ []) name
      ≡ (mask_has paths name || mask_has ("heartbeat" ∷ []) name)
unfolding mask_has
mask_has-append paths none = refl
mask_has-append [] (some name) = refl
mask_has-append (p ∷ paths) (some name) = ground (arith, mask_has-append paths (some name))

-- A payload is named heartbeat exactly if it is one.
named_heartbeat :
    (payload : Option SimPayload)
    → mask_has ("heartbeat" ∷ []) (payload_name payload) ≡ is_heartbeat_payload payload
unfolding mask_has payload_name is_heartbeat_payload
named_heartbeat none = refl
named_heartbeat (some (SimPayload.register _)) = refl
named_heartbeat (some (SimPayload.heartbeat _)) = refl
named_heartbeat (some (SimPayload.snapshot _)) = refl
named_heartbeat (some (SimPayload.snapshot_error _)) = refl
named_heartbeat (some (SimPayload.log _)) = refl
named_heartbeat (some (SimPayload.input_ack _)) = refl
named_heartbeat (some (SimPayload.input_observed _)) = refl
named_heartbeat (some (SimPayload.goodbye _)) = refl
named_heartbeat (some (SimPayload.ui_result _)) = refl

-- A mask that names heartbeats shows them.
mask_has-heartbeat :
    (paths : List String) (payload : Option SimPayload)
    → any (λ path. path == "heartbeat") paths ≡ true
    → is_heartbeat_payload payload ≡ true
    → mask_has paths (payload_name payload) ≡ true
unfolding mask_has payload_name is_heartbeat_payload
mask_has-heartbeat paths (some (SimPayload.heartbeat _)) h e = h
mask_has-heartbeat paths none h e = cc
mask_has-heartbeat paths (some (SimPayload.register _)) h e = cc
mask_has-heartbeat paths (some (SimPayload.snapshot _)) h e = cc
mask_has-heartbeat paths (some (SimPayload.snapshot_error _)) h e = cc
mask_has-heartbeat paths (some (SimPayload.log _)) h e = cc
mask_has-heartbeat paths (some (SimPayload.input_ack _)) h e = cc
mask_has-heartbeat paths (some (SimPayload.input_observed _)) h e = cc
mask_has-heartbeat paths (some (SimPayload.goodbye _)) h e = cc
mask_has-heartbeat paths (some (SimPayload.ui_result _)) h e = cc

is_nil-append : (paths : List String) (p : String) → is_nil (paths ++ p ∷ []) ≡ false
is_nil-append [] p = refl
is_nil-append (q ∷ paths) p = refl

-- The mask that the simulator is sent shows the messages that the mask of the host shows, and every
-- heartbeat besides, and nothing else.
pub wire_session_view_paths-visible :
    (paths : List String) (msg : SimToServer)
    → inbound_visible (wire_session_view_paths paths) msg
      ≡ (inbound_visible paths msg || is_heartbeat msg)
unfolding wire_session_view_paths inbound_visible is_heartbeat
wire_session_view_paths-visible paths msg =
    elim (Bool-cases (any (λ path. path == "heartbeat") paths)) [
      | inl h ↦ rw h (ground (arith, mask_has-heartbeat paths msg.payload h))
      | inr h ↦ rw h (
          ground (
            arith,
            is_nil-append paths "heartbeat",
            mask_has-append paths (payload_name msg.payload),
            named_heartbeat msg.payload,
          ))
    ]
