-- ===== src/Mcp/Inject.antt =====
-- crates/csm-proxy/src/mcp.rs: the inject tools, which queue an input for the simulator and wait for its
-- answer.
pub mod Outcome
use crosspoint_simulator_mcp.Prelude.{
  ℕ, suc, ◌++◌, String, Bool, true, false, not, Option, none, some, List, [], ◌∷◌, Result, ok, err,
  ◌==◌, string_eq, unwrap_or, or_else, if◌then◌else◌,
}
use Prim.Native.String.{◌++◌ as append}
use crosspoint_simulator_mcp.Messages.{
  SimToServer, ServerPayload, SimPayload, CoordinateSpace, Heartbeat, UiResult, InjectTouch,
  InjectKey, InjectSwipe,
}
use crosspoint_simulator_mcp.Tokio.{Tokio}
use crosspoint_simulator_mcp.State.{InstanceMap, InstanceSnapshot, WaitKind}
use crosspoint_simulator_mcp.Instances.{get}
use crosspoint_simulator_mcp.Json.{Value, null, bool, string, json, nat_json, json_array}
use crosspoint_simulator_mcp.Mcp.Requests.{
  Pause, Reply, resolve, enqueue, enqueue_wait, reply_timeout,
}

unfoldable pub inject_wait_kind : Option String → Result WaitKind String
inject_wait_kind wait_mode =
    let mode = unwrap_or wait_mode "paint" in
    if mode == "paint"
    then ok WaitKind.ui_result
    else if mode == "ack"
    then ok WaitKind.any_reply
    else err (append "unknown wait_mode: " mode)

unfoldable pub parse_coordinate_space : Option String → Result CoordinateSpace String
parse_coordinate_space space =
    let name = unwrap_or space "logical" in
    if name == "logical"
    then ok CoordinateSpace.logical
    else if name == "panel"
    then ok CoordinateSpace.panel
    else err (append "unknown coordinate_space: " name)

-- What a tool call takes besides its own arguments.
pub record Waiting : Type 0 where
  pub wait : Bool
  pub wait_mode : Option String
  pub space : Option String
  pub wait_ms : Option ℕ

abbrev pub heartbeat_of : Option InstanceSnapshot → Option Heartbeat
heartbeat_of none = none
heartbeat_of (some snap) = snap.last_heartbeat

abbrev pub generation_json : Option Heartbeat → Value
generation_json none = null
generation_json (some hb) = nat_json hb.framebuffer_generation

abbrev pub activity_of : Option Heartbeat → String
activity_of none = ""
activity_of (some hb) = hb.activity

abbrev pub painted_json : String → ℕ → UiResult → Value
painted_json id corr result = json (
    ("accepted", bool true)
    ∷ ("painted", bool result.painted)
    ∷ ("generation", nat_json result.generation)
    ∷ ("activity", string result.activity)
    ∷ ("instanceId", string id)
    ∷ ("corr", nat_json corr)
    ∷ [])

abbrev pub acked_json : String → ℕ → Option Heartbeat → Value
acked_json id corr hb = json (
    ("accepted", bool true)
    ∷ ("instanceId", string id)
    ∷ ("corr", nat_json corr)
    ∷ ("generation", generation_json hb)
    ∷ ("activity", string (activity_of hb))
    ∷ [])

module _ (t : Tokio) where
  -- A call: no result where its pause does not end it.
  abbrev pub Call : Type 0
  Call = Option (InstanceMap t × Result Value String)

  -- The answer to a tool from the payload of the reply.
  unfoldable pub inject_reply : InstanceMap t → String → ℕ → Option SimPayload → Result Value String
  inject_reply s id corr (some (SimPayload.ui_result result)) = ok (painted_json id corr result)
  inject_reply s id corr (some (SimPayload.input_ack ack)) =
      if ack.accepted
      then ok (acked_json id corr (heartbeat_of (get t s id)))
      else err (if ack.reason == "" then "inject rejected" else ack.reason)
  inject_reply s id corr _ = err "unexpected session reply"

  abbrev pub answered : Option (InstanceMap t × Reply t) → Call
  answered none = none
  answered (some (s, err e)) = some (s, err e)
  answered (some (s, ok (id, corr, reply))) = some (s, inject_reply s id corr reply.payload)

  abbrev pub inject_as :
      InstanceMap t
      → Pause
      → Option String
      → Option ℕ
      → ServerPayload
      → Result WaitKind String
      → Call
  inject_as s pause instance_id wait_ms payload (err e) = some (s, err e)
  inject_as s pause instance_id wait_ms payload (ok kind) =
      answered
        (enqueue_wait t s pause instance_id true payload kind (unwrap_or wait_ms reply_timeout))

  unfoldable pub inject : InstanceMap t → Pause → Option String → Waiting → ServerPayload → Call
  unfolding inject_wait_kind
  inject s pause instance_id w payload =
      if not w.wait
      then some (enqueue t s instance_id false payload)
      else inject_as s pause instance_id w.wait_ms payload (inject_wait_kind w.wait_mode)

  -- A tool whose payload names a coordinate space.
  abbrev pub inject_in :
      InstanceMap t
      → Pause
      → Option String
      → Waiting
      → (CoordinateSpace → ServerPayload)
      → Result CoordinateSpace String
      → Call
  inject_in s pause instance_id w payload (err e) = some (s, err e)
  inject_in s pause instance_id w payload (ok space) = inject s pause instance_id w (payload space)

  unfoldable pub inject_touch_json :
      InstanceMap t → Pause → Option String → ℕ → ℕ → ℕ → Waiting → Call
  unfolding parse_coordinate_space
  inject_touch_json s pause instance_id kind x y w =
      inject_in s pause instance_id w
        (λ space.
          ServerPayload.inject_touch
            (record { kind = kind; x = x; y = y; coordinate_space = space }))
        (parse_coordinate_space w.space)

  unfoldable pub inject_key_json :
      InstanceMap t → Pause → Option String → String → ℕ → Waiting → Call
  inject_key_json s pause instance_id name hold_ms w =
      inject s pause instance_id w
        (ServerPayload.inject_key (record { name = name; hold_ms = hold_ms }))

  unfoldable pub inject_home_json : InstanceMap t → Pause → Option String → ℕ → Waiting → Call
  inject_home_json s pause instance_id hold_ms w =
      inject s pause instance_id w (ServerPayload.inject_home hold_ms)

  unfoldable pub inject_swipe_json :
      InstanceMap t → Pause → Option String → ℕ → ℕ → ℕ → ℕ → ℕ → Waiting → Call
  unfolding parse_coordinate_space
  inject_swipe_json s pause instance_id start_x start_y end_x end_y duration_ms w =
      inject_in s pause instance_id w
        (λ space. ServerPayload.inject_swipe (record {
          start_x = start_x;
          start_y = start_y;
          end_x = end_x;
          end_y = end_y;
          duration_ms = duration_ms;
          coordinate_space = space;
        }))
        (parse_coordinate_space w.space)
