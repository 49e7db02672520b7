-- ===== src/Mcp/Observe.antt =====
-- crates/csm-proxy/src/mcp.rs: `observe`, which drains the inbound queue and may wait for a condition on
-- the drained events and on the last heartbeat.
pub mod Drain
pub mod Rounds
pub mod Report
pub mod Spec
pub mod Logged
pub mod Noticed
use Prim.Native.String.{◌++◌ as append}
use crosspoint_simulator_mcp.Prelude.{
  ℕ, zero, suc, ◌++◌, ◌&&◌, ◌||◌, String, Bool, true, false, not, Option, none, some, List, [], ◌∷◌,
  Result, ok, err, ◌==◌, string_eq, nat_eq, ℤ, pos, negsuc, unwrap_or, is_some, any, length, ltb,
  leb, if◌then◌else◌,
}
use crosspoint_simulator_mcp.Prelude.Dict
use crosspoint_simulator_mcp.Messages.{SimToServer, Heartbeat}
use crosspoint_simulator_mcp.Tokio.{Tokio}
use crosspoint_simulator_mcp.State.{Instance, InstanceMap, InstanceSnapshot, inbound_visible}
use crosspoint_simulator_mcp.Instances.{get, try_recv_inbound, read_mask}
use crosspoint_simulator_mcp.History.{Action, run}
use crosspoint_simulator_mcp.Text.{codes, contains, tagged_i32}
use crosspoint_simulator_mcp.Json.{
  Value, null, bool, number, string, json, nat_json, json_array, option_json, as_str, Serde,
}
use crosspoint_simulator_mcp.Json
use crosspoint_simulator_mcp.Mcp.Requests.{resolve}
use crosspoint_simulator_mcp.Mcp.Inject.{Call, heartbeat_of}
use crosspoint_simulator_mcp.Mcp.Until.{
  ObserveSpec, observe_until_matched, nonempty, is_waiting, timeout_ms,
}

pub record HeartbeatUi : Type 0 where
  pub generation : Option ℕ
  pub activity : String
  pub reader_spine : ℤ
  pub reader_page : ℤ

abbrev pub ui_of : Option Heartbeat → HeartbeatUi
ui_of none = record { generation = none; activity = ""; reader_spine = pos 0; reader_page = pos 0 }
ui_of (some hb) = record {
  generation = some hb.framebuffer_generation;
  activity = hb.activity;
  reader_spine = hb.reader_spine;
  reader_page = hb.reader_page;
}

-- A round of the loop: how long the call has waited at its test of the clock, and what the other tasks do
-- while it sleeps.
pub record Round : Type 0 where
  pub waited_ms : ℕ
  pub meanwhile : List Action

module _ (t : Tokio) (serde : Serde) where
  unfoldable pub heartbeat_ui : InstanceMap t → String → HeartbeatUi
  heartbeat_ui s instance_id = ui_of (heartbeat_of (get t s instance_id))

  unfoldable pub observe_result : InstanceMap t → String → List Value → Bool → Bool → Bool → Value
  unfolding heartbeat_ui
  observe_result s instance_id events include_until matched timed_out =
      let ui = heartbeat_ui s instance_id in
      json (
        (("instanceId", string instance_id)
          ∷ ("events", json_array events)
          ∷ ("generation", option_json nat_json ui.generation)
          ∷ ("activity", string ui.activity)
          ∷ ("readerPage", number ui.reader_page)
          ∷ ("readerSpine", number ui.reader_spine)
          ∷ [])
        ++ (if include_until
            then ("matched", bool matched) ∷ ("timedOut", bool timed_out) ∷ []
            else []))

  abbrev pub event_of : SimToServer → Value
  event_of msg = unwrap_or (serde.to_value msg) null

  -- A round of the `while let` loop, from what it received and what the rounds after it give.
  abbrev pub taken :
      Option SimToServer
      → List String
      → InstanceMap t
      → InstanceMap t × List Value
      → InstanceMap t × List Value
  taken none mask s rest = (s, [])
  taken (some msg) mask s (s', events) =
      (s', if inbound_visible mask msg then event_of msg ∷ events else events)

  -- The loop on fuel: one more than the queue's length is enough.
  unfoldable pub drain : ℕ → InstanceMap t → String → List String → InstanceMap t × List Value
  drain zero s id mask = (s, [])
  drain (suc fuel) s id mask =
      let (s', received) = try_recv_inbound t s id in taken received mask s' (drain fuel s' id mask)

  abbrev pub queued_in : Option Instance → ℕ
  queued_in none = 0
  queued_in (some inst) = length inst.inbound.items

  unfoldable pub drain_all : InstanceMap t → String → InstanceMap t × List Value
  unfolding drain
  drain_all s id =
      drain (suc (queued_in (Dict.lookup id s.inner))) s id (unwrap_or (read_mask t s id) [])

  abbrev pub drain_resolved :
      InstanceMap t
      → Result InstanceSnapshot String
      → InstanceMap t × Result (String × List Value) String
  drain_resolved s (err e) = (s, err e)
  drain_resolved s (ok snap) =
      let (s', events) = drain_all s snap.register.instance_id in
      (s', ok (snap.register.instance_id, events))

  unfoldable pub drain_observe :
      InstanceMap t → Option String → InstanceMap t × Result (String × List Value) String
  drain_observe s instance_id = drain_resolved s (resolve t s instance_id)

  abbrev pub observed :
      InstanceMap t × Result (String × List Value) String → InstanceMap t × Result Value String
  observed (s, err e) = (s, err e)
  observed (s, ok (id, events)) = (s, ok (observe_result s id events false false false))

  unfoldable pub observe_json : InstanceMap t → Option String → InstanceMap t × Result Value String
  observe_json s instance_id = observed (drain_observe s instance_id)

  -- `until_generation_gt`, where 0 stands for the generation of now.
  unfoldable pub generation_floor : InstanceMap t → String → Option ℕ → Option ℕ
  unfolding heartbeat_ui
  generation_floor s id (some zero) = some (unwrap_or (heartbeat_ui s id).generation 0)
  generation_floor s id other = other

  abbrev pub matches : InstanceMap t → String → ObserveSpec → Option ℕ → List Value → Bool
  matches s id spec floor events =
      let ui = heartbeat_ui s id in
      observe_until_matched (nonempty spec.until_log) floor (nonempty spec.until_activity)
        spec.until_progress_page events ui.generation ui.activity ui.reader_page

  -- The loop over the rounds to come: no result where they end before it does.
  unfoldable pub observe_loop :
      InstanceMap t → String → ObserveSpec → ℕ → Option ℕ → List Value → List Round → Call t
  observe_loop s id spec timeout floor events [] = none
  observe_loop s id spec timeout floor events (round ∷ rounds) =
      let waiting = is_waiting spec in
      let matched = matches s id spec floor events in
      let timed_out = leb timeout round.waited_ms in
      elim ((waiting && (matched || timed_out)) || (not waiting && timed_out)) [
        | true ↦ some (s, ok (observe_result s id events waiting matched (waiting && not matched)))
        | false ↦
            let (s', drained) = drain_observe (run t s round.meanwhile) (some id) in
            elim drained [
              | err e ↦ some (s', err e)
              | ok (_, more) ↦ observe_loop s' id spec timeout floor (events ++ more) rounds
            ]
      ]

  abbrev pub observe_drained :
      ObserveSpec → ℕ → List Round → InstanceMap t × Result (String × List Value) String → Call t
  observe_drained spec timeout rounds (s, err e) = some (s, err e)
  observe_drained spec timeout rounds (s, ok (id, events)) =
      observe_loop s id spec timeout (generation_floor s id spec.until_generation_gt) events rounds

  unfoldable pub observe_wait_json :
      InstanceMap t → ℕ → List Round → Option String → ObserveSpec → Call t
  unfolding timeout_ms
  observe_wait_json s observe_wait_ms rounds instance_id spec =
      observe_drained spec (timeout_ms observe_wait_ms spec) rounds (drain_observe s instance_id)
