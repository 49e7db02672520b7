-- ===== src/Mcp/Observe/Logged.antt =====
-- `observe` of crates/csm-proxy/src/mcp.rs on a log line that it waits for.
use crosspoint_simulator_mcp.Prelude.{
  ℕ, ◌≡◌, refl, String, true, false, Option, none, some, List, [], ◌∷◌, ◌++◌, ok, arith, ◌==◌,
  string_eq, Bool-cases, inl, inr,
}
use crosspoint_simulator_mcp.Prelude.Dict
use crosspoint_simulator_mcp.Messages.{SimToServer, SimPayload, LogLine}
use crosspoint_simulator_mcp.Tokio.{Tokio}
use crosspoint_simulator_mcp.State.{Instance, InstanceMap, InstanceSnapshot, inbound_visible}
use crosspoint_simulator_mcp.Text.{codes, contains}
use crosspoint_simulator_mcp.Json.{Value, Serde}
use crosspoint_simulator_mcp.Mcp.Requests.{resolve}
use crosspoint_simulator_mcp.Mcp.Until.{
  ObserveSpec, observe_until_matched, is_waiting, log_text, logs, timeout_ms,
}
use crosspoint_simulator_mcp.Mcp.Observe.{
  Round, event_of, drain_observe, matches, observe_result, generation_floor, observe_loop,
  observe_wait_json,
}
use crosspoint_simulator_mcp.Mcp.Observe.Drain.{holding, shown, drain_all-shown}

-- What the JSON form of the messages says: a log line has its text in `log.text`, where an empty text
-- may be left out.
pub record LogLaws (serde : Serde) : Type 0 where
  pub written :
      (msg : SimToServer) (line : LogLine)
      → msg.payload ≡ some (SimPayload.log line)
      → (v : Value) × (serde.to_value msg ≡ some v) × (log_text v ≡ line.text)

module _ (t : Tokio) (serde : Serde) (laws : LogLaws serde) where
  text-event_of :
      (msg : SimToServer) (line : LogLine)
      → msg.payload ≡ some (SimPayload.log line)
      → log_text (event_of t serde msg) ≡ line.text
  text-event_of msg line e = let (v, there, same) = laws.written msg line e in rw there same

  pub logs-shown :
      (mask : List String) (before after : List SimToServer) (msg : SimToServer) (line : LogLine)
      (needle : String)
      → msg.payload ≡ some (SimPayload.log line)
      → inbound_visible mask msg ≡ true
      → contains (codes line.text) (codes needle) ≡ true
      → logs (shown t serde mask (before ++ msg ∷ after)) needle ≡ true
  logs-shown mask [] after msg line needle e seen h = rw (seen, text-event_of msg line e, h) refl
  logs-shown mask (other ∷ before) after msg line needle e seen h =
      let rest = logs-shown mask before after msg line needle e seen h in
      elim (Bool-cases (inbound_visible mask other)) [
        | inl shows ↦ rw shows (ground (arith, rest))
        | inr hidden ↦ rw hidden rest
      ]

  pub matched_log :
      (least : Option ℕ) (activity_name : Option String) (needle : String) (events : List Value)
      (spec : ObserveSpec) (s : InstanceMap t) (id : String)
      → spec.until_log ≡ some needle
      → (needle == "") ≡ false
      → logs events needle ≡ true
      → (is_waiting spec ≡ true) × (matches t serde s id spec least events ≡ true)
  unfolding is_waiting observe_until_matched
  matched_log least activity_name needle events spec s id wanted nonempty_needle h =
      (rw (wanted, nonempty_needle) refl, rw (wanted, nonempty_needle, h) refl)

  pub ends_matched :
      (s : InstanceMap t) (id : String) (spec : ObserveSpec) (timeout : ℕ) (floor : Option ℕ)
      (events : List Value) (round : Round) (rounds : List Round)
      → is_waiting spec ≡ true
      → matches t serde s id spec floor events ≡ true
      → observe_loop t serde s id spec timeout floor events (round ∷ rounds)
        ≡ some (s, ok (observe_result t serde s id events true true false))
  unfolding observe_loop
  ends_matched s id spec timeout floor events round rounds waits matched =
      rw (observe_loop, waits, matched) (rw (waits, matched) refl)

  pub drained :
      (s : InstanceMap t) (given : Option String) (snap : InstanceSnapshot) (inst : Instance)
      → resolve t s given ≡ ok snap
      → Dict.lookup snap.register.instance_id s.inner ≡ some inst
      → drain_observe t serde s given ≡ (
        holding t s snap.register.instance_id inst [],
        ok (snap.register.instance_id, shown t serde inst.read_mask inst.inbound.items),
      )
  unfolding drain_observe
  drained s given snap inst found there =
      rw (found, drain_all-shown t serde s snap.register.instance_id inst there) refl

  -- An observe that waits for a text returns at its first test of the conditions, matched and not timed
  -- out, whenever a log line with that text is in the queue of its instance and the mask shows it; it
  -- answers with everything that the mask shows of the queue.
  pub observe_wait_json-log :
      (s : InstanceMap t) (observe_wait_ms : ℕ) (round : Round) (rounds : List Round)
      (given : Option String) (spec : ObserveSpec) (snap : InstanceSnapshot) (inst : Instance)
      (before after : List SimToServer) (msg : SimToServer) (line : LogLine) (needle : String)
      → resolve t s given ≡ ok snap
      → Dict.lookup snap.register.instance_id s.inner ≡ some inst
      → inst.inbound.items ≡ before ++ msg ∷ after
      → msg.payload ≡ some (SimPayload.log line)
      → inbound_visible inst.read_mask msg ≡ true
      → contains (codes line.text) (codes needle) ≡ true
      → spec.until_log ≡ some needle
      → (needle == "") ≡ false
      → let id = snap.register.instance_id in
        let s' = holding t s id inst [] in
        observe_wait_json t serde s observe_wait_ms (round ∷ rounds) given spec
        ≡ some (
          s',
          ok (
              observe_result t serde s' id
                (shown t serde inst.read_mask inst.inbound.items)
                true
                true
                false),
        )
  unfolding observe_wait_json
  observe_wait_json-log s observe_wait_ms round rounds given spec snap inst before after msg line
        needle found there queued e seen h wanted nonempty_needle =
      let id = snap.register.instance_id in
      let s' = holding t s id inst [] in
      let events = shown t serde inst.read_mask inst.inbound.items in
      let floor = generation_floor t serde s' id spec.until_generation_gt in
      let hit : logs events needle ≡ true =
        rw queued (logs-shown inst.read_mask before after msg line needle e seen h) in
      let (waits, matched) =
        matched_log floor none needle events spec s' id wanted nonempty_needle hit in
      rw (drained s given snap inst found there) (
        ends_matched s' id spec (timeout_ms observe_wait_ms spec) floor events round rounds waits
          matched)
