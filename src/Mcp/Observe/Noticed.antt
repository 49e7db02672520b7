-- ===== src/Mcp/Observe/Noticed.antt =====
-- `observe` of crates/csm-proxy/src/mcp.rs on a log line that comes in while it waits.
use crosspoint_simulator_mcp.Prelude.{
  ℕ, ◌<◌, ◌≡◌, refl, ap, ◌∙◌, String, true, false, Option, none, some, List, [], ◌∷◌, ◌++◌, ok,
  arith, length, leb, string_eq, nat_eq, ◌==◌,
}
use crosspoint_simulator_mcp.Prelude.Dict
use crosspoint_simulator_mcp.Prelude.Dict.{lookup-insert}
use crosspoint_simulator_mcp.Messages.{SimToServer, SimPayload, LogLine}
use crosspoint_simulator_mcp.Tokio.{Tokio}
use crosspoint_simulator_mcp.State.{
  Instance, InstanceMap, inbound_visible, instance_snapshot, is_valid_instance_id,
}
use crosspoint_simulator_mcp.Queue.{InboundQueue, push}
use crosspoint_simulator_mcp.Text.{codes, contains}
use crosspoint_simulator_mcp.Instances.{get, owns, resolve_or_default}
use crosspoint_simulator_mcp.Waiters.{
  complete_waiter, push_inbound, deliver, deliver_to, is_excluded,
}
use crosspoint_simulator_mcp.Session.{Session, message, receive, receive_payload}
use crosspoint_simulator_mcp.History.{Action, receives, step, run}
use crosspoint_simulator_mcp.Json.{Value, Serde}
use crosspoint_simulator_mcp.Mcp.Requests.{resolve}
use crosspoint_simulator_mcp.History.Sequence.{run-append}
use crosspoint_simulator_mcp.Mcp.Until.{ObserveSpec, is_waiting, logs, log_text}
use crosspoint_simulator_mcp.Mcp.Until.Any.{any-append}
use crosspoint_simulator_mcp.Mcp.Observe.{
  Round, drain_observe, matches, observe_result, observe_loop,
}
use crosspoint_simulator_mcp.Mcp.Observe.Drain.{holding, shown}
use crosspoint_simulator_mcp.Mcp.Observe.Logged.{
  LogLaws, logs-shown, matched_log, ends_matched, drained,
}

module _ (t : Tokio) where
  -- The instance with one message more at the end of its queue.
  abbrev pub queuing : Instance → SimToServer → Instance
  queuing inst msg = record inst {
    inbound = record (inst.inbound) { items = inst.inbound.items ++ msg ∷ [] };
  }

  push-room :
      (q : InboundQueue) (msg : SimToServer)
      → length q.items < q.cap
      → push q msg ≡ record q { items = q.items ++ msg ∷ [] }
  unfolding push
  push-room q msg room = ground (arith, nat_eq.eqb_iff (length q.items) q.cap)

  inner-complete_waiter :
      (s : InstanceMap t) (msg : SimToServer) → (complete_waiter t s msg).inner ≡ s.inner
  unfolding complete_waiter
  inner-complete_waiter s msg = ground arith

  lookup-deliver :
      (s : InstanceMap t) (id : String) (msg : SimToServer) (inst : Instance)
      → inbound_visible inst.read_mask msg ≡ true
      → is_excluded inst.exclude_log_components msg.payload ≡ false
      → length inst.inbound.items < inst.inbound.cap
      → Dict.lookup id (deliver t s id msg inst).inner ≡ some (queuing inst msg)
  unfolding deliver
  lookup-deliver s id msg inst seen wanted room =
      rw
        (
          seen,
          wanted,
          lookup-insert id id,
          (string_eq.eqb_iff id id).1 refl,
          push-room inst.inbound msg room,
        )
        refl

  lookup-push_inbound :
      (s : InstanceMap t) (id : String) (msg : SimToServer) (inst : Instance)
      → Dict.lookup id s.inner ≡ some inst
      → inbound_visible inst.read_mask msg ≡ true
      → is_excluded inst.exclude_log_components msg.payload ≡ false
      → length inst.inbound.items < inst.inbound.cap
      → Dict.lookup id (push_inbound t s id msg).inner ≡ some (queuing inst msg)
  unfolding push_inbound
  lookup-push_inbound s id msg inst there seen wanted room =
      let s' = complete_waiter t s msg in
      ap (λ o. Dict.lookup id (deliver_to t s' id msg o).inner)
        (ap (Dict.lookup id) (inner-complete_waiter s msg) ∙ there)
      ∙ lookup-deliver s' id msg inst seen wanted room

  receive_payload-log :
      (s : InstanceMap t) (session : Session) (msg : SimToServer) (payload : Option SimPayload)
      (line : LogLine)
      → payload ≡ some (SimPayload.log line)
      → (receive_payload t s session msg payload).0 ≡ push_inbound t s session.id_for_loop msg
  unfolding receive_payload
  receive_payload-log s session msg payload line e = rw e refl

  receives-log :
      (s : InstanceMap t) (session : Session) (msg : SimToServer) (line : LogLine) (inst : Instance)
      → Dict.lookup session.id_for_loop s.inner ≡ some inst
      → inst.token ≡ session.token
      → msg.payload ≡ some (SimPayload.log line)
      → step t s (receives session (some (message msg))) ≡ push_inbound t s session.id_for_loop msg
  unfolding step receive owns
  receives-log s session msg line inst there owner e =
      rw (step, receive, there, (nat_eq.eqb_iff inst.token session.token).1 owner)
        (receive_payload-log s session msg msg.payload line e)

  resolve-connected :
      (s : InstanceMap t) (id : String) (inst : Instance)
      → is_valid_instance_id id ≡ true
      → Dict.lookup id s.inner ≡ some inst
      → resolve t s (some id) ≡ ok (instance_snapshot inst)
  unfolding resolve resolve_or_default get
  resolve-connected s id inst valid there = rw (resolve, valid, there) refl

module _ (t : Tokio) (serde : Serde) (laws : LogLaws serde) where
  sleeps_on :
      (s : InstanceMap t) (id : String) (spec : ObserveSpec) (timeout : ℕ) (floor : Option ℕ)
      (events more : List Value) (round : Round) (rounds : List Round) (s' : InstanceMap t)
      (id' : String)
      → is_waiting spec ≡ true
      → matches t serde s id spec floor events ≡ false
      → leb timeout round.waited_ms ≡ false
      → drain_observe t serde (run t s round.meanwhile) (some id) ≡ (s', ok (id', more))
      → observe_loop t serde s id spec timeout floor events (round ∷ rounds)
        ≡ observe_loop t serde s' id spec timeout floor (events ++ more) rounds
  unfolding observe_loop
  sleeps_on s id spec timeout floor events more round rounds s' id' waits unmatched early drains =
      rw (observe_loop, waits, unmatched, early)
        (rw drains
          (ap (λ x. observe_loop t serde x.0 id spec timeout floor (events ++ more) rounds) drains))

  arrives :
      (s : InstanceMap t) (session : Session) (msg : SimToServer) (line : LogLine) (inst : Instance)
      → Dict.lookup session.id_for_loop s.inner ≡ some inst
      → inst.register.instance_id ≡ session.id_for_loop
      → is_valid_instance_id session.id_for_loop ≡ true
      → inst.token ≡ session.token
      → msg.payload ≡ some (SimPayload.log line)
      → inbound_visible inst.read_mask msg ≡ true
      → is_excluded inst.exclude_log_components msg.payload ≡ false
      → length inst.inbound.items < inst.inbound.cap
      → let id = session.id_for_loop in
        let s' = step t s (receives session (some (message msg))) in
        drain_observe t serde s' (some id) ≡ (
          holding t s' id (queuing t inst msg) [],
          ok (id, shown t serde inst.read_mask (inst.inbound.items ++ msg ∷ [])),
        )
  arrives s session msg line inst there named valid owner e seen wanted room =
      let id = session.id_for_loop in
      let s' = step t s (receives session (some (message msg))) in
      let inst' = queuing t inst msg in
      let there' : Dict.lookup id s'.inner ≡ some inst' =
        ap (λ s. Dict.lookup id s.inner) (receives-log t s session msg line inst there owner e)
        ∙ lookup-push_inbound t s id msg inst there seen wanted room in
      let there'' : Dict.lookup inst.register.instance_id s'.inner ≡ some inst' =
        ap (λ i. Dict.lookup i s'.inner) named ∙ there' in
      drained t serde laws s' (some id) (instance_snapshot inst') inst'
        (resolve-connected t s' id inst' valid there') there''
      ∙ ap
          (λ i. (
            holding t s' i inst' [],
            ok (i, shown t serde inst.read_mask (inst.inbound.items ++ msg ∷ [])),
          ))
          named

  -- An observe waits for a text, has not matched at a test of its conditions, and its time is not up. If
  -- the session that owns the instance then receives a log line with that text, as the last thing that
  -- happens before the next drain, and the queue has room, the mask shows the line and its component is
  -- not excluded, then the observe ends at its next test, matched and not timed out.
  pub observe_loop-notices :
      (s : InstanceMap t) (spec : ObserveSpec) (timeout : ℕ) (floor : Option ℕ)
      (events : List Value) (round next : Round) (rounds : List Round) (before : List Action)
      (session : Session) (msg : SimToServer) (line : LogLine) (inst : Instance) (needle : String)
      → spec.until_log ≡ some needle
      → (needle == "") ≡ false
      → matches t serde s session.id_for_loop spec floor events ≡ false
      → leb timeout round.waited_ms ≡ false
      → round.meanwhile ≡ before ++ receives session (some (message msg)) ∷ []
      → Dict.lookup session.id_for_loop (run t s before).inner ≡ some inst
      → inst.register.instance_id ≡ session.id_for_loop
      → is_valid_instance_id session.id_for_loop ≡ true
      → inst.token ≡ session.token
      → msg.payload ≡ some (SimPayload.log line)
      → contains (codes line.text) (codes needle) ≡ true
      → inbound_visible inst.read_mask msg ≡ true
      → is_excluded inst.exclude_log_components msg.payload ≡ false
      → length inst.inbound.items < inst.inbound.cap
      → let id = session.id_for_loop in
        let s' = step t (run t s before) (receives session (some (message msg))) in
        let s'' = holding t s' id (queuing t inst msg) [] in
        let more = shown t serde inst.read_mask (inst.inbound.items ++ msg ∷ []) in
        observe_loop t serde s id spec timeout floor events (round ∷ next ∷ rounds)
        ≡ some (s'', ok (observe_result t serde s'' id (events ++ more) true true false))
  unfolding run
  observe_loop-notices s spec timeout floor events round next rounds before session msg line inst
        needle until nonempty unmatched early acts there named valid owner e hit seen wanted room =
      let id = session.id_for_loop in
      let s₁ = run t s before in
      let s' = step t s₁ (receives session (some (message msg))) in
      let s'' = holding t s' id (queuing t inst msg) [] in
      let more = shown t serde inst.read_mask (inst.inbound.items ++ msg ∷ []) in
      let logged : logs (events ++ more) needle ≡ true =
        ap (λ b. b)
          (any-append (λ event. contains (codes (log_text event)) (codes needle)) events more)
        ∙ ground (
          arith,
          logs-shown t serde laws inst.read_mask inst.inbound.items [] msg line needle e seen hit,
        ) in
      let (waits, matched) =
        matched_log t serde laws floor none needle (events ++ more) spec s'' id until nonempty
          logged in
      sleeps_on s id spec timeout floor events more round (next ∷ rounds) s'' id waits unmatched
        early
        (ap (λ acts. drain_observe t serde (run t s acts) (some id)) acts
          ∙ ap (λ s. drain_observe t serde s (some id))
              (run-append t s before (receives session (some (message msg)) ∷ []))
          ∙ arrives s₁ session msg line inst there named valid owner e seen wanted room)
      ∙ ends_matched t serde laws s'' id spec timeout floor (events ++ more) next rounds waits
          matched
