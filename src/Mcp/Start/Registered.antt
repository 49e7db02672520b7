-- ===== src/Mcp/Start/Registered.antt =====
-- `start_instance` of crates/csm-proxy/src/mcp.rs, where the simulator dials and registers.
use crosspoint_simulator_mcp.Prelude.{
  ℕ, ◌≡◌, refl, ap, ◌∙◌, String, Bool, true, false, none, some, List, [], ◌∷◌, ◌++◌, ok, arith, leb,
  string_eq, nat_eq,
}
use crosspoint_simulator_mcp.Prelude.Dict.{lookup-insert}
use crosspoint_simulator_mcp.Messages.{SimToServer, SimPayload, Register}
use crosspoint_simulator_mcp.Tokio.{Tokio}
use crosspoint_simulator_mcp.State.{InstanceMap, InstanceSnapshot, is_valid_instance_id}
use crosspoint_simulator_mcp.Instances.{get, insert}
use crosspoint_simulator_mcp.Session.{
  message, open_session, first_register, register_of, register_session,
}
use crosspoint_simulator_mcp.History.{Action, opens, step, run}
use crosspoint_simulator_mcp.Json.{Serde}
use crosspoint_simulator_mcp.Spawn.{Os}
use crosspoint_simulator_mcp.Spawn.Supervisor.{Supervisor, child_alive}
use crosspoint_simulator_mcp.Mcp.Start.{
  McpServer, StartRound, Looped, started_json, slept, not_yet, register_loop,
}
use crosspoint_simulator_mcp.History.Sequence.{run-append}

first_register-register :
    (first : SimToServer) (register : Register)
    → first.payload ≡ some (SimPayload.register register)
    → is_valid_instance_id register.instance_id ≡ true
    → first_register (some (message first)) ≡ ok register
unfolding first_register register_of
first_register-register first register e valid = rw e (rw valid refl)

module _ (t : Tokio) where
  -- What a session that has just registered is seen as.
  abbrev pub fresh_snapshot : ℕ → Register → InstanceSnapshot
  fresh_snapshot token register = record {
    token = token;
    register = register;
    last_heartbeat = none;
  }

  get-register_session :
      (s : InstanceMap t) (register : Register)
      → get t (register_session t s register).0 register.instance_id
        ≡ some (fresh_snapshot s.next_token register)
  unfolding register_session insert get
  get-register_session s register =
      let id = register.instance_id in
      rw (lookup-insert id id, (string_eq.eqb_iff id id).1 refl) refl

  get-opens :
      (s : InstanceMap t) (first : SimToServer) (register : Register)
      → first.payload ≡ some (SimPayload.register register)
      → is_valid_instance_id register.instance_id ≡ true
      → get t (step t s (opens (some (message first)))) register.instance_id
        ≡ some (fresh_snapshot s.next_token register)
  unfolding step open_session
  get-opens s first register e valid =
      rw (step, open_session, first_register-register first register e valid)
        (get-register_session s register)

  get-dialled :
      (s : InstanceMap t) (before : List Action) (first : SimToServer) (register : Register)
      → first.payload ≡ some (SimPayload.register register)
      → is_valid_instance_id register.instance_id ≡ true
      → get t (run t s (before ++ opens (some (message first)) ∷ [])) register.instance_id
        ≡ some (fresh_snapshot (run t s before).next_token register)
  unfolding run
  get-dialled s before first register e valid =
      ap (λ s. get t s register.instance_id)
        (run-append t s before (opens (some (message first)) ∷ []))
      ∙ get-opens (run t s before) first register e valid

module _ (t : Tokio) (os : Os) (serde : Serde) where
  not_yet-goes_on :
      (server : McpServer t os) (id : String) (x : Supervisor os × Bool) (late : Bool)
      (go_on : McpServer t os → Looped t os serde)
      → x.1 ≡ true
      → late ≡ false
      → not_yet t os serde server id x late go_on ≡ go_on (record server { spawn = x.0 })
  not_yet-goes_on server id (spawn, true) false go_on alive early = refl
  not_yet-goes_on server id (spawn, true) true go_on alive early = absurd (ground arith)
  not_yet-goes_on server id (spawn, false) late go_on alive early = absurd (ground arith)

  next_round :
      (server : McpServer t os) (id : String) (pid : ℕ) (sample_book auto_sleep : Bool)
      (round : StartRound os) (rounds : List (StartRound os))
      → get t server.instances id ≡ none
      → (child_alive os server.spawn id).1 ≡ true
      → leb server.spawn.config.wait_ms round.waited_ms ≡ false
      → register_loop t os serde server id pid sample_book auto_sleep (round ∷ rounds)
        ≡ register_loop t os serde
            (slept t os serde (record server { spawn = (child_alive os server.spawn id).0 }) round)
            id
            pid
            sample_book
            auto_sleep
            rounds
  unfolding register_loop
  next_round server id pid sample_book auto_sleep round rounds absent alive early =
      rw (register_loop, absent)
        (not_yet-goes_on server id (child_alive os server.spawn id)
          (leb server.spawn.config.wait_ms round.waited_ms)
          (λ server.
            register_loop t os serde (slept t os serde server round) id pid sample_book auto_sleep
              rounds)
          alive early)

  found_now :
      (server : McpServer t os) (id : String) (pid : ℕ) (sample_book auto_sleep : Bool)
      (round : StartRound os) (rounds : List (StartRound os)) (snap : InstanceSnapshot)
      → get t server.instances id ≡ some snap
      → register_loop t os serde server id pid sample_book auto_sleep (round ∷ rounds)
        ≡ some (server, ok (started_json t os serde snap pid sample_book auto_sleep))
  unfolding register_loop
  found_now server id pid sample_book auto_sleep round rounds snap there =
      rw (register_loop, there) refl

  -- The child of a call of `start_instance` runs and its instance is not connected yet. If a simulator
  -- then dials and registers under the id of the call before the time is up, whatever else is done to
  -- the instances before it and to the supervisor, the call succeeds at its next look, with the register
  -- that the simulator sent.
  pub register_loop-registers :
      (server : McpServer t os) (pid : ℕ) (sample_book auto_sleep : Bool)
      (round next : StartRound os) (rounds : List (StartRound os)) (before : List Action)
      (first : SimToServer) (register : Register)
      → get t server.instances register.instance_id ≡ none
      → (child_alive os server.spawn register.instance_id).1 ≡ true
      → leb server.spawn.config.wait_ms round.waited_ms ≡ false
      → round.meanwhile ≡ before ++ opens (some (message first)) ∷ []
      → first.payload ≡ some (SimPayload.register register)
      → is_valid_instance_id register.instance_id ≡ true
      → let id = register.instance_id in
        let server' =
          slept t os serde (record server { spawn = (child_alive os server.spawn id).0 }) round in
        let snap = fresh_snapshot t (run t server.instances before).next_token register in
        register_loop t os serde server id pid sample_book auto_sleep (round ∷ next ∷ rounds)
        ≡ some (server', ok (started_json t os serde snap pid sample_book auto_sleep))
  register_loop-registers server pid sample_book auto_sleep round next rounds before first register
        absent alive early acts e valid =
      let id = register.instance_id in
      let server' =
        slept t os serde (record server { spawn = (child_alive os server.spawn id).0 }) round in
      let snap = fresh_snapshot t (run t server.instances before).next_token register in
      next_round server id pid sample_book auto_sleep round (next ∷ rounds) absent alive early
      ∙ found_now server' id pid sample_book auto_sleep next rounds snap (
          ap (λ actions. get t (run t server.instances actions) id) acts
          ∙ get-dialled t server.instances before first register e valid)
