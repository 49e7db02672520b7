-- ===== src/Mcp/Start/Outcome.antt =====
-- What `start_instance` and `shutdown_instance` of crates/csm-proxy/src/mcp.rs leave behind.
use crosspoint_simulator_mcp.Prelude.{
  ℕ, ◌≡◌, refl, ap, ◌∙◌, ◌⊎◌, inl, inr, String, Bool, true, false, Option, none, some, List, [],
  ◌∷◌, Result, ok, err, arith, leb, any, is_some, Bool-cases, string_eq,
}
use crosspoint_simulator_mcp.Prelude.Dict
use crosspoint_simulator_mcp.Prelude.Dict.{lookup-remove}
use crosspoint_simulator_mcp.Tokio.{Tokio}
use crosspoint_simulator_mcp.State.{InstanceSnapshot}
use crosspoint_simulator_mcp.Instances.{get}
use crosspoint_simulator_mcp.Json.{Value, Serde}
use crosspoint_simulator_mcp.Spawn.{Os, SpawnConfig}
use crosspoint_simulator_mcp.Spawn.Supervisor.{Supervisor, reap, child_alive, alive_in}
use crosspoint_simulator_mcp.Spawn.Supervisor.Settings.{config-alive_in, config-run_spawn}
use crosspoint_simulator_mcp.Mcp.Start.{
  McpServer, StartRound, started_json, slept, not_yet, register_loop, Looped,
}

module _ (t : Tokio) (os : Os) (serde : Serde) where
  pub reap-lookup :
      (s : Supervisor os) (id : String) → Dict.lookup id (reap os s id).children ≡ none
  unfolding reap
  reap-lookup s id = ground (arith, lookup-remove id id s.children, string_eq.eqb_iff id id)

  -- How far a call comes that waited for the child: connected, or its child is gone from the table.
  abbrev pub Settled : String → McpServer t os → Result Value (Option ℕ × String) → Type 0
  Settled id server (ok v) = is_some (get t server.instances id) ≡ true
  Settled id server (err e) = Dict.lookup id server.spawn.children ≡ none

  abbrev pub Settles : String → Looped t os serde → Type 0
  Settles id none = Unit
  Settles id (some (server, r)) = Settled id server r

  not_yet-Settles :
      (server : McpServer t os) (id : String) (x : Supervisor os × Bool) (late : Bool)
      (go_on : McpServer t os → Looped t os serde)
      → ((server' : McpServer t os) → Settles id (go_on server'))
      → Settles id (not_yet t os serde server id x late go_on)
  not_yet-Settles server id (spawn, false) late go_on f = reap-lookup spawn id
  not_yet-Settles server id (spawn, true) true go_on f = reap-lookup spawn id
  not_yet-Settles server id (spawn, true) false go_on f = f (record server { spawn = spawn })

  found-Settles :
      (server : McpServer t os) (id : String) (o : Option InstanceSnapshot)
      (f : InstanceSnapshot → Value) (after : Looped t os serde)
      → get t server.instances id ≡ o
      → Settles id after
      → Settles id (elim o [ none ↦ after | some snap ↦ some (server, ok (f snap)) ])
  found-Settles server id none f after e h = h
  found-Settles server id (some snap) f after e h = rw e refl

  -- Once the child is started, the call ends with success only if the instance is connected then, and
  -- with an error only after the child was taken out of the table. The state of an error is that in which
  -- the wait for the end of the child begins.
  pub register_loop-Settles :
      (server : McpServer t os) (id : String) (pid : ℕ) (sample_book auto_sleep : Bool)
      (rounds : List (StartRound os))
      → Settles id (register_loop t os serde server id pid sample_book auto_sleep rounds)
  unfolding register_loop
  register_loop-Settles server id pid sample_book auto_sleep [] = tt
  register_loop-Settles server id pid sample_book auto_sleep (round ∷ rounds) =
      found-Settles server id (get t server.instances id)
        (λ snap. started_json t os serde snap pid sample_book auto_sleep) _ refl
        (not_yet-Settles server id (child_alive os server.spawn id) _ _ λ server'.
          register_loop-Settles (slept t os serde server' round) id pid sample_book auto_sleep
            rounds)

  abbrev pub Returns : Looped t os serde → Type 0
  Returns o = (result : McpServer t os × Result Value (Option ℕ × String)) × (o ≡ some result)

  not_yet-Returns :
      (server : McpServer t os) (id : String) (x : Supervisor os × Bool) (late : Bool)
      (go_on : McpServer t os → Looped t os serde)
      → (late ≡ true) ⊎ ((late ≡ false) × Returns (go_on (record server { spawn = x.0 })))
      → Returns (not_yet t os serde server id x late go_on)
  not_yet-Returns server id (spawn, false) late go_on h = (_, refl)
  not_yet-Returns server id (spawn, true) true go_on h = (_, refl)
  not_yet-Returns server id (spawn, true) false go_on (inr (_, r)) = r
  not_yet-Returns server id (spawn, true) false go_on (inl e) = cc

  found-Returns :
      (server : McpServer t os) (o : Option InstanceSnapshot) (f : InstanceSnapshot → Value)
      (after : Looped t os serde)
      → Returns after
      → Returns (elim o [ none ↦ after | some snap ↦ some (server, ok (f snap)) ])
  found-Returns server none f after r = r
  found-Returns server (some snap) f after r = (_, refl)

  config-slept :
      (server : McpServer t os) (round : StartRound os)
      → (slept t os serde server round).spawn.config ≡ server.spawn.config
  config-slept server round =
      config-run_spawn os (record { supervisor = server.spawn; pending = round.pending })
        round.spawn_actions

  -- The wait for a child ends at the latest in its first round after the configured time.
  pub register_loop-returns :
      (server : McpServer t os) (id : String) (pid : ℕ) (sample_book auto_sleep : Bool)
      (rounds : List (StartRound os))
      → any (λ round. leb server.spawn.config.wait_ms round.waited_ms) rounds ≡ true
      → (result : McpServer t os × Result Value (Option ℕ × String)) × (register_loop t os serde
            server id pid sample_book auto_sleep rounds
          ≡ some result)
  unfolding register_loop child_alive
  register_loop-returns server id pid sample_book auto_sleep [] h = cc
  register_loop-returns server id pid sample_book auto_sleep (round ∷ rounds) h =
      let looked = alive_in os server.spawn id (Dict.lookup id server.spawn.children) in
      let server' : McpServer t os = record server { spawn = looked.0 } in
      let same =
        config-slept server' round
        ∙ config-alive_in os server.spawn id (Dict.lookup id server.spawn.children) in
      let late : SpawnConfig → List (StartRound os) → Bool =
        λ config rounds. any (λ round. leb config.wait_ms round.waited_ms) rounds in
      found-Returns server (get t server.instances id)
        (λ snap. started_json t os serde snap pid sample_book auto_sleep) _
        (not_yet-Returns server id looked (leb server.spawn.config.wait_ms round.waited_ms) _
          (elim (Bool-cases (leb server.spawn.config.wait_ms round.waited_ms)) [
            | inl late ↦ inl late
            | inr early ↦ inr (
              early,
              register_loop-returns (slept t os serde server' round) id pid sample_book auto_sleep
                  rounds (ap (λ config. late config rounds) same ∙ ground arith),
            )
          ]))
