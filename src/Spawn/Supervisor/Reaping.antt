-- ===== src/Spawn/Supervisor/Reaping.antt =====
-- The end of the children of crates/csm-proxy/src/spawn.rs.
use Prim.Native.String.{String}
use crosspoint_simulator_mcp.Prelude.{
  ℕ, suc, ◌≡◌, refl, ◌⊎◌, Bool, true, false, Option, none, some, List, [], ◌∷◌, Result, ok, err,
  ◌==◌, string_eq, arith, Bool-cases, inl, inr, any, leb, not,
}
use crosspoint_simulator_mcp.Prelude.Dict
use crosspoint_simulator_mcp.Prelude.Dict.{lookup-remove}
use crosspoint_simulator_mcp.Spawn.{Os, SpawnError}
use crosspoint_simulator_mcp.Spawn.Supervisor.{
  Supervisor, reap, reserve, reserve_free, child_alive, alive_in, contains,
}
use crosspoint_simulator_mcp.Spawn.Supervisor.Overlaps.{
  SpawnAction, begins, finishes, looks, reaps, passes, Starts, begun, act_spawn, run_spawn,
}
use crosspoint_simulator_mcp.Spawn.Supervisor.Awaits.{
  reap_wait_ms, ReapPause, gone_on, wait_ended, reap_awaited, reap_each, reap_all,
}

none_there : (m : List (String × ℕ)) → ((id : String) → Dict.lookup id m ≡ none) → m ≡ []
unfolding Dict.lookup
none_there [] h = refl
none_there ((k, v) ∷ m) h = absurd (ground (arith, h k, string_eq.eqb_iff k k))

pub lookup-keys :
    (m : List (String × ℕ)) (id : String)
    → any (λ i. i == id) (Dict.keys m) ≡ false
    → Dict.lookup id m ≡ none
unfolding Dict.lookup
lookup-keys [] id h = refl
lookup-keys ((k, v) ∷ m) id h = ground (arith, lookup-keys m id)

module _ (os : Os) where
  abbrev pub is_end_of_start : SpawnAction os → Bool
  is_end_of_start (finishes id w result) = true
  is_end_of_start _ = false

  -- No start ends among the actions.
  abbrev pub stores_nothing : List (SpawnAction os) → Bool
  stores_nothing actions = not (any is_end_of_start actions)

  -- No child appears under an id that has none.
  abbrev pub Fewer : Supervisor os → Supervisor os → Type 0
  Fewer s s' = (id : String) → Dict.lookup id s.children ≡ none → Dict.lookup id s'.children ≡ none

  alive_in-Fewer : (s : Supervisor os) (id : String) (o : Option ℕ) → Fewer s (alive_in os s id o).0
  alive_in-Fewer s id none j h = h
  alive_in-Fewer s id (some child) j h = elim (Bool-cases (os.running child s.world)) [
    | inl up ↦ rw up h
    | inr gone ↦ rw gone (ground (arith, lookup-remove id j s.children, h))
  ]

  reserve_free-Fewer :
      (s : Supervisor os) (x : Supervisor os × Bool) (id : String)
      → Fewer s x.0
      → Fewer s (reserve_free os x id).0
  reserve_free-Fewer s (s₁, true) id h = h
  reserve_free-Fewer s (s₁, false) id h = h

  reserve-Fewer : (s : Supervisor os) (id : String) → Fewer s (reserve os s id).0
  unfolding reserve child_alive
  reserve-Fewer s id = elim (Bool-cases (contains os id s.starting)) [
    | inl busy ↦ rw busy (λ j h. h)
    | inr free ↦ rw free (
        reserve_free-Fewer s (alive_in os s id (Dict.lookup id s.children)) id
          (alive_in-Fewer s id (Dict.lookup id s.children)))
  ]

  begun-Fewer :
      (r : Starts os) (id : String) (x : Supervisor os × Result Unit SpawnError)
      → Fewer r.supervisor x.0
      → Fewer r.supervisor (begun os r id x).supervisor
  begun-Fewer r id (s, err e) h = h
  begun-Fewer r id (s, ok u) h = h

  act_spawn-Fewer :
      (r : Starts os) (a : SpawnAction os)
      → is_end_of_start a ≡ false
      → Fewer r.supervisor (act_spawn os r a).supervisor
  unfolding act_spawn reap child_alive
  act_spawn-Fewer r (begins id) q =
      begun-Fewer r id (reserve os r.supervisor id) (reserve-Fewer r.supervisor id)
  act_spawn-Fewer r (finishes id w result) q = cc
  act_spawn-Fewer r (looks id) q =
      alive_in-Fewer r.supervisor id (Dict.lookup id r.supervisor.children)
  act_spawn-Fewer r (reaps id) q =
      λ j h. ground (arith, lookup-remove id j r.supervisor.children, h)
  act_spawn-Fewer r (passes w) q = λ j h. h

  run_spawn-Fewer :
      (r : Starts os) (actions : List (SpawnAction os))
      → stores_nothing actions ≡ true
      → Fewer r.supervisor (run_spawn os r actions).supervisor
  unfolding run_spawn
  run_spawn-Fewer r [] q j h = h
  run_spawn-Fewer r (a ∷ actions) q j h =
      run_spawn-Fewer (act_spawn os r a) actions (ground arith) j
        (act_spawn-Fewer r a (ground arith) j h)

  -- A reap with a pause of two seconds comes to its end.
  wait_ended-Fewer :
      (child waited_ms : ℕ) (s s₁ : Supervisor os)
      → leb reap_wait_ms waited_ms ≡ true
      → Fewer s s₁
      → (s' : Supervisor os) × (wait_ended os child waited_ms s₁ ≡ some s') × Fewer s s'
  wait_ended-Fewer child waited_ms s s₁ long h =
      let dropped = record s₁ { world = os.drop_child child s₁.world } in
      elim (Bool-cases (os.running child s₁.world)) [
        | inl up ↦ (dropped, rw (up, long) refl, h)
        | inr gone ↦ (dropped, rw gone refl, h)
      ]

  pub reap_awaited-Fewer :
      (s : Supervisor os) (o : Option ℕ) (pause : ReapPause os)
      → leb reap_wait_ms pause.waited_ms ≡ true
      → stores_nothing pause.spawn_actions ≡ true
      → (s' : Supervisor os) × (reap_awaited os s o pause ≡ some s') × Fewer s s'
  unfolding reap_awaited
  reap_awaited-Fewer s none pause long quiet = (s, refl, λ id h. h)
  reap_awaited-Fewer s (some child) pause long quiet =
      wait_ended-Fewer child pause.waited_ms s (gone_on os s pause) long (
        run_spawn-Fewer (record { supervisor = s; pending = pause.pending }) pause.spawn_actions
          quiet)

  module _ (pauses : ℕ → ReapPause os)
      (long : (n : ℕ) → leb reap_wait_ms (pauses n).waited_ms ≡ true)
      (quiet : (n : ℕ) → stores_nothing (pauses n).spawn_actions ≡ true) where
    reap_each-lookup :
        (s : Supervisor os) (index : ℕ) (ids : List String)
        → (s' : Supervisor os) × (reap_each os s pauses index ids ≡ some s')
          × ((id : String)
              → (any (λ i. i == id) ids ≡ true) ⊎ (Dict.lookup id s.children ≡ none)
              → Dict.lookup id s'.children ≡ none)
    unfolding reap_each reap
    reap_each-lookup s index [] = (s, refl, λ id h. elim h [ inl e ↦ cc | inr gone ↦ gone ])
    reap_each-lookup s index (i ∷ ids) =
        let (s₁, returned, fewer) =
          reap_awaited-Fewer (reap os s i) (Dict.lookup i s.children) (pauses index) (long index)
            (quiet index) in
        let (s', again, emptied) = reap_each-lookup s₁ (suc index) ids in
        (
          s',
          rw (returned, reap_each) again,
          λ id h. emptied id (elim h [
            | inl listed ↦ elim (Bool-cases (i == id)) [
              | inl same ↦ inr (fewer id (ground (arith, lookup-remove i id s.children, same)))
              | inr other ↦ inl (ground arith)
            ]
            | inr gone ↦ inr (fewer id (ground (arith, lookup-remove i id s.children, gone)))
          ]),
        )

    -- With pauses of two seconds in which no start ends, `reap_all` returns, and no child is left in the
    -- table.
    pub reap_all-empties :
        (s : Supervisor os)
        → (s' : Supervisor os) × (reap_all os s pauses ≡ some s') × (s'.children ≡ [])
    unfolding reap_all
    reap_all-empties s =
        let (s', returned, emptied) = reap_each-lookup s 0 (Dict.keys s.children) in
        (
          s',
          returned,
          none_there s'.children λ id.
              emptied id (elim (Bool-cases (any (λ i. i == id) (Dict.keys s.children))) [
                | inl listed ↦ inl listed
                | inr other ↦ inr (lookup-keys s.children id other)
              ]),
        )
