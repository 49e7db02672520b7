-- ===== src/Spawn/Supervisor/Exclusion.antt =====
-- At most one simulator for an id, in crates/csm-proxy/src/spawn.rs.
use Prim.Native.String.{String}
use crosspoint_simulator_mcp.Prelude.{
  ℕ, ◌≡◌, refl, Bool, true, false, string_eq, arith, Bool-cases, inl, inr, ok, err,
}
use crosspoint_simulator_mcp.Prelude.Dict.{lookup-insert}
use crosspoint_simulator_mcp.Spawn.{already_spawned, Os}
use crosspoint_simulator_mcp.Spawn.Supervisor.{
  Supervisor, contains, child_alive, reserve_free, reserve, store,
}
use crosspoint_simulator_mcp.Spawn.Supervisor.Reservation.{contains-without}

module _ (os : Os) where
  reserve_free-contains :
      (x : Supervisor os × Bool) (id : String)
      → (reserve_free os x id).1 ≡ ok tt
      → contains os id (reserve_free os x id).0.starting ≡ true
  reserve_free-contains (s, true) id h = absurd (ground arith)
  reserve_free-contains (s, false) id h = elim (Bool-cases (contains os id s.starting)) [
    | inl there ↦ rw there there
    | inr new ↦ rw new (ground (arith, string_eq.eqb_iff id id))
  ]

  reserve-contains :
      (s : Supervisor os) (id : String)
      → (reserve os s id).1 ≡ ok tt
      → contains os id (reserve os s id).0.starting ≡ true
  unfolding reserve
  reserve-contains s id h = elim (Bool-cases (contains os id s.starting)) [
    | inl there ↦ absurd (ground arith)
    | inr free ↦ rw free (reserve_free-contains (child_alive os s id) id (ground arith))
  ]

  reserved-reserve :
      (s : Supervisor os) (id : String)
      → contains os id s.starting ≡ true
      → reserve os s id ≡ (s, err already_spawned)
  unfolding reserve
  reserved-reserve s id there = rw there refl

  -- While a start is under way, a second one for the same id is refused and changes nothing.
  pub reserve-excludes :
      (s : Supervisor os) (id : String)
      → (reserve os s id).1 ≡ ok tt
      → reserve os (reserve os s id).0 id ≡ ((reserve os s id).0, err already_spawned)
  reserve-excludes s id h = reserved-reserve (reserve os s id).0 id (reserve-contains s id h)

  -- Once a child is stored, a start for its id is refused as long as the child runs.
  pub store-excludes :
      (s : Supervisor os) (id : String) (child : ℕ)
      → os.running child (store os s id child).world ≡ true
      → (reserve os (store os s id child) id).1 ≡ err already_spawned
  unfolding store reserve child_alive
  store-excludes s id child runs =
      let there = lookup-insert id id child s.children in
      ground (arith, contains-without os id s.starting, there, string_eq.eqb_iff id id, runs)
