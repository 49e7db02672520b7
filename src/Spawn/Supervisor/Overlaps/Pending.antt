-- ===== src/Spawn/Supervisor/Overlaps/Pending.antt =====
-- The ids of starts of crates/csm-proxy/src/spawn.rs that are under way, as lists.
use crosspoint_simulator_mcp.Prelude.{
  ◌≡◌, refl, String, Bool, true, false, not, ◌&&◌, List, [], ◌∷◌, ◌==◌, string_eq, arith,
}
use crosspoint_simulator_mcp.Spawn.{Os}
use crosspoint_simulator_mcp.Spawn.Supervisor.{contains, without}
use crosspoint_simulator_mcp.Spawn.Supervisor.Overlaps.{less}

module _ (os : Os) where
  abbrev pub no_twice : List String → Bool
  no_twice [] = true
  no_twice (i ∷ ids) = not (contains os i ids) && no_twice ids

  contains-less :
      (id j : String) (ids : List String)
      → no_twice ids ≡ true
      → contains os j (less os id ids) ≡ (not (id == j) && contains os j ids)
  unfolding less
  contains-less id j [] h = ground arith
  contains-less id j (i ∷ ids) h = ground (
    arith,
    contains-less id j ids,
    string_eq.eqb_iff i id,
    string_eq.eqb_iff i j,
    string_eq.eqb_iff id j,
  )

  pub no_twice-less :
      (id : String) (ids : List String) → no_twice ids ≡ true → no_twice (less os id ids) ≡ true
  unfolding less
  no_twice-less id [] h = refl
  no_twice-less id (i ∷ ids) h = ground (arith, no_twice-less id ids, contains-less id i ids)

  pub contains-without_other :
      (id j : String) (ids : List String)
      → contains os j (without os id ids) ≡ (not (id == j) && contains os j ids)
  contains-without_other id j [] = ground arith
  contains-without_other id j (i ∷ ids) = ground (
    arith,
    contains-without_other id j ids,
    string_eq.eqb_iff i id,
    string_eq.eqb_iff i j,
    string_eq.eqb_iff id j,
  )

  pub apart_less :
      (id j : String) (ids : List String)
      → no_twice ids ≡ true
      → contains os j (less os id ids) ≡ true
      → ((id == j) ≡ false) × (contains os j ids ≡ true)
  apart_less id j ids once there = ground (arith, contains-less id j ids once, there)

  pub distinct :
      (id j : String) (ids : List String)
      → contains os id ids ≡ false
      → contains os j ids ≡ true
      → (id == j) ≡ false
  distinct id j [] new there = absurd (ground arith)
  distinct id j (i ∷ ids) new there = ground (
    arith,
    distinct id j ids,
    string_eq.eqb_iff i id,
    string_eq.eqb_iff i j,
    string_eq.eqb_iff id j,
  )
