-- ===== src/Spawn/Supervisor/Overlaps/Outcome.antt =====
-- What becomes of the child of a start that others overlap, in crates/csm-proxy/src/spawn.rs.
use crosspoint_simulator_mcp.Prelude.{
  if◌then◌else◌, ℕ, ◌≡◌, refl, String, true, none, some, List, [], ◌∷◌, Result, ok, err, ◌==◌,
  string_eq, arith,
}
use crosspoint_simulator_mcp.Prelude.Dict
use crosspoint_simulator_mcp.Prelude.Dict.{lookup-insert, lookup-remove}
use crosspoint_simulator_mcp.Spawn.{Os, SpawnError, SpawnConfig}
use crosspoint_simulator_mcp.Spawn.Supervisor.{
  Supervisor, contains, child_alive, reserve, store, reap, new_supervisor,
}
use crosspoint_simulator_mcp.Spawn.Supervisor.Overlaps.{
  SpawnAction, begins, finishes, reaps, Starts, less, begun, act_spawn, run_spawn, spares_starts,
}
use crosspoint_simulator_mcp.Spawn.Supervisor.Overlaps.Single.{
  IsSingle, Reserved, reserve-Reserved, run_spawn-IsSingle,
}
use crosspoint_simulator_mcp.Spawn.Supervisor.Reservation.{contains-without}

module _ (os : Os) where
  abbrev pub fresh : SpawnConfig → os.World → Starts os
  fresh config w = record { supervisor = new_supervisor os config w; pending = [] }

  -- A start finishes with a child in the table, and no other child is dropped for it.
  abbrev pub Stores : Starts os → String → ℕ → os.World → Starts os → Type 0
  Stores r id child w r' =
      (r'.supervisor.world ≡ w)
      × ((j : String)
          → Dict.lookup j r'.supervisor.children
            ≡ (if id == j then some child else Dict.lookup j r.supervisor.children))

  finish-Stores :
      (r : Starts os) (id : String) (w : os.World) (child : ℕ)
      → IsSingle os r
      → contains os id r.pending ≡ true
      → Stores r id child w (act_spawn os r (finishes id w (ok child)))
  unfolding act_spawn store
  finish-Stores r id w child (once, held) under =
      let (absent, there) = held id under in
      rw (under, absent) (refl, λ j. lookup-insert id j child r.supervisor.children)

  fresh-IsSingle : (config : SpawnConfig) (w : os.World) → IsSingle os (fresh config w)
  unfolding new_supervisor
  fresh-IsSingle config w = (refl, λ j under. absurd (ground arith))

  -- Starts, looks, reaps and the rest of the world interleave in any order. As long as nothing reaps an
  -- id while a start of it is under way, a start that ends with a child puts it into the table, changes
  -- nothing else there and drops no other child.
  pub run_spawn-Stores :
      (config : SpawnConfig) (w₀ : os.World) (actions : List (SpawnAction os)) (id : String)
      (w : os.World) (child : ℕ)
      → spares_starts os (fresh config w₀) actions ≡ true
      → contains os id (run_spawn os (fresh config w₀) actions).pending ≡ true
      → let r = run_spawn os (fresh config w₀) actions in
        Stores r id child w (act_spawn os r (finishes id w (ok child)))
  run_spawn-Stores config w₀ actions id w child spared under =
      finish-Stores (run_spawn os (fresh config w₀) actions) id w child
        (run_spawn-IsSingle os (fresh config w₀) actions (fresh-IsSingle config w₀) spared) under

  begun-free :
      (r : Starts os) (id : String) (x : Supervisor os × Result Unit SpawnError)
      → Reserved os r.supervisor id x
      → x.1 ≡ ok tt
      → (Dict.lookup id (begun os r id x).supervisor.children ≡ none)
        × ((begun os r id x).pending ≡ id ∷ r.pending)
  begun-free r id (s, err e) kept h = absurd (ground arith)
  begun-free r id (s, ok u) (kept, free, absent, there) h = (absent, refl)

  begins-free :
      (r : Starts os) (id : String)
      → (reserve os r.supervisor id).1 ≡ ok tt
      → let r' = act_spawn os r (begins id) in
        (Dict.lookup id r'.supervisor.children ≡ none) × (r'.pending ≡ id ∷ r.pending)
  unfolding act_spawn
  begins-free r id h =
      begun-free r id (reserve os r.supervisor id) (reserve-Reserved os r.supervisor id) h

  reaps-frees :
      (r : Starts os) (id : String)
      → Dict.lookup id r.supervisor.children ≡ none
      → let r' = act_spawn os r (reaps id) in
        ((reserve os r'.supervisor id).1 ≡ ok tt) × (r'.pending ≡ r.pending)
  unfolding act_spawn reap reserve child_alive
  reaps-frees r id absent =
      let free = contains-without os id r.supervisor.starting in
      let gone : Dict.lookup id (Dict.remove id r.supervisor.children) ≡ none =
        ground (arith, lookup-remove id id r.supervisor.children, absent) in
      (rw (free, gone) refl, refl)

  finishes-lookup :
      (r : Starts os) (id : String) (w : os.World) (child : ℕ)
      → contains os id r.pending ≡ true
      → let r' = act_spawn os r (finishes id w (ok child)) in
        (Dict.lookup id r'.supervisor.children ≡ some child) × (r'.pending ≡ less os id r.pending)
  unfolding act_spawn store
  finishes-lookup r id w child under = rw under (
    ground (arith, lookup-insert id id child r.supervisor.children, string_eq.eqb_iff id id),
    refl,
  )

  finishes-drops :
      (r : Starts os) (id : String) (w : os.World) (child old : ℕ)
      → contains os id r.pending ≡ true
      → Dict.lookup id r.supervisor.children ≡ some old
      → (act_spawn os r (finishes id w (ok child))).supervisor.world ≡ os.drop_child old w
  unfolding act_spawn store
  finishes-drops r id w child old under there = rw (under, there) refl

  under_way : (id : String) (ids : List String) → contains os id (id ∷ ids) ≡ true
  under_way id ids = ground (arith, string_eq.eqb_iff id id)

  less_first : (id : String) (ids : List String) → less os id (id ∷ ids) ≡ ids
  unfolding less
  less_first id ids = ground (arith, string_eq.eqb_iff id id)

  -- A reap of an id while a start of it is under way lets a second start of it begin. When both
  -- end with a child, the second child takes the place of the first, which is dropped.
  pub reap-doubles :
      (r : Starts os) (id : String) (w w' : os.World) (first second : ℕ)
      → (reserve os r.supervisor id).1 ≡ ok tt
      → let r' = run_spawn os r (
          begins id
          ∷ reaps id
          ∷ begins id
          ∷ finishes id w (ok first)
          ∷ finishes id w' (ok second)
          ∷ []) in
        (r'.supervisor.world ≡ os.drop_child first w')
        × (Dict.lookup id r'.supervisor.children ≡ some second)
  unfolding run_spawn
  reap-doubles r id w w' first second free =
      let r₁ = act_spawn os r (begins id) in
      let r₂ = act_spawn os r₁ (reaps id) in
      let r₃ = act_spawn os r₂ (begins id) in
      let r₄ = act_spawn os r₃ (finishes id w (ok first)) in
      let (absent, one) = begins-free r id free in
      let (again, same) = reaps-frees r₁ id absent in
      let (_, two) = begins-free r₂ id again in
      let both : r₃.pending ≡ id ∷ id ∷ r.pending = cc in
      let (stored, rest) =
        finishes-lookup r₃ id w first (rw both (under_way id (id ∷ r.pending))) in
      let left : contains os id r₄.pending ≡ true =
        rw (rest, both, less_first id (id ∷ r.pending)) (under_way id r.pending) in
      (finishes-drops r₄ id w' second first left stored, (finishes-lookup r₄ id w' second left).0)
