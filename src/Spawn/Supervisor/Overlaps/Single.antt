-- ===== src/Spawn/Supervisor/Overlaps/Single.antt =====
-- One start for an id at a time, in every interleaving of starts in crates/csm-proxy/src/spawn.rs.
use crosspoint_simulator_mcp.Prelude.{
  ℕ, ◌≡◌, refl, String, Bool, true, false, Option, none, some, List, [], ◌∷◌, Result, ok, err, ◌==◌,
  string_eq, arith, Bool-cases, inl, inr,
}
use crosspoint_simulator_mcp.Prelude.Dict
use crosspoint_simulator_mcp.Prelude.Dict.{lookup-insert, lookup-remove}
use crosspoint_simulator_mcp.Spawn.{Os, SpawnError}
use crosspoint_simulator_mcp.Spawn.Supervisor.{
  Supervisor, contains, alive_in, child_alive, reserve, reserve_free, launched, store,
  clear_starting, reap,
}
use crosspoint_simulator_mcp.Spawn.Supervisor.Overlaps.{
  SpawnAction, begins, finishes, looks, reaps, passes, Starts, less, begun, act_spawn, run_spawn,
  spares, spares_starts,
}
use crosspoint_simulator_mcp.Spawn.Supervisor.Overlaps.Pending.{
  no_twice, no_twice-less, contains-without_other, apart_less, distinct,
}

module _ (os : Os) where
  -- While a start of an id is under way, the id is reserved and the table holds no child under it.
  -- No id is under way twice.
  abbrev pub IsSingle : Starts os → Type 0
  IsSingle r =
      (no_twice os r.pending ≡ true)
      × ((j : String)
          → contains os j r.pending ≡ true
          → (Dict.lookup j r.supervisor.children ≡ none)
            × (contains os j r.supervisor.starting ≡ true))

  -- The reservations without a child stay so.
  abbrev pub Kept : Supervisor os → Supervisor os → Type 0
  Kept s s' =
      (j : String)
      → Dict.lookup j s.children ≡ none
      → contains os j s.starting ≡ true
      → (Dict.lookup j s'.children ≡ none) × (contains os j s'.starting ≡ true)

  abbrev pub Reserved : Supervisor os → String → Supervisor os × Result Unit SpawnError → Type 0
  Reserved s id (s', err e) = Kept s s'
  Reserved s id (s', ok u) =
      Kept s s'
      × (contains os id s.starting ≡ false)
      × (Dict.lookup id s'.children ≡ none)
      × (contains os id s'.starting ≡ true)

  alive_in-Kept : (s : Supervisor os) (id : String) (o : Option ℕ) → Kept s (alive_in os s id o).0
  alive_in-Kept s id none j free there = (free, there)
  alive_in-Kept s id (some child) j free there = ground (arith, lookup-remove id j s.children)

  alive_in-gone :
      (s : Supervisor os) (id : String) (o : Option ℕ)
      → Dict.lookup id s.children ≡ o
      → (alive_in os s id o).1 ≡ false
      → Dict.lookup id (alive_in os s id o).0.children ≡ none
  alive_in-gone s id none h down = h
  alive_in-gone s id (some child) h down =
      ground (arith, lookup-remove id id s.children, string_eq.eqb_iff id id)

  reserve_free-Reserved :
      (s : Supervisor os) (id : String) (x : Supervisor os × Bool)
      → Kept s x.0
      → contains os id s.starting ≡ false
      → (x.1 ≡ false → Dict.lookup id x.0.children ≡ none)
      → Reserved s id (reserve_free os x id)
  reserve_free-Reserved s id (s₁, true) kept free gone = kept
  reserve_free-Reserved s id (s₁, false) kept free gone =
      elim (Bool-cases (contains os id s₁.starting)) [
        | inl there ↦ rw there (kept, free, gone refl, there)
        | inr new ↦ rw new (
          λ j absent there.
              let (still, held) = kept j absent there in (still, ground (arith, held)),
          free,
          gone refl,
          ground (arith, string_eq.eqb_iff id id),
        )
      ]

  pub reserve-Reserved : (s : Supervisor os) (id : String) → Reserved s id (reserve os s id)
  unfolding reserve child_alive
  reserve-Reserved s id = elim (Bool-cases (contains os id s.starting)) [
    | inl busy ↦ rw busy (λ j gone there. (gone, there))
    | inr free ↦
        let o = Dict.lookup id s.children in
        rw free (
          reserve_free-Reserved s id (alive_in os s id o) (alive_in-Kept s id o) free
            (alive_in-gone s id o refl))
  ]

  IsSingle-of :
      (s s' : Supervisor os) (pending : List String)
      → Kept s s'
      → IsSingle (record { supervisor = s; pending = pending })
      → IsSingle (record { supervisor = s'; pending = pending })
  IsSingle-of s s' pending kept (once, held) =
      (once, λ j under. let (absent, there) = held j under in kept j absent there)

  begun-IsSingle :
      (r : Starts os) (id : String) (x : Supervisor os × Result Unit SpawnError)
      → Reserved r.supervisor id x
      → IsSingle r
      → IsSingle (begun os r id x)
  begun-IsSingle r id (s, err e) kept single = IsSingle-of r.supervisor s r.pending kept single
  begun-IsSingle r id (s, ok u) (kept, free, absent, there) (once, held) =
      let new : contains os id r.pending ≡ false = elim (Bool-cases (contains os id r.pending)) [
        | inl under ↦ absurd (let (_, taken) = held id under in ground (arith, taken, free))
        | inr new ↦ new
      ] in
      (
        ground (arith, new, once),
        λ j under. elim (Bool-cases (id == j)) [
          | inl same ↦ let p = (string_eq.eqb_iff id j).0 same in (cc, cc)
          | inr other ↦
              let (absent_j, there_j) = held j (ground (arith, under, other)) in
              kept j absent_j there_j
        ],
      )

  launched-IsSingle :
      (r : Starts os) (id : String) (x : os.World × Result ℕ String)
      → IsSingle r
      → IsSingle (record {
        supervisor = (launched os r.supervisor id x).0;
        pending = less os id r.pending;
      })
  unfolding store clear_starting
  launched-IsSingle r id (w, err message) (once, held) = (
    no_twice-less os id r.pending once,
    λ j under.
        let (other, still) = apart_less os id j r.pending once under in
        let (absent, there) = held j still in
        (
          absent,
          ground (arith, contains-without_other os id j r.supervisor.starting, there, other),
        ),
  )
  launched-IsSingle r id (w, ok child) (once, held) = (
    no_twice-less os id r.pending once,
    λ j under.
        let (other, still) = apart_less os id j r.pending once under in
        let (absent, there) = held j still in
        (
          ground (arith, lookup-insert id j child r.supervisor.children, absent, other),
          ground (arith, contains-without_other os id j r.supervisor.starting, there, other),
        ),
  )

  reap-IsSingle :
      (r : Starts os) (id : String)
      → contains os id r.pending ≡ false
      → IsSingle r
      → IsSingle (record r { supervisor = reap os r.supervisor id })
  unfolding reap
  reap-IsSingle r id spared (once, held) = (
    once,
    λ j under.
        let (absent, there) = held j under in
        let other = distinct os id j r.pending spared under in
        (
          ground (arith, lookup-remove id j r.supervisor.children, absent, other),
          ground (arith, contains-without_other os id j r.supervisor.starting, there, other),
        ),
  )

  act-IsSingle :
      (r : Starts os) (a : SpawnAction os)
      → spares os r a ≡ true
      → IsSingle r
      → IsSingle (act_spawn os r a)
  unfolding act_spawn child_alive
  act-IsSingle r (begins id) spared single =
      begun-IsSingle r id (reserve os r.supervisor id) (reserve-Reserved r.supervisor id) single
  act-IsSingle r (finishes id w result) spared single =
      elim (Bool-cases (contains os id r.pending)) [
        | inl under ↦ rw under (launched-IsSingle r id (w, result) single)
        | inr idle ↦ rw idle single
      ]
  act-IsSingle r (looks id) spared single =
      let o = Dict.lookup id r.supervisor.children in
      IsSingle-of r.supervisor (alive_in os r.supervisor id o).0 r.pending
        (alive_in-Kept r.supervisor id o) single
  act-IsSingle r (reaps id) spared single = reap-IsSingle r id (ground arith) single
  act-IsSingle r (passes w) spared single = single

  pub run_spawn-IsSingle :
      (r : Starts os) (actions : List (SpawnAction os))
      → IsSingle r
      → spares_starts os r actions ≡ true
      → IsSingle (run_spawn os r actions)
  unfolding run_spawn spares_starts
  run_spawn-IsSingle r [] single spared = single
  run_spawn-IsSingle r (a ∷ actions) single spared =
      run_spawn-IsSingle (act_spawn os r a) actions
        (act-IsSingle r a (ground (arith, spared)) single) (ground (arith, spared))
