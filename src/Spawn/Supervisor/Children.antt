-- ===== src/Spawn/Supervisor/Children.antt =====
-- What `start` of crates/csm-proxy/src/spawn.rs does to the table of children, by how it ends.
use Prim.Native.String.{String}
use crosspoint_simulator_mcp.Prelude.{
  ℕ, ◌≡◌, refl, ◌⊎◌, inl, inr, ◌∙◌, Bool, true, false, Option, none, some, Result, ok, err, arith,
  Bool-cases, ◌==◌, string_eq, unwrap_or,
}
use crosspoint_simulator_mcp.Prelude.Dict
use crosspoint_simulator_mcp.Prelude.Dict.{lookup-insert, lookup-remove}
use crosspoint_simulator_mcp.State.{is_valid_instance_id}
use crosspoint_simulator_mcp.Spawn.{Os, SpawnError}
use crosspoint_simulator_mcp.Spawn.Supervisor.{
  Supervisor, contains, alive_in, child_alive, reserve, reserve_free, launch, launched,
  start_reserved, start_with, start, store, clear_starting,
}

module _ (os : Os) where
  -- The children of the other ids stay as they are.
  abbrev pub Others : String → Supervisor os → Supervisor os → Type 0
  Others id s s' =
      (j : String) → (id == j) ≡ false → Dict.lookup j s'.children ≡ Dict.lookup j s.children

  -- A success leaves a child under the id, and answers with the process id that it has then, or 0 where
  -- it has none. A failure leaves there the child that was there, or none.
  abbrev pub Leaves : Supervisor os → String → Supervisor os × Result ℕ SpawnError → Type 0
  Leaves s id (s', ok pid) =
      (child : ℕ) × (Dict.lookup id s'.children ≡ some child)
      × (pid ≡ unwrap_or (os.pid child s'.world) 0)
  Leaves s id (s', err e) =
      (Dict.lookup id s'.children ≡ none) ⊎ (Dict.lookup id s'.children ≡ Dict.lookup id s.children)

  -- A look at a child.
  abbrev pub Looked : Supervisor os → String → Supervisor os → Type 0
  Looked s id s' =
      Others id s s'
      × ((Dict.lookup id s'.children ≡ none)
          ⊎ (Dict.lookup id s'.children ≡ Dict.lookup id s.children))

  pub alive_in-Looked :
      (s : Supervisor os) (id : String) (o : Option ℕ) → Looked s id (alive_in os s id o).0
  alive_in-Looked s id none = (λ j other. refl, inr refl)
  alive_in-Looked s id (some child) = elim (Bool-cases (os.running child s.world)) [
    | inl up ↦ rw up (λ j other. refl, inr refl)
    | inr gone ↦ rw gone (
      λ j other. ground (arith, lookup-remove id j s.children, other),
      inl (ground (arith, lookup-remove id id s.children, string_eq.eqb_iff id id)),
    )
  ]

  reserve_free-Looked :
      (s : Supervisor os) (x : Supervisor os × Bool) (id : String)
      → Looked s id x.0
      → Looked s id (reserve_free os x id).0
  reserve_free-Looked s (s₁, true) id h = h
  reserve_free-Looked s (s₁, false) id h = h

  reserve-Looked : (s : Supervisor os) (id : String) → Looked s id (reserve os s id).0
  unfolding reserve child_alive
  reserve-Looked s id = elim (Bool-cases (contains os id s.starting)) [
    | inl busy ↦ rw busy (λ j other. refl, inr refl)
    | inr free ↦ rw free (
        reserve_free-Looked s (alive_in os s id (Dict.lookup id s.children)) id
          (alive_in-Looked s id (Dict.lookup id s.children)))
  ]

  alive_in-gone :
      (s : Supervisor os) (id : String) (o : Option ℕ)
      → Dict.lookup id s.children ≡ o
      → (alive_in os s id o).1 ≡ false
      → Dict.lookup id (alive_in os s id o).0.children ≡ none
  alive_in-gone s id none e h = e
  alive_in-gone s id (some child) e h = elim (Bool-cases (os.running child s.world)) [
    | inl up ↦ absurd (ground arith)
    | inr gone ↦ rw gone (ground (arith, lookup-remove id id s.children, string_eq.eqb_iff id id))
  ]

  -- A reservation that succeeds finds no child under its id.
  abbrev Free : String → Supervisor os × Result Unit SpawnError → Type 0
  Free id (s, err e) = Unit
  Free id (s, ok u) = Dict.lookup id s.children ≡ none

  reserve_free-Free :
      (x : Supervisor os × Bool) (id : String)
      → (x.1 ≡ false → Dict.lookup id x.0.children ≡ none)
      → Free id (reserve_free os x id)
  reserve_free-Free (s, true) id h = tt
  reserve_free-Free (s, false) id h = h refl

  reserve-Free : (s : Supervisor os) (id : String) → Free id (reserve os s id)
  unfolding reserve child_alive
  reserve-Free s id = elim (Bool-cases (contains os id s.starting)) [
    | inl busy ↦ rw busy tt
    | inr free ↦ rw free (
        reserve_free-Free (alive_in os s id (Dict.lookup id s.children)) id
          (alive_in-gone s id (Dict.lookup id s.children) refl))
  ]

  launched-Leaves :
      (s s₁ : Supervisor os) (id : String) (x : os.World × Result ℕ String)
      → Dict.lookup id s₁.children ≡ none
      → Looked s id s₁
      → Others id s (launched os s₁ id x).0 × Leaves s id (launched os s₁ id x)
  unfolding store clear_starting
  launched-Leaves s s₁ id (w, err message) free h = h
  launched-Leaves s s₁ id (w, ok child) free (others, here) = (
    λ j other. ground (arith, lookup-insert id j child s₁.children, other) ∙ others j other,
    (
      child,
      ground (arith, lookup-insert id id child s₁.children, string_eq.eqb_iff id id),
      rw free refl,
    ),
  )

  start_reserved-Leaves :
      (s : Supervisor os) (binary id : String) (headless sample_book auto_sleep : Bool)
      (cwd : Option String) (x : Supervisor os × Result Unit SpawnError)
      → Free id x
      → Looked s id x.0
      → let x' = start_reserved os binary id headless cwd sample_book auto_sleep x in
        Others id s x'.0 × Leaves s id x'
  start_reserved-Leaves s binary id headless sample_book auto_sleep cwd (s₁, err e) free h = h
  start_reserved-Leaves s binary id headless sample_book auto_sleep cwd (s₁, ok u) free h =
      launched-Leaves s s₁ id
        (launch os s₁.config binary id headless cwd sample_book auto_sleep s₁.world) free h

  start_with-Leaves :
      (s : Supervisor os) (id : String) (headless connected sample_book auto_sleep : Bool)
      (cwd binary : Option String)
      → let x = start_with os s id headless cwd connected sample_book auto_sleep binary in
        Others id s x.0 × Leaves s id x
  start_with-Leaves s id headless connected sample_book auto_sleep cwd none =
      (λ j other. refl, inr refl)
  start_with-Leaves s id headless true sample_book auto_sleep cwd (some binary) =
      (λ j other. refl, inr refl)
  start_with-Leaves s id headless false sample_book auto_sleep cwd (some binary) =
      start_reserved-Leaves s binary id headless sample_book auto_sleep cwd (reserve os s id)
        (reserve-Free s id) (reserve-Looked s id)

  -- A start leaves the children of the other ids as they are. If it succeeds there is a child under its
  -- id, and it answers with the process id that this child has when the start returns, or with 0 where it
  -- has none. If it fails, at its id, its configuration, a reservation, a
  -- directory, a seed or the process, it leaves under its id the child that was there before, or none.
  pub start-Leaves :
      (s : Supervisor os) (id : String) (headless connected sample_book auto_sleep : Bool)
      (cwd : Option String)
      → let x = start os s id headless cwd connected sample_book auto_sleep in
        Others id s x.0 × Leaves s id x
  unfolding start
  start-Leaves s id headless connected sample_book auto_sleep cwd =
      elim (Bool-cases (is_valid_instance_id id)) [
        | inr bad ↦ rw bad (λ j other. refl, inr refl)
        | inl good ↦
            rw good
              (start_with-Leaves s id headless connected sample_book auto_sleep cwd s.config.binary)
      ]
