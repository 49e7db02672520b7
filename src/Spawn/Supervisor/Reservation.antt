-- ===== src/Spawn/Supervisor/Reservation.antt =====
-- The reservations of crates/csm-proxy/src/spawn.rs.
use Prim.Native.String.{String}
use crosspoint_simulator_mcp.Prelude.{
  ℕ, ◌≡◌, ◌⊎◌, refl, Bool, true, false, Option, none, some, List, [], ◌∷◌, string_eq, arith,
  Bool-cases, inl, inr, Result, ok, err,
}
use crosspoint_simulator_mcp.Prelude.Dict
use crosspoint_simulator_mcp.Prelude.Dict.{lookup-insert, lookup-remove}
use crosspoint_simulator_mcp.State.{is_valid_instance_id}
use crosspoint_simulator_mcp.Spawn.{SpawnError, Os}
use crosspoint_simulator_mcp.Spawn.Supervisor.{
  Supervisor, contains, without, alive_in, child_alive, reserve_free, reserve, launch, launched,
  store, clear_starting, start_reserved, start_with, start,
}

module _ (os : Os) where
  pub contains-without :
      (id : String) (ids : List String) → contains os id (without os id ids) ≡ false
  contains-without id [] = refl
  contains-without id (i ∷ ids) = ground (arith, contains-without id ids)

  pub starting-alive_in :
      (s : Supervisor os) (id : String) (o : Option ℕ)
      → ((alive_in os s id o).0.starting ≡ s.starting) × ((alive_in os s id o).0.config ≡ s.config)
  starting-alive_in s id none = (refl, refl)
  starting-alive_in s id (some child) = ground arith

  starting-launched :
      (s : Supervisor os) (id : String) (x : os.World × Result ℕ String)
      → contains os id (launched os s id x).0.starting ≡ false
  unfolding clear_starting store
  starting-launched s id (w, err message) = contains-without id s.starting
  starting-launched s id (w, ok child) = contains-without id s.starting

  starting-start_reserved :
      (binary id : String) (headless sample_book auto_sleep : Bool) (cwd : Option String)
      (s : Supervisor os) (r : Result Unit SpawnError)
      → (contains os id s.starting ≡ false) ⊎ ((u : Unit) × (r ≡ ok u))
      → contains os id
          (start_reserved os binary id headless cwd sample_book auto_sleep (s, r)).0.starting
        ≡ false
  starting-start_reserved binary id headless sample_book auto_sleep cwd s (ok u) h =
      starting-launched s id
        (launch os s.config binary id headless cwd sample_book auto_sleep s.world)
  starting-start_reserved binary id headless sample_book auto_sleep cwd s (err e) (inl free) = free
  starting-start_reserved binary id headless sample_book auto_sleep cwd s (err e) (inr (u, h)) = cc

  reserved :
      (s : Supervisor os) (id : String) (x : Supervisor os × Bool)
      → x.0.starting ≡ s.starting
      → contains os id s.starting ≡ false
      → (contains os id (reserve_free os x id).0.starting ≡ false)
        ⊎ ((u : Unit) × ((reserve_free os x id).1 ≡ ok u))
  reserved s id (s₁, true) same free = inl (rw same free)
  reserved s id (s₁, false) same free = inr (tt, refl)

  starting-start_with :
      (s : Supervisor os) (id : String) (headless connected sample_book auto_sleep : Bool)
      (cwd binary : Option String)
      → contains os id s.starting ≡ false
      → contains os id
          (start_with os s id headless cwd connected sample_book auto_sleep binary).0.starting
        ≡ false
  unfolding reserve child_alive
  starting-start_with s id headless connected sample_book auto_sleep cwd none free = free
  starting-start_with s id headless true sample_book auto_sleep cwd (some binary) free = free
  starting-start_with s id headless false sample_book auto_sleep cwd (some binary) free =
      let looked = alive_in os s id (Dict.lookup id s.children) in
      let x = reserve_free os looked id in
      rw free (
        starting-start_reserved binary id headless sample_book auto_sleep cwd x.0 x.1
          (reserved s id looked (starting-alive_in s id (Dict.lookup id s.children)).0 free))

  -- A start that was not under way leaves no reservation behind, whether it succeeds or fails at its id,
  -- its configuration, a directory, a seed or the process: a failed start never blocks a later one.
  pub start-frees :
      (s : Supervisor os) (id : String) (headless connected sample_book auto_sleep : Bool)
      (cwd : Option String)
      → contains os id s.starting ≡ false
      → contains os id (start os s id headless cwd connected sample_book auto_sleep).0.starting
        ≡ false
  unfolding start
  start-frees s id headless connected sample_book auto_sleep cwd free =
      elim (Bool-cases (is_valid_instance_id id)) [
        | inr bad ↦ rw bad free
        | inl good ↦ rw good (
            starting-start_with s id headless connected sample_book auto_sleep cwd s.config.binary
              free)
      ]
