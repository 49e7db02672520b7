-- ===== src/Spawn/Supervisor/Settings.antt =====
-- SpawnSupervisor of crates/csm-proxy/src/spawn.rs: its configuration is never written.
use crosspoint_simulator_mcp.Prelude.{
  ℕ, ◌≡◌, refl, String, Bool, true, false, Option, none, some, Result, ok, err, arith, Bool-cases,
  inl, inr, string_eq, ◌∙◌, List, [], ◌∷◌,
}
use crosspoint_simulator_mcp.Prelude.Dict
use crosspoint_simulator_mcp.State.{is_valid_instance_id}
use crosspoint_simulator_mcp.Spawn.{Os, SpawnError}
use crosspoint_simulator_mcp.Spawn.Supervisor.{
  Supervisor, contains, alive_in, child_alive, reserve, reserve_free, launch, launched,
  start_reserved, start_with, start, store, clear_starting, reap,
}
use crosspoint_simulator_mcp.Spawn.Supervisor.Overlaps.{
  SpawnAction, begins, finishes, looks, reaps, passes, Starts, begun, act_spawn, run_spawn,
}

module _ (os : Os) where
  pub config-alive_in :
      (s : Supervisor os) (id : String) (o : Option ℕ) → (alive_in os s id o).0.config ≡ s.config
  config-alive_in s id none = refl
  config-alive_in s id (some child) = ground arith

  config-reserve_free :
      (x : Supervisor os × Bool) (id : String) → (reserve_free os x id).0.config ≡ x.0.config
  config-reserve_free (s, true) id = refl
  config-reserve_free (s, false) id = refl

  config-reserve : (s : Supervisor os) (id : String) → (reserve os s id).0.config ≡ s.config
  unfolding reserve child_alive
  config-reserve s id = elim (Bool-cases (contains os id s.starting)) [
    | inl busy ↦ rw busy refl
    | inr free ↦ rw free (
        config-reserve_free (alive_in os s id (Dict.lookup id s.children)) id
        ∙ config-alive_in s id (Dict.lookup id s.children))
  ]

  config-launched :
      (s : Supervisor os) (id : String) (x : os.World × Result ℕ String)
      → (launched os s id x).0.config ≡ s.config
  unfolding store clear_starting
  config-launched s id (w, ok child) = refl
  config-launched s id (w, err message) = refl

  config-start_reserved :
      (binary id : String) (headless sample_book auto_sleep : Bool) (cwd : Option String)
      (x : Supervisor os × Result Unit SpawnError)
      → (start_reserved os binary id headless cwd sample_book auto_sleep x).0.config ≡ x.0.config
  config-start_reserved binary id headless sample_book auto_sleep cwd (s, err e) = refl
  config-start_reserved binary id headless sample_book auto_sleep cwd (s, ok u) =
      config-launched s id
        (launch os s.config binary id headless cwd sample_book auto_sleep s.world)

  config-start_with :
      (s : Supervisor os) (id : String) (headless connected sample_book auto_sleep : Bool)
      (cwd binary : Option String)
      → (start_with os s id headless cwd connected sample_book auto_sleep binary).0.config
        ≡ s.config
  config-start_with s id headless connected sample_book auto_sleep cwd none = refl
  config-start_with s id headless true sample_book auto_sleep cwd (some binary) = refl
  config-start_with s id headless false sample_book auto_sleep cwd (some binary) =
      config-start_reserved binary id headless sample_book auto_sleep cwd (reserve os s id)
      ∙ config-reserve s id

  pub config-start :
      (s : Supervisor os) (id : String) (headless connected sample_book auto_sleep : Bool)
      (cwd : Option String)
      → (start os s id headless cwd connected sample_book auto_sleep).0.config ≡ s.config
  unfolding start
  config-start s id headless connected sample_book auto_sleep cwd =
      elim (Bool-cases (is_valid_instance_id id)) [
        | inr bad ↦ rw bad refl
        | inl good ↦
            rw good
              (config-start_with s id headless connected sample_book auto_sleep cwd s.config.binary)
      ]

  config-begun :
      (r : Starts os) (id : String) (x : Supervisor os × Result Unit SpawnError)
      → (begun os r id x).supervisor.config ≡ x.0.config
  config-begun r id (s, err e) = refl
  config-begun r id (s, ok u) = refl

  config-act_spawn :
      (r : Starts os) (a : SpawnAction os)
      → (act_spawn os r a).supervisor.config ≡ r.supervisor.config
  unfolding act_spawn child_alive reap
  config-act_spawn r (begins id) =
      config-begun r id (reserve os r.supervisor id) ∙ config-reserve r.supervisor id
  config-act_spawn r (finishes id w result) = elim (Bool-cases (contains os id r.pending)) [
    | inl under ↦ rw under (config-launched (record r.supervisor { world = w }) id (w, result))
    | inr idle ↦ rw idle refl
  ]
  config-act_spawn r (looks id) =
      config-alive_in r.supervisor id (Dict.lookup id r.supervisor.children)
  config-act_spawn r (reaps id) = refl
  config-act_spawn r (passes w) = refl

  pub config-run_spawn :
      (r : Starts os) (actions : List (SpawnAction os))
      → (run_spawn os r actions).supervisor.config ≡ r.supervisor.config
  unfolding run_spawn
  config-run_spawn r [] = refl
  config-run_spawn r (a ∷ actions) =
      config-run_spawn (act_spawn os r a) actions ∙ config-act_spawn r a
