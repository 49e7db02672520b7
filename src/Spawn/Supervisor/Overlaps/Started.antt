-- ===== src/Spawn/Supervisor/Overlaps/Started.antt =====
-- The whole `start` of crates/csm-proxy/src/spawn.rs as what it does under its locks.
use crosspoint_simulator_mcp.Prelude.{
  ℕ, ◌≡◌, refl, ap, ◌∙◌, String, Bool, true, false, Option, none, some, List, [], ◌∷◌, Result, ok,
  err, string_eq, Bool-cases, inl, inr,
}
use crosspoint_simulator_mcp.State.{is_valid_instance_id}
use crosspoint_simulator_mcp.Spawn.{Os, SpawnError}
use crosspoint_simulator_mcp.Spawn.Supervisor.{
  Supervisor, reserve, launched, launch, start_reserved, start_with, start,
}
use crosspoint_simulator_mcp.Spawn.Supervisor.Overlaps.{
  SpawnAction, begins, finishes, Starts, less, begun, act_spawn, run_spawn,
}

module _ (os : Os) where
  abbrev pub idle : Supervisor os → Starts os
  idle s = record { supervisor = s; pending = [] }

  -- What is done to the supervisor is a sequence of actions.
  abbrev pub Runs : Supervisor os → Supervisor os → Type 0
  Runs s s' = (actions : List (SpawnAction os)) × (run_spawn os (idle s) actions ≡ idle s')

  none-Runs : (s : Supervisor os) → Runs s s
  unfolding run_spawn
  none-Runs s = ([], refl)

  begins-to :
      (s : Supervisor os) (id : String) (x : Supervisor os × Result Unit SpawnError)
      → reserve os s id ≡ x
      → act_spawn os (idle s) (begins id) ≡ begun os (idle s) id x
  unfolding act_spawn
  begins-to s id x h = ap (begun os (idle s) id) h

  finishes-to :
      (s : Supervisor os) (id : String) (w : os.World) (result : Result ℕ String)
      → act_spawn os (record { supervisor = s; pending = id ∷ [] }) (finishes id w result)
        ≡ idle (launched os s id (w, result)).0
  unfolding act_spawn less
  finishes-to s id w result = rw ((string_eq.eqb_iff id id).1 refl) refl

  start_reserved-Runs :
      (s : Supervisor os) (binary id : String) (headless sample_book auto_sleep : Bool)
      (cwd : Option String) (x : Supervisor os × Result Unit SpawnError)
      → reserve os s id ≡ x
      → Runs s (start_reserved os binary id headless cwd sample_book auto_sleep x).0
  unfolding run_spawn
  start_reserved-Runs s binary id headless sample_book auto_sleep cwd (s₁, err e) h =
      (begins id ∷ [], begins-to s id (s₁, err e) h)
  start_reserved-Runs s binary id headless sample_book auto_sleep cwd (s₁, ok u) h =
      let (w, result) =
        launch os s₁.config binary id headless cwd sample_book auto_sleep s₁.world in
      (
        begins id ∷ finishes id w result ∷ [],
        ap (λ r. act_spawn os r (finishes id w result)) (begins-to s id (s₁, ok u) h)
            ∙ finishes-to s₁ id w result,
      )

  start_with-Runs :
      (s : Supervisor os) (id : String) (headless connected sample_book auto_sleep : Bool)
      (cwd binary : Option String)
      → Runs s (start_with os s id headless cwd connected sample_book auto_sleep binary).0
  start_with-Runs s id headless connected sample_book auto_sleep cwd none = none-Runs s
  start_with-Runs s id headless true sample_book auto_sleep cwd (some binary) = none-Runs s
  start_with-Runs s id headless false sample_book auto_sleep cwd (some binary) =
      start_reserved-Runs s binary id headless sample_book auto_sleep cwd (reserve os s id) refl

  -- A start does to the supervisor what a sequence of actions does that leaves no start under way.
  pub start-Runs :
      (s : Supervisor os) (id : String) (headless connected sample_book auto_sleep : Bool)
      (cwd : Option String)
      → Runs s (start os s id headless cwd connected sample_book auto_sleep).0
  unfolding start
  start-Runs s id headless connected sample_book auto_sleep cwd =
      elim (Bool-cases (is_valid_instance_id id)) [
        | inr bad ↦ rw bad (none-Runs s)
        | inl good ↦
            rw good
              (start_with-Runs s id headless connected sample_book auto_sleep cwd s.config.binary)
      ]
