-- ===== src/Spawn/Supervisor/Overlaps.antt =====
-- Starts of crates/csm-proxy/src/spawn.rs that overlap with each other and with other uses of the
-- supervisor: each action is what one task does to the supervisor under its lock, or to the world
-- outside it.
pub mod Pending
pub mod Single
pub mod Outcome
pub mod Started
use crosspoint_simulator_mcp.Prelude.{
  ℕ, String, Bool, true, false, not, ◌&&◌, List, [], ◌∷◌, Result, ok, err, ◌==◌, string_eq, any,
  if◌then◌else◌,
}
use crosspoint_simulator_mcp.Spawn.{Os, SpawnError}
use crosspoint_simulator_mcp.Spawn.Supervisor.{
  Supervisor, contains, reserve, launched, child_alive, reap,
}

module _ (os : Os) where
  pub data SpawnAction : Type 0 where
    -- The first block of `start`, for a valid id that is not connected.
    begins : String → SpawnAction
    -- The last block of a start that has begun, with the world and the result that its launch came to.
    finishes : String → os.World → Result ℕ String → SpawnAction
    looks : String → SpawnAction
    -- A reap up to its await.
    reaps : String → SpawnAction
    -- What else becomes of the world: the processes, and the drop of a child whose reap has ended.
    passes : os.World → SpawnAction

  -- The supervisor, and the ids of the starts that have begun and not finished.
  pub record Starts : Type 0 where
    pub supervisor : Supervisor os
    pub pending : List String

  -- The list without one occurrence of an id.
  unfoldable pub less : String → List String → List String
  less id [] = []
  less id (i ∷ ids) = if i == id then ids else i ∷ less id ids

  abbrev pub begun : Starts → String → Supervisor os × Result Unit SpawnError → Starts
  begun r id (s, err e) = record { supervisor = s; pending = r.pending }
  begun r id (s, ok _) = record { supervisor = s; pending = id ∷ r.pending }

  unfoldable pub act_spawn : Starts → SpawnAction → Starts
  unfolding reserve child_alive reap less
  act_spawn r (begins id) = begun r id (reserve os r.supervisor id)
  act_spawn r (finishes id w result) = if not (contains os id r.pending) then r else record {
    supervisor = (launched os r.supervisor id (w, result)).0;
    pending = less id r.pending;
  }
  act_spawn r (looks id) = record r { supervisor = (child_alive os r.supervisor id).0 }
  act_spawn r (reaps id) = record r { supervisor = reap os r.supervisor id }
  act_spawn r (passes w) = record r { supervisor = record (r.supervisor) { world = w } }

  unfoldable pub run_spawn : Starts → List SpawnAction → Starts
  unfolding act_spawn
  run_spawn r [] = r
  run_spawn r (a ∷ actions) = run_spawn (act_spawn r a) actions

  -- Nothing reaps an id while a start of it is under way.
  abbrev pub spares : Starts → SpawnAction → Bool
  spares r (reaps id) = not (contains os id r.pending)
  spares r _ = true

  unfoldable pub spares_starts : Starts → List SpawnAction → Bool
  unfolding act_spawn
  spares_starts r [] = true
  spares_starts r (a ∷ actions) = spares r a && spares_starts (act_spawn r a) actions
