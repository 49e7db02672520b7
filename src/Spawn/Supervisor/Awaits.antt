-- ===== src/Spawn/Supervisor/Awaits.antt =====
-- SpawnSupervisor::reap of crates/csm-proxy/src/spawn.rs from its await on, and `reap_all`. While a task
-- waits for a child that it took out of the table and killed, the other tasks go on.
use crosspoint_simulator_mcp.Prelude.{
  ℕ, suc, String, ◌||◌, not, Option, none, some, List, [], ◌∷◌, leb, if◌then◌else◌, string_eq,
}
use crosspoint_simulator_mcp.Prelude.Dict
use crosspoint_simulator_mcp.Spawn.{Os}
use crosspoint_simulator_mcp.Spawn.Supervisor.{Supervisor, reap}
use crosspoint_simulator_mcp.Spawn.Supervisor.Overlaps.{SpawnAction, run_spawn}

abbrev pub reap_wait_ms : ℕ
reap_wait_ms = 2000

-- What goes on while a task waits for a child: the time, and what the other tasks do to the supervisor and
-- the processes to the world. `pending` has the ids of the starts of other tasks that are under way.
pub record ReapPause (os : Os) : Type 0 where
  pub waited_ms : ℕ
  pub pending : List String
  pub spawn_actions : List (SpawnAction os)

module _ (os : Os) where
  abbrev pub gone_on : Supervisor os → ReapPause os → Supervisor os
  gone_on s pause =
      (run_spawn os (record { supervisor = s; pending = pause.pending })
        pause.spawn_actions).supervisor

  -- The wait ends when the process has ended or after two seconds, and the child is dropped.
  abbrev pub wait_ended : ℕ → ℕ → Supervisor os → Option (Supervisor os)
  wait_ended child waited_ms s =
      if not (os.running child s.world) || leb reap_wait_ms waited_ms
      then some (record s { world = os.drop_child child s.world })
      else none

  -- The await of `reap`, with the child that it took out of the table: no result where the pause is over
  -- before the await is. Without a child there is none.
  unfoldable pub reap_awaited : Supervisor os → Option ℕ → ReapPause os → Option (Supervisor os)
  reap_awaited s none pause = some s
  reap_awaited s (some child) pause = wait_ended child pause.waited_ms (gone_on s pause)

  unfoldable pub reap_each :
      Supervisor os → (ℕ → ReapPause os) → ℕ → List String → Option (Supervisor os)
  unfolding reap reap_awaited
  reap_each s pauses index [] = some s
  reap_each s pauses index (id ∷ ids) =
      elim (reap_awaited (reap os s id) (Dict.lookup id s.children) (pauses index)) [
        | none ↦ none
        | some s ↦ reap_each s pauses (suc index) ids
      ]

  -- The ids are those of the table at its beginning.
  unfoldable pub reap_all : Supervisor os → (ℕ → ReapPause os) → Option (Supervisor os)
  reap_all s pauses = reap_each s pauses 0 (Dict.keys s.children)
