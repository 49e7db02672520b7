-- ===== src/Spawn/Supervisor.antt =====
-- SpawnSupervisor of crates/csm-proxy/src/spawn.rs: the children that `start_instance` started. `start`
-- holds the lock twice, around what it does with files and processes.
pub mod Reservation
pub mod Exclusion
pub mod Reaping
pub mod Settings
pub mod Awaits
pub mod Children
pub mod Overlaps
use Prim.Native.Char.{code}
use Prim.Native.String.{String, ◌++◌ as append}
use crosspoint_simulator_mcp.Prelude.{
  ℕ, ◌+◌, ◌-◌, ◌*◌, ◌/◌, ◌%◌, Bool, true, false, not, ◌&&◌, ◌||◌, Option, none, some, List, [], ◌∷◌,
  ◌++◌, Result, ok, err, ◌==◌, string_eq, nat_eq, any, filter, leb, ltb, unwrap_or, is_some,
  if◌then◌else◌, and_then,
}
use crosspoint_simulator_mcp.Prelude.Dict
use crosspoint_simulator_mcp.State.{is_valid_instance_id}
use crosspoint_simulator_mcp.Text.{codes}
use crosspoint_simulator_mcp.Spawn.{
  SpawnConfig, is_configured, SpawnError, not_configured, invalid_id, already_connected,
  already_spawned, spawn_failed, spawn_argv, Os, default_cwd, seed_sample_book,
  seed_never_sleep_settings,
}

module _ (os : Os) where
  -- The sets of reserved ids, as lists without an order.
  abbrev pub contains : String → List String → Bool
  contains id ids = any (λ i. i == id) ids

  abbrev pub without : String → List String → List String
  without id ids = filter (λ i. not (i == id)) ids

  -- SpawnSupervisor with its lock's contents, and the world.
  pub record Supervisor : Type 0 where
    pub config : SpawnConfig
    pub children : List (String × ℕ)
    pub starting : List String
    pub world : os.World

  unfoldable pub new_supervisor : SpawnConfig → os.World → Supervisor
  new_supervisor config w = record { config = config; children = []; starting = []; world = w }

  abbrev pub configured : Supervisor → Bool
  configured s = is_configured s.config

  abbrev pub wait : Supervisor → ℕ
  wait s = s.config.wait_ms

  abbrev pub auto_sleep_default : Supervisor → Bool
  auto_sleep_default s = s.config.auto_sleep_default

  abbrev pub observe_wait_ms : Supervisor → ℕ
  observe_wait_ms s = s.config.observe_wait_ms

  -- A child that has ended is dropped from the table by whoever looks.
  abbrev pub alive_in : Supervisor → String → Option ℕ → Supervisor × Bool
  alive_in s id none = (s, false)
  alive_in s id (some child) = if os.running child s.world then (s, true) else (
    record s { children = Dict.remove id s.children; world = os.drop_child child s.world },
    false,
  )

  unfoldable pub child_alive : Supervisor → String → Supervisor × Bool
  child_alive s id = alive_in s id (Dict.lookup id s.children)

  unfoldable pub is_alive : Supervisor → String → Supervisor × Bool
  unfolding child_alive
  is_alive s id = child_alive s id

  unfoldable pub clear_starting : Supervisor → String → Supervisor
  clear_starting s id = record s { starting = without id s.starting }

  abbrev pub reserve_free : Supervisor × Bool → String → Supervisor × Result Unit SpawnError
  reserve_free (s, true) id = (s, err already_spawned)
  reserve_free (s, false) id = (
    record s { starting = if contains id s.starting then s.starting else id ∷ s.starting },
    ok tt,
  )

  -- The first block under the lock.
  unfoldable pub reserve : Supervisor → String → Supervisor × Result Unit SpawnError
  unfolding child_alive
  reserve s id =
      if contains id s.starting
      then (s, err already_spawned)
      else reserve_free (child_alive s id) id

  abbrev pub seed_when :
      Bool → (os.World → os.World × Result String String) → os.World → os.World × Result Unit String
  seed_when true seed w = and_then (seed w) λ w _. (w, ok tt)
  seed_when false seed w = (w, ok tt)

  abbrev pub workdir_of : Option String → String → String
  workdir_of none id = default_cwd os id
  workdir_of (some path) id = path

  -- What happens between the two blocks: the directory, the seeds and the process.
  unfoldable pub launch :
      SpawnConfig
      → String
      → String
      → Bool
      → Option String
      → Bool
      → Bool
      → os.World
      → os.World × Result ℕ String
  unfolding seed_sample_book seed_never_sleep_settings
  launch config binary id headless cwd sample_book auto_sleep w =
      let workdir = workdir_of cwd id in
      and_then (os.create_dir_all workdir w) λ w _.
        and_then (seed_when sample_book (seed_sample_book os workdir) w) λ w _.
          and_then (seed_when (not auto_sleep) (seed_never_sleep_settings os workdir) w) λ w _.
            os.spawn (spawn_argv binary config.listen id headless config.extra_args) workdir w

  abbrev pub drop_replaced : Option ℕ → os.World → os.World
  drop_replaced none w = w
  drop_replaced (some child) w = os.drop_child child w

  -- The last block under the lock. A child that the table holds already is dropped.
  unfoldable pub store : Supervisor → String → ℕ → Supervisor
  store s id child = record s {
    starting = without id s.starting;
    children = Dict.insert id child s.children;
    world = drop_replaced (Dict.lookup id s.children) s.world;
  }

  abbrev pub launched :
      Supervisor → String → os.World × Result ℕ String → Supervisor × Result ℕ SpawnError
  launched s id (w, err message) =
      (clear_starting (record s { world = w }) id, err (spawn_failed message))
  launched s id (w, ok child) =
      (store (record s { world = w }) id child, ok (unwrap_or (os.pid child w) 0))

  abbrev pub start_reserved :
      String
      → String
      → Bool
      → Option String
      → Bool
      → Bool
      → Supervisor × Result Unit SpawnError
      → Supervisor × Result ℕ SpawnError
  start_reserved binary id headless cwd sample_book auto_sleep (s, err e) = (s, err e)
  start_reserved binary id headless cwd sample_book auto_sleep (s, ok _) =
      launched s id (launch s.config binary id headless cwd sample_book auto_sleep s.world)

  abbrev pub start_with :
      Supervisor
      → String
      → Bool
      → Option String
      → Bool
      → Bool
      → Bool
      → Option String
      → Supervisor × Result ℕ SpawnError
  start_with s id headless cwd connected sample_book auto_sleep none = (s, err not_configured)
  start_with s id headless cwd true sample_book auto_sleep (some binary) =
      (s, err already_connected)
  start_with s id headless cwd false sample_book auto_sleep (some binary) =
      start_reserved binary id headless cwd sample_book auto_sleep (reserve s id)

  -- Where nothing else uses the supervisor between the two blocks.
  unfoldable pub start :
      Supervisor
      → String
      → Bool
      → Option String
      → Bool
      → Bool
      → Bool
      → Supervisor × Result ℕ SpawnError
  unfolding reserve
  start s id headless cwd connected sample_book auto_sleep =
      if not (is_valid_instance_id id)
      then (s, err invalid_id)
      else start_with s id headless cwd connected sample_book auto_sleep s.config.binary

  -- An error of the kill is ignored.
  abbrev pub kill_taken : Option ℕ → os.World → os.World
  kill_taken none w = w
  kill_taken (some child) w = (os.start_kill child w).0

  -- `reap` up to its await, with the child that the table has under the id. Awaits has the rest.
  unfoldable pub reap : Supervisor → String → Supervisor
  reap s id = record s {
    starting = without id s.starting;
    children = Dict.remove id s.children;
    world = kill_taken (Dict.lookup id s.children) s.world;
  }
