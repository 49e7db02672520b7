-- ===== src/Spawn.antt =====
-- crates/csm-proxy/src/spawn.rs: the configuration, the argument vector, the working directory and its
-- seeds. The operating system (directories, files, processes and the directory for temporary files) is a
-- parameter.
pub mod Names
pub mod Supervisor
use Prim.Native.Char.{code}
use Prim.Native.String.{String, ◌++◌ as append}
use crosspoint_simulator_mcp.Prelude.{
  ℕ, ◌+◌, ◌-◌, ◌*◌, ◌/◌, ◌%◌, Bool, true, false, not, ◌&&◌, ◌||◌, Option, none, some, List, [], ◌∷◌,
  ◌++◌, Result, ok, err, ◌==◌, string_eq, nat_eq, any, filter, leb, ltb, unwrap_or, is_some,
  if◌then◌else◌, and_then,
}
use crosspoint_simulator_mcp.Prelude.Dict
use crosspoint_simulator_mcp.State.{is_valid_instance_id}
use crosspoint_simulator_mcp.Text.{codes}

pub record SpawnConfig : Type 0 where
  pub binary : Option String
  pub extra_args : List String
  pub listen : String
  pub wait_ms : ℕ
  pub auto_sleep_default : Bool
  pub observe_wait_ms : ℕ

abbrev pub spawn_wait_ms : ℕ
spawn_wait_ms = 15000

abbrev pub default_observe_wait_ms : ℕ
default_observe_wait_ms = 8000

abbrev pub never_sleep_timeout_minutes : ℕ
never_sleep_timeout_minutes = 31

abbrev pub sample_book_filename : String
sample_book_filename = "CrossPoint-Reader.epub"

abbrev pub settings_relative : String
settings_relative = "fs_/.crosspoint/settings.json"

-- `SpawnConfig::default`.
abbrev pub default_config : SpawnConfig
default_config = record {
  binary = none;
  extra_args = [];
  listen = "127.0.0.1:50051";
  wait_ms = spawn_wait_ms;
  auto_sleep_default = false;
  observe_wait_ms = default_observe_wait_ms;
}

unfoldable pub is_configured : SpawnConfig → Bool
is_configured config = is_some config.binary

pub data SpawnError : Type 0 where
  not_configured invalid_id already_connected already_spawned : SpawnError
  spawn_failed : String → SpawnError
  exited_before_register register_timeout : SpawnError

unfoldable pub spawn_error_text : SpawnError → String
spawn_error_text not_configured = "spawn is not configured; set --simulator / CSM_SIMULATOR"
spawn_error_text invalid_id = "instance_id is required (1-64 bytes)"
spawn_error_text already_connected = "instance is already connected"
spawn_error_text already_spawned = "instance is already spawned"
spawn_error_text (spawn_failed message) = append "failed to start simulator: " message
spawn_error_text exited_before_register = "simulator exited before register"
spawn_error_text register_timeout = "timed out waiting for register"

unfoldable pub spawn_argv : String → String → String → Bool → List String → List String
spawn_argv binary listen instance_id headless extra_args =
    (binary ∷ extra_args)
    ++ ("--sim-grpc"
        ∷ "--sim-grpc-addr"
        ∷ listen
        ∷ "--sim-instance-id"
        ∷ instance_id
        ∷ (if headless then "--sim-headless" ∷ [] else []))

-- What a file is written with: the committed book, or a text.
pub data Contents : Type 0 where
  sample_book_epub : Contents
  text : String → Contents

pub record Os : Type 1 where
  pub World : Type 0
  -- env::temp_dir, and Path::join with a component given by its bytes
  pub temp_dir : String
  pub join : String → List ℕ → String
  -- fs::create_dir_all and fs::write
  pub create_dir_all : String → World → World × Result Unit String
  pub write : String → Contents → World → World × Result Unit String
  -- Command::spawn with the argument vector and the working directory, and Child::id
  pub spawn : List String → String → World → World × Result ℕ String
  pub pid : ℕ → World → Option ℕ
  -- Child::try_wait says that the process has not ended
  pub running : ℕ → World → Bool
  -- Child::start_kill, and the drop of a child that is killed on drop
  pub start_kill : ℕ → World → World × Result Unit String
  pub drop_child : ℕ → World → World

-- The bytes of a text, as UTF-8.
unfoldable pub utf8 : ℕ → List ℕ
utf8 c =
    if ltb c 128
    then c ∷ []
    else if ltb c 2048
    then (192 + c / 64) ∷ (128 + c % 64) ∷ []
    else if ltb c 65536
    then (224 + c / 4096) ∷ (128 + (c / 64) % 64) ∷ (128 + c % 64) ∷ []
    else (240 + c / 262144) ∷ (128 + (c / 4096) % 64) ∷ (128 + (c / 64) % 64) ∷ (128 + c % 64) ∷ []

unfoldable pub bytes : List ℕ → List ℕ
unfolding utf8
bytes [] = []
bytes (c ∷ cs) = utf8 c ++ bytes cs

abbrev pub within : ℕ → ℕ → ℕ → Bool
within low high b = leb low b && leb b high

abbrev pub is_ascii_alphanumeric : ℕ → Bool
is_ascii_alphanumeric b = within 48 57 b || within 65 90 b || within 97 122 b

-- `.`, `_` and `-` besides.
unfoldable pub is_safe : ℕ → Bool
is_safe b = is_ascii_alphanumeric b || (b == 46) || (b == 95) || (b == 45)

abbrev pub hex_digit : ℕ → ℕ
hex_digit n = if ltb n 10 then 48 + n else 87 + n

-- `{b:02x}` of every byte.
unfoldable pub hex : List ℕ → List ℕ
hex [] = []
hex (b ∷ bs) = hex_digit (b / 16) ∷ hex_digit (b % 16) ∷ hex bs

-- The bytes of the name.
unfoldable pub safe_dir_name : String → List ℕ
unfolding bytes is_safe hex
safe_dir_name id =
    let bs = bytes (codes id) in
    if not (id == "") && not (any (λ b. not (is_safe b)) bs) then bs else hex bs

module _ (os : Os) where
  unfoldable pub default_cwd : String → String
  unfolding safe_dir_name
  default_cwd instance_id =
      os.join (os.join os.temp_dir (codes "csm-spawn")) (safe_dir_name instance_id)

  unfoldable pub seed_sample_book : String → os.World → os.World × Result String String
  seed_sample_book cwd w =
      let dir = os.join (os.join cwd (codes "fs_")) (codes "books") in
      let path = os.join dir (codes sample_book_filename) in
      and_then (os.create_dir_all dir w)
        λ w _. and_then (os.write path sample_book_epub w) λ w _. (w, ok path)

  unfoldable pub seed_never_sleep_settings : String → os.World → os.World × Result String String
  seed_never_sleep_settings cwd w =
      let dir = os.join (os.join cwd (codes "fs_")) (codes ".crosspoint") in
      let path = os.join dir (codes "settings.json") in
      and_then (os.create_dir_all dir w) λ w _.
        and_then (os.write path (text "{\"sleepTimeoutMinutes\":31}\n") w) λ w _. (w, ok path)
