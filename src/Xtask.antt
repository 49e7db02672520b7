-- ===== src/Xtask.antt =====
-- xtask/src: the machine that the maintenance tasks run on, as a parameter: its files, its environment
-- and the commands that run on it. Texts stand for paths.
pub mod Start
pub mod Coverage
pub mod Tasks
use Prim.Native.String.{String, ◌++◌ as append}
use crosspoint_simulator_mcp.Prelude.{
  Bool, Option, none, some, List, [], ◌∷◌, Result, ok, err, if◌then◌else◌,
}

-- std::process::Command: the program, its arguments, its directory and the variables that are set for
-- it. The standard streams are left out.
pub record Command : Type 0 where
  pub program : String
  pub args : List String
  pub current_dir : Option String
  pub env : List (String × String)

-- Command::status and Command::output: whether the command succeeded, and how its status prints.
pub record ExitStatus : Type 0 where
  pub success : Bool
  pub shown : String

pub record Output : Type 0 where
  pub status : ExitStatus
  pub stdout : String

pub record Host : Type 1 where
  pub World : Type 0
  pub is_file : String → World → Bool
  pub is_dir : String → World → Bool
  pub join : String → String → String
  -- env::var
  pub var : String → World → Option String
  -- fs::create_dir_all, fs::read_to_string and Path::canonicalize
  pub create_dir_all : String → World → World × Result Unit String
  pub read_to_string : String → World → Result String String
  pub canonicalize : String → World → Result String String
  pub status : Command → World → World × Result ExitStatus String
  pub output : Command → World → World × Result Output String
  -- CommandExt::exec, none where the process is replaced
  pub exec : Command → World → World × Option String
  -- buf_tools::buf_bin_path
  pub buf_bin_path : String

abbrev pub map_failed {ℓ} : {W A E F : Type ℓ} → (E → F) → W × Result A E → W × Result A F
map_failed f (w, ok a) = (w, ok a)
map_failed f (w, err e) = (w, err (f e))

module _ (host : Host) where
  abbrev pub succeeded :
      String → host.World × Result ExitStatus String → host.World × Result Unit String
  succeeded what (w, err e) = (w, err e)
  succeeded what (w, ok status) =
      if status.success
      then (w, ok tt)
      else (w, err (append what (append " failed (" (append status.shown ")"))))
