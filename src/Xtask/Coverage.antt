-- ===== src/Xtask/Coverage.antt =====
-- xtask/src/main.rs: the tasks by name, and what the coverage task runs. The documents and the
-- floating-point numbers of serde_json are a parameter.
use Prim.Native.String.{String, ◌++◌ as append}
use crosspoint_simulator_mcp.Prelude.{
  ℕ, Bool, true, false, not, ◌&&◌, Option, none, some, List, [], ◌∷◌, ◌++◌, Result, ok, err, ◌==◌,
  nat_eq, any, if◌then◌else◌,
}
use crosspoint_simulator_mcp.Text.{codes, starts_with}
use crosspoint_simulator_mcp.Xtask.{Command, ExitStatus, Output, Host, map_failed, succeeded}
use crosspoint_simulator_mcp.Xtask.Start.{StartCsmProxyArgs}

pub record CoverageArgs : Type 0 where
  pub html : Bool
  pub open_report : Bool

pub data Task : Type 0 where
  coverage : CoverageArgs → Task
  generate_sim_cpp : Task
  start_csm_proxy : StartCsmProxyArgs → Task

abbrev pub generated_path_regex : String
generated_path_regex = "src[/\\\\]gen(/|\\\\)|src[/\\\\]gen_connect(/|\\\\)"

-- The text without its last line break.
abbrev pub install_hint : String
install_hint =
    "Missing tools to generate a coverage report.\n\nInstall:\n\n  cargo install cargo-llvm-cov --locked\n  rustup component add llvm-tools-preview"

-- serde_json on a report, and f64.
pub record Reports : Type 1 where
  pub Document : Type 0
  pub Float : Type 0
  pub from_str : String → Result Document String
  pub get : String → Document → Option Document
  pub as_array : Document → Option (List Document)
  pub as_f64 : Document → Option Float
  pub le : Float → Float → Bool
  -- the float of a literal `n.0`
  pub literal : ℕ → Float
  -- `{:.2}`
  pub two_digits : Float → String

abbrev pub min_line_coverage_percent : (reports : Reports) → reports.Float
min_line_coverage_percent reports = reports.literal 90

-- A line ends with a line feed, or with a carriage return and a line feed.
unfoldable pub lines : List ℕ → List (List ℕ)
lines [] = []
lines (c ∷ text) =
    let rest = lines text in
    if c == 10
    then [] ∷ rest
    else if (c == 13) && starts_with (10 ∷ []) text
    then rest
    else elim rest [ [] ↦ (c ∷ []) ∷ [] | line ∷ more ↦ (c ∷ line) ∷ more ]

abbrev pub and_some {ℓ} : {A B : Type ℓ} → Option A → (A → Option B) → Option B
and_some none f = none
and_some (some a) f = f a

abbrev pub first {ℓ} : {A : Type ℓ} → List A → Option A
first [] = none
first (a ∷ rest) = some a

module _ (host : Host) (reports : Reports) where
  abbrev command : String → List String → Command
  command program args = record { program = program; args = args; current_dir = none; env = [] }

  abbrev pub failed : Result ExitStatus String → Bool
  failed (ok status) = not status.success
  failed (err e) = true

  -- Without a rustup that answers, the tools are taken to be there.
  abbrev pub no_llvm_tools : Result Output String → Bool
  no_llvm_tools (ok out) =
      out.status.success
      && not (any (λ line. starts_with (codes "llvm-tools") line) (lines (codes out.stdout)))
  no_llvm_tools (err e) = false

  abbrev pub components_missing : host.World × Result Output String → host.World × Bool
  components_missing (w, listed) = (w, no_llvm_tools listed)

  abbrev pub llvm_cov_missing : host.World × Result ExitStatus String → host.World × Bool
  llvm_cov_missing (w, status) =
      if failed status
      then (w, true)
      else components_missing
          (host.output (command "rustup" ("component" ∷ "list" ∷ "--installed" ∷ [])) w)

  unfoldable pub tool_missing : host.World → host.World × Bool
  unfolding lines
  tool_missing w =
      llvm_cov_missing (host.status (command "cargo" ("llvm-cov" ∷ "--version" ∷ [])) w)

  abbrev pub opened : host.World × Result ExitStatus String → host.World × Result Unit String
  opened (w, err e) = (w, err e)
  opened (w, ok status) =
      if status.success then (w, ok tt) else (w, err (append "opener exited with " status.shown))

  abbrev pub open_path : host.World → Result String String → host.World × Result Unit String
  open_path w (err e) = (w, err e)
  open_path w (ok path) = opened (host.status (command "xdg-open" (path ∷ [])) w)

  -- On neither macOS nor Windows.
  unfoldable pub open_default_browser : String → host.World → host.World × Result Unit String
  open_default_browser path w = open_path w (host.canonicalize path w)

  unfoldable pub line_percent : reports.Document → Option reports.Float
  line_percent json = and_some (reports.get "data" json) λ found.
      and_some (reports.as_array found) λ runs. and_some (first runs) λ run.
        and_some (reports.get "totals" run) λ totals.
          and_some (reports.get "lines" totals)
            λ lines. and_some (reports.get "percent" lines) λ percent. reports.as_f64 percent

  unfoldable pub llvm_cov :
      String → Bool → List String → host.World → host.World × Result Unit String
  llvm_cov root report extra w = succeeded host "cargo llvm-cov" (
      map_failed (λ e. append "failed to run cargo llvm-cov: " e)
        (host.status
          (record {
            program = "cargo";
            args =
                ("llvm-cov"
                  ∷ (if report then "report" ∷ [] else "--workspace" ∷ "--exclude" ∷ "xtask" ∷ []))
                ++ ("--ignore-filename-regex" ∷ generated_path_regex ∷ extra);
            current_dir = some root;
            env = [];
          })
          w))

  unfoldable pub html_index : String → host.World → String
  html_index out_dir w =
      let nested = host.join out_dir "html/index.html" in
      if host.is_file nested w then nested else host.join out_dir "index.html"
