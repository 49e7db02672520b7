-- ===== src/Xtask/Tasks/Passes.antt =====
-- What the success of the coverage task of xtask/src/main.rs means.
use Prim.Native.String.{String}
use crosspoint_simulator_mcp.Prelude.{◌≡◌, true, false, ◌||◌, some, [], ◌∷◌, ok}
use crosspoint_simulator_mcp.Xtask.{Host}
use crosspoint_simulator_mcp.Xtask.Coverage.{
  CoverageArgs, Reports, min_line_coverage_percent, tool_missing, line_percent, llvm_cov,
  html_index,
}
use crosspoint_simulator_mcp.Xtask.Tasks.{run_when, check_html}

module _ (host : Host) (reports : Reports) where
  abbrev pub out_dir_of : String → String
  out_dir_of root = host.join root "target/llvm-cov"

  abbrev pub json_path_of : String → String
  json_path_of root = host.join (out_dir_of root) "coverage.json"

  -- A run of the task that succeeds, call by call from the world it begins in to the one it ends in:
  -- cargo-llvm-cov is there, then the directory, the tests of the workspace, the JSON report, the HTML
  -- report where one is wanted; what is then read at the report's path is a report whose line coverage is
  -- a number above the minimum; and the HTML report, where one is wanted, is there.
  pub record Passed (args : CoverageArgs) (root : String) (w w' : host.World) : Type 0 where
    pub found : host.World
    pub created : host.World
    pub tested : host.World
    pub counted : host.World
    pub shown : host.World
    pub text : String
    pub document : reports.Document
    pub percent : reports.Float
    pub has_tool : tool_missing host reports w ≡ (found, false)
    pub has_dir : host.create_dir_all (out_dir_of root) found ≡ (created, ok tt)
    pub passed : llvm_cov host reports root false [] created ≡ (tested, ok tt)
    pub written :
        llvm_cov host reports root true ("--json" ∷ "--output-path" ∷ json_path_of root ∷ []) tested
        ≡ (counted, ok tt)
    pub html_written :
        run_when host reports
          (args.html || args.open_report)
          (llvm_cov host reports root true ("--html" ∷ "--output-dir" ∷ out_dir_of root ∷ []))
          counted
        ≡ (shown, ok tt)
    pub read : host.read_to_string (json_path_of root) shown ≡ ok text
    pub parsed : reports.from_str text ≡ ok document
    pub has_percent : line_percent host reports document ≡ some percent
    pub above : reports.le percent (min_line_coverage_percent reports) ≡ false
    pub html_checked :
        run_when host reports
          (args.html || args.open_report)
          (λ w.
            check_html host reports args
              (out_dir_of root)
              (html_index host reports (out_dir_of root) w)
              w)
          shown
        ≡ (w', ok tt)
