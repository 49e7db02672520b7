-- ===== src/Xtask/Tasks.antt =====
-- xtask/src/main.rs: the coverage task, the generation of the C++ stubs, and the dispatch.
pub mod Passes
use Prim.Native.String.{String, ◌++◌ as append}
use crosspoint_simulator_mcp.Prelude.{
  ℕ, ◌≡◌, refl, Bool, true, false, not, ◌||◌, Option, none, some, List, [], ◌∷◌, Result, ok, err,
  if◌then◌else◌, and_then, ok_or, map_err, Bool-cases, inl, inr, arith,
}
use crosspoint_simulator_mcp.Xtask.{Host, map_failed, succeeded}
use crosspoint_simulator_mcp.Xtask.Start
use crosspoint_simulator_mcp.Xtask.Start.{StartCsmProxyArgs}
use crosspoint_simulator_mcp.Xtask.Coverage.{
  CoverageArgs, Task, coverage, min_line_coverage_percent, generate_sim_cpp, start_csm_proxy,
  install_hint, Reports, tool_missing, open_default_browser, line_percent, llvm_cov, html_index,
}

module _ (host : Host) (reports : Reports) where
  abbrev pub run_when :
      Bool
      → (host.World → host.World × Result Unit String)
      → host.World
      → host.World × Result Unit String
  run_when true f w = f w
  run_when false f w = (w, ok tt)

  -- The report is read and its percentage taken.
  abbrev pub percent_of : Result reports.Document String → Result reports.Float String
  percent_of (err e) = err (append "coverage json: " e)
  percent_of (ok json) =
      ok_or (line_percent host reports json) "coverage json missing data[0].totals.lines.percent"

  abbrev pub read_percent : Result String String → Result reports.Float String
  read_percent (err e) = err e
  read_percent (ok text) = percent_of (reports.from_str text)

  -- The HTML report is there, and is opened where that is asked for.
  abbrev pub check_html :
      CoverageArgs → String → String → host.World → host.World × Result Unit String
  check_html args out_dir html w =
      if not (host.is_file html w)
      then (w, err (append "HTML report was not written under " out_dir))
      else run_when args.open_report
          (λ w.
            map_failed
              (λ e.
                append "could not open the default browser ("
                  (append e (append "). Open " (append html " manually."))))
              (open_default_browser host reports html w))
          w

  abbrev pub check_percent : reports.Float → host.World → host.World × Result Unit String
  check_percent percent w =
      if reports.le percent (min_line_coverage_percent reports)
      then (
        w,
        err (append "line coverage " (append (reports.two_digits percent) "% is not over 90%")),
      )
      else (w, ok tt)

  -- The tests and the reports of llvm-cov.
  abbrev pub run_reports :
      Bool → String → String → String → host.World → host.World × Result Unit String
  run_reports write_html root out_dir json_path w = and_then (host.create_dir_all out_dir w) λ w _.
      and_then (llvm_cov host reports root false [] w) λ w _.
        and_then (llvm_cov host reports root true ("--json" ∷ "--output-path" ∷ json_path ∷ []) w)
          λ w _.
            run_when write_html
              (llvm_cov host reports root true ("--html" ∷ "--output-dir" ∷ out_dir ∷ [])) w

  abbrev pub check_reports :
      Bool → CoverageArgs → String → reports.Float → host.World → host.World × Result Unit String
  check_reports write_html args out_dir percent w =
      and_then
        (run_when write_html (λ w. check_html args out_dir (html_index host reports out_dir w) w) w)
        λ w _. check_percent percent w

  -- From the tests on.
  abbrev pub cover : CoverageArgs → String → host.World → host.World × Result Unit String
  cover args root w =
      let out_dir = host.join root "target/llvm-cov" in
      let json_path = host.join out_dir "coverage.json" in
      let write_html = args.html || args.open_report in
      and_then (run_reports write_html root out_dir json_path w) λ w _.
        and_then (w, read_percent (host.read_to_string json_path w))
          λ w percent. check_reports write_html args out_dir percent w

  abbrev pub cover_with :
      CoverageArgs → String → host.World × Bool → host.World × Result Unit String
  cover_with args root (w, true) = (w, err install_hint)
  cover_with args root (w, false) = cover args root w

  -- `root` is the workspace.
  unfoldable pub run_coverage : CoverageArgs → String → host.World → host.World × Result Unit String
  unfolding tool_missing llvm_cov html_index line_percent open_default_browser
  run_coverage args root w = cover_with args root (tool_missing host reports w)

  unfoldable pub run_generate_sim_cpp : String → host.World → host.World × Result Unit String
  run_generate_sim_cpp root w =
      let protos = host.join root "protos" in
      let template = host.join protos "buf.gen.sim-cpp.yaml" in
      let out = host.join root "crosspoint-simulator/src/sim_grpc/gen" in
      and_then (host.create_dir_all out w) λ w _. succeeded host "buf generate" (
        map_failed (λ e. append "failed to spawn buf generate: " e)
          (host.status
            (record {
              program = host.buf_bin_path;
              args = "generate" ∷ "--template" ∷ template ∷ [];
              current_dir = some protos;
              env = [];
            })
            w))

  abbrev pub returned : host.World × Result Unit String → host.World × Option (Result Unit String)
  returned (w, result) = (w, some result)

  -- None where a task replaces the process.
  unfoldable pub run_task : Task → String → host.World → host.World × Option (Result Unit String)
  unfolding run_coverage run_generate_sim_cpp
  run_task (coverage args) root w = returned (run_coverage args root w)
  run_task generate_sim_cpp root w = returned (run_generate_sim_cpp root w)
  run_task (start_csm_proxy args) root w = Start.run host root args w

  abbrev pub exit_code : Option (Result Unit String) → Option ℕ
  exit_code none = none
  exit_code (some (ok _)) = some 0
  exit_code (some (err e)) = some 1
