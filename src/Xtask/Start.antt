-- ===== src/Xtask/Start.antt =====
-- xtask/src/start.rs: the plan by which the proxy is built and started for local testing, and its start.
pub mod Simulator
use Prim.Native.String.{String, ◌++◌ as append}
use crosspoint_simulator_mcp.Prelude.{
  ◌≡◌, Bool, true, false, not, ◌||◌, Option, none, some, List, [], ◌∷◌, ◌++◌, Result, ok, err, ◌==◌,
  string_eq, if◌then◌else◌, arith, Bool-cases, inl, inr, unwrap_or, and_then,
}
use crosspoint_simulator_mcp.State.{is_nil}
use crosspoint_simulator_mcp.Xtask.{Command, ExitStatus, Host, map_failed, succeeded}

pub data McpMode : Type 0 where
  http stdio : McpMode

pub record StartCsmProxyArgs : Type 0 where
  pub mode : McpMode
  pub firmware : Option String
  pub board : String
  pub grpc_prefix : Option String
  pub listen : String
  pub mcp_http : String
  pub display : Option String
  pub ld_library_path : List String
  pub build_firmware : Bool
  pub extra : List String

pub record StartPlan : Type 0 where
  pub proxy_bin : String
  pub listen : String
  pub mode : McpMode
  pub mcp_http : String
  pub simulator : Option String
  pub grpc_prefix : Option String
  pub display : Option String
  pub ld_library_path : List String
  pub extra : List String

-- The parts with `:` between them.
unfoldable pub join_parts : List String → String
join_parts [] = ""
join_parts (part ∷ []) = part
join_parts (part ∷ next ∷ parts) = append part (append ":" (join_parts (next ∷ parts)))

unfoldable pub prepend_ld_library_path : List String → Option String → String
unfolding join_parts
prepend_ld_library_path dirs none = join_parts dirs
prepend_ld_library_path dirs (some old) =
    if old == "" then join_parts dirs else join_parts (dirs ++ old ∷ [])

abbrev pub is_http : McpMode → Bool
is_http http = true
is_http stdio = false

abbrev pub simulator_argv : Option String → List String
simulator_argv none = []
simulator_argv (some sim) = "--simulator" ∷ sim ∷ []

unfoldable pub proxy_argv : StartPlan → List String
proxy_argv plan =
    ((plan.proxy_bin ∷ "--listen" ∷ plan.listen ∷ [])
      ++ (if is_http plan.mode then "--mcp-http" ∷ plan.mcp_http ∷ [] else []))
    ++ simulator_argv plan.simulator
    ++ plan.extra

abbrev pub nonempty_display : Option String → Option String
nonempty_display none = none
nonempty_display (some value) = if value == "" then none else some value

module _ (host : Host) where
  unfoldable pub program_path : String → String → host.World → String
  program_path firmware board w =
      if host.is_file firmware w
      then firmware
      else host.join (host.join (host.join (host.join firmware ".pio") "build") board) "program"

  unfoldable pub run_status : Command → String → host.World → host.World × Result Unit String
  run_status cmd what w = succeeded host what (
      map_failed (λ e. append "failed to spawn " (append what (append ": " e))) (host.status cmd w))

  -- On Windows the file has the extension exe.
  unfoldable pub proxy_bin : String → host.World → String
  proxy_bin root w =
      let target = unwrap_or (host.var "CARGO_TARGET_DIR" w) (host.join root "target") in
      host.join (host.join target "debug") "crosspoint-simulator-mcp-proxy"

  abbrev pub built_bin : String → host.World → host.World × Result String String
  built_bin bin w =
      if not (host.is_file bin w)
      then (w, err (append "proxy binary missing after build: " bin))
      else (w, ok bin)

  unfoldable pub build_proxy : String → host.World → host.World × Result String String
  unfolding run_status proxy_bin
  build_proxy root w =
      and_then
        (run_status
          (record {
            program = "cargo";
            args = "build" ∷ "-p" ∷ "csm-proxy" ∷ [];
            current_dir = some root;
            env = [];
          })
          "cargo build -p csm-proxy" w)
        λ w _. built_bin (proxy_bin root w) w

  abbrev pub pkg_config : Option String → host.World → List (String × String)
  pkg_config none w = []
  pkg_config (some prefix) w =
      let pc = host.join (host.join prefix "lib") "pkgconfig" in
      let old = unwrap_or (host.var "PKG_CONFIG_PATH" w) "" in
      ("PKG_CONFIG_PATH", if old == "" then pc else append pc (append ":" old)) ∷ []

  abbrev pub lib_of : Option String → List String
  lib_of none = []
  lib_of (some prefix) = host.join prefix "lib" ∷ []

  abbrev pub search_env : List String → host.World → List (String × String)
  search_env search w =
      if is_nil search
      then []
      else ("LD_LIBRARY_PATH", prepend_ld_library_path search (host.var "LD_LIBRARY_PATH" w))
        ∷ ("LIBRARY_PATH", prepend_ld_library_path search (host.var "LIBRARY_PATH" w))
        ∷ []

  unfoldable pub build_firmware :
      String → String → Option String → List String → host.World → host.World × Result Unit String
  unfolding run_status prepend_ld_library_path
  build_firmware firmware board grpc_prefix ld_library_path w =
      run_status
        (record {
          program = "pio";
          args = "run" ∷ "-e" ∷ board ∷ [];
          current_dir = some firmware;
          env = pkg_config grpc_prefix w ++ search_env (ld_library_path ++ lib_of grpc_prefix) w;
        })
        "pio run" w

  -- The last test of the path.
  abbrev pub found :
      String → String → host.World × Result Unit String → host.World × Result (Option String) String
  found program board (w, err e) = (w, err e)
  found program board (w, ok _) = if host.is_file program w then (w, ok (some program)) else (
    w,
    err (
        append "firmware program missing: "
          (append program (append " (pio env " (append board ")")))),
  )

  abbrev pub resolve_firmware :
      StartCsmProxyArgs → Option String → host.World → host.World × Result (Option String) String
  resolve_firmware args none w = (w, ok none)
  resolve_firmware args (some firmware) w =
      if host.is_file firmware w
      then (w, ok (some firmware))
      else if not (host.is_dir firmware w)
      then (w, err (append "firmware path not found: " firmware))
      else let program = program_path firmware args.board w in
        found program args.board (
          if args.build_firmware || not (host.is_file program w)
          then build_firmware firmware args.board args.grpc_prefix args.ld_library_path w
          else (w, ok tt))

  unfoldable pub resolve_simulator :
      StartCsmProxyArgs → host.World → host.World × Result (Option String) String
  unfolding program_path build_firmware
  resolve_simulator args w = resolve_firmware args args.firmware w

  abbrev pub planned :
      StartCsmProxyArgs
      → String
      → host.World × Result (Option String) String
      → host.World × Result StartPlan String
  planned args proxy_bin (w, err e) = (w, err e)
  planned args proxy_bin (w, ok simulator) = (
    w,
    ok (record {
      proxy_bin = proxy_bin;
      listen = args.listen;
      mode = args.mode;
      mcp_http = args.mcp_http;
      simulator = simulator;
      grpc_prefix = args.grpc_prefix;
      display = nonempty_display args.display;
      ld_library_path = args.ld_library_path;
      extra = args.extra;
    }),
  )

  abbrev pub built :
      StartCsmProxyArgs → host.World × Result String String → host.World × Result StartPlan String
  built args (w, err e) = (w, err e)
  built args (w, ok proxy_bin) = planned args proxy_bin (resolve_simulator args w)

  unfoldable pub plan :
      String → StartCsmProxyArgs → host.World → host.World × Result StartPlan String
  unfolding resolve_simulator build_proxy
  plan root args w = built args (build_proxy root w)

  abbrev pub display_env : Option String → List (String × String)
  display_env none = []
  display_env (some display) = ("DISPLAY", display) ∷ []

  abbrev pub ld_env : List String → host.World → List (String × String)
  ld_env dirs w =
      if is_nil dirs
      then []
      else ("LD_LIBRARY_PATH", prepend_ld_library_path dirs (host.var "LD_LIBRARY_PATH" w)) ∷ []

  abbrev pub command_of : List String → List (String × String) → Command
  command_of [] env = record { program = ""; args = []; current_dir = none; env = env }
  command_of (program ∷ args) env = record {
    program = program;
    args = args;
    current_dir = none;
    env = env;
  }

  abbrev pub executed : host.World × Option String → host.World × Option (Result Unit String)
  executed (w, none) = (w, none)
  executed (w, some e) = (w, some (err (append "exec proxy failed: " e)))

  -- On Unix, and not on macOS: it returns only where the process is not replaced.
  unfoldable pub exec_proxy : StartPlan → host.World → host.World × Option (Result Unit String)
  unfolding proxy_argv prepend_ld_library_path
  exec_proxy plan w = executed (
      host.exec
        (command_of (proxy_argv plan) (display_env plan.display ++ ld_env plan.ld_library_path w))
        w)

  abbrev pub run_plan :
      host.World × Result StartPlan String → host.World × Option (Result Unit String)
  run_plan (w, err e) = (w, some (err e))
  run_plan (w, ok plan) = exec_proxy plan w

  unfoldable pub run :
      String → StartCsmProxyArgs → host.World → host.World × Option (Result Unit String)
  unfolding plan exec_proxy
  run root args w = run_plan (plan root args w)
