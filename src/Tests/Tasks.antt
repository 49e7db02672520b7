-- ===== src/Tests/Tasks.antt =====
-- The maintenance tasks on a machine where every command succeeds.
use crosspoint_simulator_mcp.Prelude.{
  ℕ, ◌≡◌, refl, true, false, Option, none, some, List, [], ◌∷◌, ok, leb, ◌==◌, string_eq, nat_eq,
}
use crosspoint_simulator_mcp.Json
use crosspoint_simulator_mcp.Json.{
  Value, Values, no_values, next_value, array, number, json, json_array, nat_json,
}
use crosspoint_simulator_mcp.Prelude.{pos}
use crosspoint_simulator_mcp.Xtask.{ExitStatus, Host}
use crosspoint_simulator_mcp.Xtask.Start.{McpMode, StartCsmProxyArgs, resolve_simulator}
use crosspoint_simulator_mcp.Xtask.Coverage.{CoverageArgs, Reports}

abbrev done : ExitStatus
done = record { success = true; shown = "exit status: 0" }

abbrev host : Host
host = record {
  World = ℕ;
  is_file = λ path w. path == "program";
  is_dir = λ path w. false;
  join = λ p c. p;
  var = λ name w. none;
  create_dir_all = λ path w. (w, ok tt);
  read_to_string = λ path w. ok "report";
  canonicalize = λ path w. ok path;
  status = λ cmd w. (w, ok done);
  output = λ cmd w. (w, ok (record { status = done; stdout = "llvm-tools-x86_64" }));
  exec = λ cmd w. (w, none);
  buf_bin_path = "buf";
}

abbrev local : StartCsmProxyArgs
local = record {
  mode = McpMode.http;
  firmware = some "program";
  board = "simulator";
  grpc_prefix = none;
  listen = "127.0.0.1:50051";
  mcp_http = "127.0.0.1:8765";
  display = none;
  ld_library_path = [];
  build_firmware = false;
  extra = [];
}

resolved_program : (resolve_simulator host local 0).1 ≡ ok (some "program")
unfolding resolve_simulator
resolved_program = refl

abbrev values : Values → List Value
values no_values = []
values (next_value v vs) = v ∷ values vs

abbrev array_of : Value → Option (List Value)
array_of (array vs) = some (values vs)
array_of _ = none

abbrev number_of : Value → Option ℕ
number_of (number (pos n)) = some n
number_of _ = none

-- Reports whose line coverage is 95.
abbrev reports : Reports
reports = record {
  Document = Value;
  Float = ℕ;
  from_str = λ text. ok (
      json (
        (
          "data",
          json_array (
              json (("totals", json (("lines", json (("percent", nat_json 95) ∷ [])) ∷ [])) ∷ [])
              ∷ []),
        )
        ∷ []));
  get = Json.get;
  as_array = array_of;
  as_f64 = number_of;
  le = leb;
  literal = λ n. n;
  two_digits = λ p. "95.00";
}

abbrev plain : CoverageArgs
plain = record { html = false; open_report = false }
