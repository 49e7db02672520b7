-- ===== src/Cli.antt =====
-- crates/csm-proxy/src/cli.rs, and the settings that other parts read off the arguments:
-- crates/csm-proxy/src/spawn.rs (`SpawnConfig::from_args`) and crates/csm-proxy/src/logging.rs. The
-- parser of the arguments, clap, calls `parse_instance_id` for the default instance.
use crosspoint_simulator_mcp.Prelude.{
  ℕ, ◌≡◌, String, Bool, Option, none, some, List, Result, ok, err, ◌==◌, string_eq, arith,
  Bool-cases, inl, inr, if◌then◌else◌,
}
use crosspoint_simulator_mcp.Tokio.{Tokio}
use crosspoint_simulator_mcp.State.{InstanceMap, is_valid_instance_id}
use crosspoint_simulator_mcp.Instances.{set_default_instance, resolve, resolve_or_default}
use crosspoint_simulator_mcp.Spawn.{SpawnConfig, spawn_wait_ms}

pub record Args : Type 0 where
  pub listen : String
  pub mcp_http : Option String
  pub default_instance : Option String
  pub simulator : Option String
  pub simulator_arg : List String
  pub auto_sleep : Bool
  pub observe_wait_ms : ℕ

unfoldable pub parse_instance_id : String → Result String String
parse_instance_id s = if is_valid_instance_id s then ok s else err "must be 1-64 bytes"

unfoldable pub from_args : Args → SpawnConfig
from_args args = record {
  binary = args.simulator;
  extra_args = args.simulator_arg;
  listen = args.listen;
  wait_ms = spawn_wait_ms;
  auto_sleep_default = args.auto_sleep;
  observe_wait_ms = args.observe_wait_ms;
}

abbrev pub default_filter : String
default_filter = "csm_proxy=info"

-- The text that the filter is made of.
unfoldable pub filter_from_env : Option String → String
filter_from_env none = default_filter
filter_from_env (some spec) = if spec == "" then default_filter else spec

module _ (t : Tokio) where
  unfoldable pub apply_instance_hints : Args → InstanceMap t → InstanceMap t
  apply_instance_hints args instances = set_default_instance t instances args.default_instance

  -- Where the parser accepts the id of `--default-instance`, a call without an id resolves, once the
  -- hints are applied, exactly as a call with that id.
  pub apply_instance_hints-resolves :
      (args : Args) (instances : InstanceMap t) (given id : String)
      → parse_instance_id given ≡ ok id
      → args.default_instance ≡ some id
      → let s = apply_instance_hints args instances in
        resolve_or_default t s none ≡ resolve t s given
  unfolding apply_instance_hints parse_instance_id set_default_instance resolve_or_default
  apply_instance_hints-resolves args instances given id parsed hint =
      elim (Bool-cases (is_valid_instance_id given)) [
        | inl valid ↦ ground (arith, hint)
        | inr bad ↦ absurd (ground arith)
      ]
