-- ===== src/Mcp/Until.antt =====
-- crates/csm-proxy/src/mcp.rs: the conditions that `observe` waits for.
pub mod Any
pub mod Page
use Prim.Native.String.{◌++◌ as append}
use crosspoint_simulator_mcp.Prelude.{
  ℕ, zero, suc, ◌++◌, ◌&&◌, ◌||◌, String, Bool, true, false, not, Option, none, some, List, [], ◌∷◌,
  Result, ok, err, ◌==◌, string_eq, nat_eq, ℤ, pos, negsuc, unwrap_or, is_some, any, length, ltb,
  leb, if◌then◌else◌,
}
use crosspoint_simulator_mcp.Prelude.Dict
use crosspoint_simulator_mcp.Messages.{SimToServer, Heartbeat}
use crosspoint_simulator_mcp.Tokio.{Tokio}
use crosspoint_simulator_mcp.State.{Instance, InstanceMap, InstanceSnapshot, inbound_visible}
use crosspoint_simulator_mcp.Instances.{get, try_recv_inbound, read_mask}
use crosspoint_simulator_mcp.History.{Action, run}
use crosspoint_simulator_mcp.Text.{codes, contains, tagged_i32}
use crosspoint_simulator_mcp.Json.{
  Value, null, bool, number, string, json, nat_json, json_array, option_json, as_str, and_get,
  and_as_str, Serde,
}
use crosspoint_simulator_mcp.Json
use crosspoint_simulator_mcp.Mcp.Requests.{resolve}
use crosspoint_simulator_mcp.Mcp.Inject.{Call, heartbeat_of}

pub record ObserveSpec : Type 0 where
  pub wait_ms : Option ℕ
  pub until_log : Option String
  pub until_generation_gt : Option ℕ
  pub until_activity : Option String
  pub until_progress_page : Option ℤ

abbrev pub int_beq : ℤ → ℤ → Bool
int_beq (pos m) (pos n) = m == n
int_beq (negsuc m) (negsuc n) = m == n
int_beq _ _ = false

unfoldable pub log_text : Value → String
log_text event = unwrap_or (and_as_str (and_get "text" (Json.get "log" event))) ""

abbrev pub logs : List Value → String → Bool
logs events needle = any (λ event. contains (codes (log_text event)) (codes needle)) events

abbrev pub log_hit : List Value → Option String → Bool
log_hit events none = false
log_hit events (some needle) = logs events needle

abbrev pub above : ℕ → Option ℕ → Bool
above least none = false
above least (some generation) = ltb least generation

abbrev pub generation_hit : Option ℕ → Option ℕ → Bool
generation_hit none generation = false
generation_hit (some least) generation = above least generation

abbrev pub activity_hit : List Value → String → Option String → Bool
activity_hit events activity none = false
activity_hit events activity (some name) =
    activity == name || logs events (append "Entering activity: " name)

abbrev pub same_page : Option ℤ → ℤ → Bool
same_page none page = false
same_page (some tagged) page = int_beq tagged page

unfoldable pub saved_page : ℤ → Value → Bool
saved_page page event =
    let text = codes (log_text event) in
    contains text (codes "Progress saved:") && same_page (tagged_i32 text (codes "page=")) page

abbrev pub page_hit : List Value → ℤ → Option ℤ → Bool
page_hit events reader_page none = false
page_hit events reader_page (some page) = int_beq reader_page page || any (saved_page page) events

unfoldable pub observe_until_matched :
    Option String → Option ℕ → Option String → Option ℤ → List Value → Option ℕ → String → ℤ → Bool
observe_until_matched until_log until_generation_gt until_activity until_progress_page events
      generation activity reader_page =
    let some_until =
      is_some until_log
      || is_some until_generation_gt
      || is_some until_activity
      || is_some until_progress_page in
    let hit =
      log_hit events until_log
      || generation_hit until_generation_gt generation
      || activity_hit events activity until_activity
      || page_hit events reader_page until_progress_page in
    not some_until || hit

-- `filter(|text| !text.is_empty())`.
abbrev pub nonempty : Option String → Option String
nonempty none = none
nonempty (some text) = if text == "" then none else some text

unfoldable pub is_waiting : ObserveSpec → Bool
is_waiting spec =
    is_some (nonempty spec.until_log)
    || is_some spec.until_generation_gt
    || is_some (nonempty spec.until_activity)
    || is_some spec.until_progress_page

unfoldable pub timeout_ms : ℕ → ObserveSpec → ℕ
unfolding is_waiting
timeout_ms observe_wait_ms spec =
    unwrap_or spec.wait_ms (if is_waiting spec then observe_wait_ms else 0)
