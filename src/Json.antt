-- ===== src/Json.antt =====
-- The JSON documents of crates/csm-proxy/src/mcp.rs: `serde_json::Value` with integers only, as the
-- program's numbers are, and the crates that produce and encode documents as a parameter.
use crosspoint_simulator_mcp.Prelude.{
  ℕ, String, Bool, ℤ, pos, Option, none, some, List, [], ◌∷◌, ◌==◌, string_eq, if◌then◌else◌,
}
use crosspoint_simulator_mcp.Messages.{Register, Heartbeat, SimToServer}

mutual
  pub data Value : Type 0 where
    null : Value
    bool : Bool → Value
    number : ℤ → Value
    string : String → Value
    array : Values → Value
    object : Members → Value

  pub data Values : Type 0 where
    no_values : Values
    next_value : Value → Values → Values

  pub data Members : Type 0 where
    no_members : Members
    next_member : String → Value → Members → Members

abbrev pub values_of : List Value → Values
values_of [] = no_values
values_of (v ∷ vs) = next_value v (values_of vs)

abbrev pub members_of : List (String × Value) → Members
members_of [] = no_members
members_of ((name, v) ∷ ms) = next_member name v (members_of ms)

-- `json!` on a literal object and on a list.
abbrev pub json : List (String × Value) → Value
json ms = object (members_of ms)

abbrev pub json_array : List Value → Value
json_array vs = array (values_of vs)

abbrev pub nat_json : ℕ → Value
nat_json n = number (pos n)

abbrev pub option_json {ℓ} : {A : Type ℓ} → (A → Value) → Option A → Value
option_json f none = null
option_json f (some a) = f a

unfoldable pub member : String → Members → Option Value
member name no_members = none
member name (next_member key v ms) = if key == name then some v else member name ms

-- `Value::get` with a name, and `Value::as_str`.
unfoldable pub get : String → Value → Option Value
unfolding member
get name (object ms) = member name ms
get name _ = none

abbrev pub as_str : Value → Option String
as_str (string text) = some text
as_str _ = none

abbrev pub and_get : String → Option Value → Option Value
and_get name none = none
and_get name (some v) = get name v

abbrev pub and_as_str : Option Value → Option String
and_as_str none = none
and_as_str (some v) = as_str v

-- serde, serde_json and base64.
pub record Serde : Type 0 where
  -- serde_json::to_value, none for its error
  pub to_value : SimToServer → Option Value
  -- the documents of the generated types, as `json!` embeds them
  pub register_json : Register → Value
  pub heartbeat_json : Heartbeat → Value
  -- Value::to_string
  pub to_string : Value → String
  -- STANDARD.encode
  pub encode : List ℕ → String
