-- ===== src/Mcp/Resources.antt =====
-- crates/csm-proxy/src/mcp.rs: the documents of instances, and the resources that serve them.
pub mod Listing
pub mod Order
use Prim.Native.Char.{code}
use Prim.Native.String.{String, ◌++◌ as append}
use crosspoint_simulator_mcp.Prelude.{
  ℕ, Bool, true, false, not, ◌&&◌, ◌||◌, Option, none, some, List, [], ◌∷◌, ◌++◌, map, Result, ok,
  err, unwrap_or, ◌==◌, string_eq, nat_eq, ltb, if◌then◌else◌,
}
use crosspoint_simulator_mcp.Tokio.{Tokio}
use crosspoint_simulator_mcp.State.{InstanceMap, InstanceSnapshot}
use crosspoint_simulator_mcp.Instances.{snapshots, list}
use crosspoint_simulator_mcp.Text.{codes}
use crosspoint_simulator_mcp.Json.{
  Value, null, string, json, json_array, option_json, and_as_str, Serde,
}
use crosspoint_simulator_mcp.Json
use crosspoint_simulator_mcp.Mcp.Requests.{resolve}

-- The order of texts: by bytes, which for UTF-8 is by code points.
unfoldable pub codes_leb : List ℕ → List ℕ → Bool
codes_leb [] ds = true
codes_leb (c ∷ cs) [] = false
codes_leb (c ∷ cs) (d ∷ ds) = let rest = codes_leb cs ds in ltb c d || ((c == d) && rest)

unfoldable pub string_leb : String → String → Bool
unfolding codes_leb
string_leb a b = codes_leb (codes a) (codes b)

-- A stable sort by a key.
module _ {ℓ} {A : Type ℓ} (key : A → String) where
  unfoldable pub place : A → List A → List A
  place a [] = a ∷ []
  place a (b ∷ bs) =
      let rest = place a bs in if string_leb (key a) (key b) then a ∷ b ∷ bs else b ∷ rest

  unfoldable pub sort_by : List A → List A
  unfolding place
  sort_by [] = []
  sort_by (a ∷ rest) = place a (sort_by rest)

-- What `resources/list` says of a resource.
pub record Resource : Type 0 where
  pub uri : String
  pub name : String

-- The error carries the uri.
pub data ReadError : Type 0 where
  resource_not_found : String → ReadError

abbrev pub capabilities_uri : String
capabilities_uri = "csm://capabilities"

abbrev pub instances_uri : String
instances_uri = "csm://instances"

abbrev pub instance_uri_prefix : String
instance_uri_prefix = "csm://instances/"

unfoldable pub instance_uri : String → String
instance_uri id = append instance_uri_prefix id

-- `str::strip_prefix`.
unfoldable pub strip_prefix : String → String → Option String
strip_prefix String.[] s = some s
strip_prefix (String.◌∷◌ p ps) String.[] = none
strip_prefix (String.◌∷◌ p ps) (String.◌∷◌ c s) =
    let rest = strip_prefix ps s in if code p == code c then rest else none

module _ (t : Tokio) (serde : Serde) where
  unfoldable pub snapshot_json : InstanceSnapshot → Value
  snapshot_json snap = json (
      ("instanceId", string snap.register.instance_id)
      ∷ ("register", serde.register_json snap.register)
      ∷ ("lastHeartbeat", option_json serde.heartbeat_json snap.last_heartbeat)
      ∷ [])

  -- `a["instanceId"].as_str().unwrap_or("")`.
  abbrev pub document_id : Value → String
  document_id v = unwrap_or (and_as_str (Json.get "instanceId" v)) ""

  unfoldable pub list_instances_json : InstanceMap t → Value
  unfolding snapshot_json
  list_instances_json s =
      json
        (("instances", json_array (sort_by document_id (map snapshot_json (snapshots t s)))) ∷ [])

  abbrev pub got : Result InstanceSnapshot String → Result Value String
  got (err e) = err e
  got (ok snap) = ok (snapshot_json snap)

  unfoldable pub get_instance_json : InstanceMap t → Option String → Result Value String
  get_instance_json s instance_id = got (resolve t s instance_id)

  unfoldable pub list_resources : InstanceMap t → List Resource
  unfolding instance_uri
  list_resources s =
      record { uri = capabilities_uri; name = "capabilities" }
      ∷ record { uri = instances_uri; name = "instances" }
      ∷ map (λ id. record { uri = instance_uri id; name = id }) (sort_by (λ id. id) (list t s))

  abbrev pub document : String → Result Value String → Result String ReadError
  document id (ok v) = ok (serde.to_string v)
  document id (err e) = err (resource_not_found (instance_uri id))

  unfoldable pub read_instance_resource : InstanceMap t → String → Result String ReadError
  read_instance_resource s id = document id (get_instance_json s (some id))

  abbrev pub read_stripped : InstanceMap t → String → Option String → Result String ReadError
  read_stripped s uri none = err (resource_not_found uri)
  read_stripped s uri (some id) =
      if id == "" then err (resource_not_found uri) else read_instance_resource s id

  -- The text of a resource. `caps` is the document of `csm://capabilities`.
  unfoldable pub read_resource : InstanceMap t → Value → String → Result String ReadError
  read_resource s caps uri =
      if uri == capabilities_uri
      then ok (serde.to_string caps)
      else if uri == instances_uri
      then ok (serde.to_string (list_instances_json s))
      else read_stripped s uri (strip_prefix instance_uri_prefix uri)
