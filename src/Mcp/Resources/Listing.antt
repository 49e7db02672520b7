-- ===== src/Mcp/Resources/Listing.antt =====
-- The resources of crates/csm-proxy/src/mcp.rs: the list names the connected instances, and each name
-- leads back to its instance.
use Prim.Native.Char.{Char, code}
use Prim.Native.String.{String, ◌++◌ as append}
use Prim.Native.String.append as Append
use crosspoint_simulator_mcp.Prelude.{
  ◌≡◌, ◌≢◌, refl, ap, false, none, some, arith, ◌==◌, string_eq, nat_eq, Bool-cases, inl, inr,
  eq_of_beq, nat_beq_iff,
}
use crosspoint_simulator_mcp.Tokio.{Tokio}
use crosspoint_simulator_mcp.State.{InstanceMap}
use crosspoint_simulator_mcp.Json.{Value, Serde}
use crosspoint_simulator_mcp.Mcp.Resources.{
  strip_prefix, instance_uri, instance_uri_prefix, capabilities_uri, instances_uri,
  read_instance_resource, read_resource,
}

append_cons : (c : Char) (p s : String) → append (String.◌∷◌ c p) s ≡ String.◌∷◌ c (append p s)
append_cons c p s = λ i. Append.cons c p s i

append_nil : (s : String) → append String.[] s ≡ s
append_nil s = λ i. Append.nil s i

strip_prefix-append : (p s : String) → strip_prefix p (append p s) ≡ some s
unfolding strip_prefix
strip_prefix-append String.[] s = ap some (append_nil s)
strip_prefix-append (String.◌∷◌ c p) s =
    rw (append_cons c p s) (ground (arith, strip_prefix-append p s, nat_beq_iff (code c) (code c)))

strip_prefix-instance_uri :
    (id : String) → strip_prefix instance_uri_prefix (instance_uri id) ≡ some id
unfolding instance_uri
strip_prefix-instance_uri id = strip_prefix-append instance_uri_prefix id

not_stripped :
    (id uri : String)
    → strip_prefix instance_uri_prefix uri ≡ none
    → (instance_uri id == uri) ≡ false
not_stripped id uri bare = elim (Bool-cases (instance_uri id == uri)) [
  | inr other ↦ other
  | inl same ↦
      let e = ap (strip_prefix instance_uri_prefix) (eq_of_beq (instance_uri id) uri same) in
      absurd (ground (arith, e, strip_prefix-instance_uri id))
]

capabilities_bare : strip_prefix instance_uri_prefix capabilities_uri ≡ none
unfolding strip_prefix
capabilities_bare = refl

instances_bare : strip_prefix instance_uri_prefix instances_uri ≡ none
unfolding strip_prefix
instances_bare = refl

module _ (t : Tokio) (serde : Serde) where
  -- The uri that the list gives an instance reads that instance, for every id but the empty one: no id
  -- is taken for one of the two fixed resources.
  pub read_resource-instance_uri :
      (s : InstanceMap t) (caps : Value) (id : String)
      → id ≢ ""
      → read_resource t serde s caps (instance_uri id) ≡ read_instance_resource t serde s id
  unfolding read_resource
  read_resource-instance_uri s caps id nonempty =
      rw
        (
          not_stripped id capabilities_uri capabilities_bare,
          not_stripped id instances_uri instances_bare,
          strip_prefix-instance_uri id,
          named,
        )
        refl
    where
      named : (id == "") ≡ false
      named = ground (arith, nonempty, string_eq.eqb_iff id "")
