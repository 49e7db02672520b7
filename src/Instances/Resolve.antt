-- ===== src/Instances/Resolve.antt =====
-- The choice of an instance in crates/csm-proxy/src/instances.rs.
use mathlib.Core.Option
use crosspoint_simulator_mcp.Prelude.{
  ok_or, ◌≡◌, refl, String, true, Option, none, some, ok, ◌↔◌, ◌⊎◌, inl, inr, arith, Bool-cases,
  string_eq,
}
use crosspoint_simulator_mcp.Prelude.Dict
use crosspoint_simulator_mcp.Tokio.{Tokio}
use crosspoint_simulator_mcp.State.{
  Instance, InstanceMap, InstanceSnapshot, ResolveError, instance_snapshot, is_valid_instance_id,
}
use crosspoint_simulator_mcp.Instances.{get, resolve, resolve_or_default}

module _ (t : Tokio) where
  -- The id that a call means: the one it gives, or else the default.
  abbrev pub Means : InstanceMap t → Option String → String → Type 0
  Means s given id = (given ≡ some id) ⊎ ((given ≡ none) × (s.default_instance ≡ some id))

  abbrev pub Connected : InstanceMap t → String → InstanceSnapshot → Type 0
  Connected s id snap =
      (is_valid_instance_id id ≡ true)
      × ((inst : Instance) × (Dict.lookup id s.inner ≡ some inst) × (snap ≡ instance_snapshot inst))

  connected_of :
      (s : InstanceMap t) (id : String) (snap : InstanceSnapshot) (o : Option Instance)
      → Dict.lookup id s.inner ≡ o
      → ok_or (Option.map instance_snapshot o) ResolveError.unknown_instance ≡ ok snap
      → (inst : Instance) × (Dict.lookup id s.inner ≡ some inst) × (snap ≡ instance_snapshot inst)
  connected_of s id snap none e h = cc
  connected_of s id snap (some inst) e h = (inst, e, ground arith)

  resolve-ok :
      (s : InstanceMap t) (id : String) (snap : InstanceSnapshot)
      → resolve t s id ≡ ok snap
      → Connected s id snap
  unfolding resolve get
  resolve-ok s id snap h = elim (Bool-cases (is_valid_instance_id id)) [
    | inr bad ↦ absurd (ground arith)
    | inl good ↦ (good, connected_of s id snap (Dict.lookup id s.inner) refl (ground arith))
  ]

  ok-resolve :
      (s : InstanceMap t) (id : String) (snap : InstanceSnapshot)
      → Connected s id snap
      → resolve t s id ≡ ok snap
  unfolding resolve get
  ok-resolve s id snap (good, (inst, there, same)) = rw (good, there, same)

  resolve_or_default-Means :
      (s : InstanceMap t) (given default : Option String) (snap : InstanceSnapshot)
      → s.default_instance ≡ default
      → resolve_or_default t s given ≡ ok snap
      → (id : String) × Means s given id × Connected s id snap
  unfolding resolve_or_default
  resolve_or_default-Means s (some id) default snap d h = (id, inl refl, resolve-ok s id snap h)
  resolve_or_default-Means s none (some id) snap d h =
      (id, inr (refl, d), resolve-ok s id snap (ground arith))
  resolve_or_default-Means s none none snap d h = absurd (ground arith)

  Means-resolve_or_default :
      (s : InstanceMap t) (given : Option String) (snap : InstanceSnapshot) (id : String)
      → Means s given id
      → Connected s id snap
      → resolve_or_default t s given ≡ ok snap
  unfolding resolve_or_default
  Means-resolve_or_default s given snap id (inl e) c = rw e (ok-resolve s id snap c)
  Means-resolve_or_default s given snap id (inr (e, d)) c = rw (e, d) (ok-resolve s id snap c)

  -- A call resolves to an instance exactly if the id that it gives, or where it gives none the default
  -- id, is valid and connected, and then to that one. No other instance is ever chosen, the only
  -- connected one included.
  pub resolve_or_default_iff :
      (s : InstanceMap t) (given : Option String) (snap : InstanceSnapshot)
      → (resolve_or_default t s given ≡ ok snap)
        ↔ ((id : String) × Means s given id × Connected s id snap)
  resolve_or_default_iff s given snap = (
    λ h. resolve_or_default-Means s given s.default_instance snap refl h,
    λ (id, m, c). Means-resolve_or_default s given snap id m c,
  )
