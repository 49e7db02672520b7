-- ===== src/Mcp/View/Stored.antt =====
-- The session view of crates/csm-proxy/src/mcp.rs: when the host remembers the masks.
use crosspoint_simulator_mcp.Prelude.{
  ℕ, ◌≡◌, refl, String, Bool, false, Option, none, some, List, Result, ok, err, arith, string_eq,
}
use crosspoint_simulator_mcp.Prelude.Dict
use crosspoint_simulator_mcp.Prelude.Dict.{lookup-insert}
use crosspoint_simulator_mcp.Messages.{ServerPayload}
use crosspoint_simulator_mcp.Tokio.{Tokio}
use crosspoint_simulator_mcp.State.{Instance, InstanceMap, InstanceSnapshot}
use crosspoint_simulator_mcp.Instances.{
  take_corr, try_send, send_to, sent, set_read_mask, set_exclude_log_components, read_mask,
  exclude_log_components,
}
use crosspoint_simulator_mcp.Instances.Resolve.{resolve_or_default_iff}
use crosspoint_simulator_mcp.History.Insertion.{IsRegistry}
use crosspoint_simulator_mcp.Json.{Value}
use crosspoint_simulator_mcp.Mcp.Requests.{
  resolve, enqueue, enqueue_to, enqueue_resolved, enqueued, request,
}
use crosspoint_simulator_mcp.Mcp.View.{set_session_view_json, viewed}

module _ (t : Tokio) where
  inner-sent :
      (s : InstanceMap t) (id : String) (corr : ℕ) (net : Option t.Net)
      → (enqueued t s id corr (sent t s net)).0.inner ≡ s.inner
  inner-sent s id corr none = refl
  inner-sent s id corr (some net) = refl

  inner-enqueued :
      (s : InstanceMap t) (id : String) (corr : ℕ) (ack : Bool) (payload : ServerPayload)
      (inst : Option Instance)
      → (enqueued t s id corr (send_to t s (request corr ack payload) inst)).0.inner ≡ s.inner
  inner-enqueued s id corr ack payload none = refl
  inner-enqueued s id corr ack payload (some inst) =
      inner-sent s id corr (t.try_send inst.outbound_tx (request corr ack payload) s.net)

  inner-enqueue_resolved :
      (s : InstanceMap t) (ack : Bool) (payload : ServerPayload)
      (r : Result InstanceSnapshot String)
      → (enqueue_resolved t s ack payload r).0.inner ≡ s.inner
  unfolding enqueue_to try_send take_corr
  inner-enqueue_resolved s ack payload (err e) = refl
  inner-enqueue_resolved s ack payload (ok snap) =
      let (corr, s₁) = take_corr t s in
      let id = snap.register.instance_id in
      inner-enqueued s₁ id corr ack payload (Dict.lookup id s₁.inner)

  -- To queue a request leaves the table as it was.
  pub inner-enqueue :
      (s : InstanceMap t) (given : Option String) (ack : Bool) (payload : ServerPayload)
      → (enqueue t s given ack payload).0.inner ≡ s.inner
  unfolding enqueue
  inner-enqueue s given ack payload = inner-enqueue_resolved s ack payload (resolve t s given)

  -- Both masks of an instance that is connected are there after they were set.
  masks_set :
      (s : InstanceMap t) (id : String) (paths components : List String) (inst : Instance)
      → Dict.lookup id s.inner ≡ some inst
      → let s' = set_exclude_log_components t (set_read_mask t s id paths) id components in
        (read_mask t s' id ≡ some paths) × (exclude_log_components t s' id ≡ some components)
  unfolding set_exclude_log_components set_read_mask read_mask exclude_log_components
  masks_set s id paths components inst there =
      let masked : Instance = record inst { read_mask = paths } in
      let both : Instance = record masked { exclude_log_components = components } in
      let first = lookup-insert id id masked s.inner in
      let second = lookup-insert id id both (Dict.insert id masked s.inner) in
      ground (arith, first, second, there, string_eq.eqb_iff id id)

  -- What the tool leaves in the masks of an instance.
  abbrev pub Stored :
      InstanceMap t
      → String
      → List String
      → List String
      → InstanceMap t × Result Value String
      → Type 0
  Stored s id paths components (s', ok v) =
      (read_mask t s' id ≡ some paths) × (exclude_log_components t s' id ≡ some components)
  Stored s id paths components (s', err e) = s'.inner ≡ s.inner

  viewed-Stored :
      (s : InstanceMap t) (id : String) (paths components : List String) (inst : Instance)
      (x : InstanceMap t × Result Value String)
      → Dict.lookup id s.inner ≡ some inst
      → x.0.inner ≡ s.inner
      → Stored s id paths components (viewed t id paths components x)
  viewed-Stored s id paths components inst (s₁, err e) there same = same
  viewed-Stored s id paths components inst (s₁, ok v) there same =
      masks_set s₁ id paths components inst (rw same there)

  resolved_entry :
      (s : InstanceMap t) (given : Option String) (snap : InstanceSnapshot)
      → IsRegistry t s
      → resolve t s given ≡ ok snap
      → (inst : Instance) × (Dict.lookup snap.register.instance_id s.inner ≡ some inst)
  unfolding resolve
  resolved_entry s given snap v h =
      let (id, _, (_, (inst, there, same))) =
        (resolve_or_default_iff t s given snap).0 (ground arith) in
      (inst, rw (same, (v.entry id inst there).named) there)

  -- Where the call resolves to a registered instance: if its request is queued, the host remembers
  -- exactly the paths and the log components that were given for that instance, and otherwise the table
  -- is as it was.
  pub set_session_view_json-stores :
      (s : InstanceMap t) (given : Option String) (snap : InstanceSnapshot)
      (paths components : List String)
      → IsRegistry t s
      → resolve t s given ≡ ok snap
      → Stored s snap.register.instance_id paths components
          (set_session_view_json t s given paths components)
  unfolding set_session_view_json
  set_session_view_json-stores s given snap paths components v found =
      let (inst, there) = resolved_entry s given snap v found in
      rw found (
        viewed-Stored s snap.register.instance_id paths components inst
          (enqueue t s (some snap.register.instance_id) false _) there
          (inner-enqueue s (some snap.register.instance_id) false _))
