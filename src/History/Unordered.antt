-- ===== src/History/Unordered.antt =====
-- The table of instances of crates/csm-proxy/src/instances.rs is a hash map: no operation depends on the
-- order of its entries.
pub mod Waiting
pub mod Steps
use mathlib.Core.Path.{subst}
use crosspoint_simulator_mcp.Prelude.{
  ℕ, ◌≡◌, refl, sym, ap, ◌∙◌, String, Bool, true, false, not, ◌&&◌, Option, none, some, List, [],
  ◌∷◌, ◌==◌, string_eq, nat_eq, arith, if◌then◌else◌, Bool-cases, inl, inr, Option-cases,
}
use crosspoint_simulator_mcp.Prelude.Dict
use crosspoint_simulator_mcp.Prelude.Dict.{lookup-insert, lookup-remove}
use crosspoint_simulator_mcp.Messages.{SimToServer, Register, Heartbeat}
use crosspoint_simulator_mcp.Tokio.{Tokio}
use crosspoint_simulator_mcp.State.{Instance, InstanceMap, inbound_visible}
use crosspoint_simulator_mcp.Queue.{push, try_recv}
use crosspoint_simulator_mcp.Instances.{
  insert, new_instance, owns, has_token, write_instance, update_instance, set_heartbeat,
  set_read_mask, set_exclude_log_components, recv_from, try_recv_inbound,
}
use crosspoint_simulator_mcp.Waiters.{deliver, deliver_to, is_excluded}

-- Two tables with the same entries.
abbrev pub SameEntries : List (String × Instance) → List (String × Instance) → Type 0
SameEntries m n = (id : String) → Dict.lookup id n ≡ Dict.lookup id m

SameEntries-insert :
    (id : String) (inst : Instance) (m n : List (String × Instance))
    → SameEntries m n
    → SameEntries (Dict.insert id inst m) (Dict.insert id inst n)
SameEntries-insert id inst m n h j =
    ground (arith, lookup-insert id j inst m, lookup-insert id j inst n, h j)

SameEntries-remove :
    (id : String) (m n : List (String × Instance))
    → SameEntries m n
    → SameEntries (Dict.remove id m) (Dict.remove id n)
SameEntries-remove id m n h j = ground (arith, lookup-remove id j m, lookup-remove id j n, h j)

module _ (t : Tokio) where
  abbrev pub with_table : InstanceMap t → List (String × Instance) → InstanceMap t
  with_table s m = record s { inner = m }

  -- The same entries in the table, in whatever order, and the rest equal.
  pub record SameTable (s s' : InstanceMap t) : Type 0 where
    pub entries : SameEntries s.inner s'.inner
    pub rest : with_table s' s.inner ≡ s

  pub SameTable-of :
      (s : InstanceMap t) (m : List (String × Instance))
      → SameEntries s.inner m
      → SameTable s (with_table s m)
  SameTable-of s m h = record { entries = h; rest = refl }

  -- It is enough to look at another table in the same state.
  pub respects :
      (f : InstanceMap t → InstanceMap t) (s s' : InstanceMap t)
      → ((m : List (String × Instance))
          → SameEntries s.inner m
          → SameTable (f s) (f (with_table s m)))
      → SameTable s s'
      → SameTable (f s) (f s')
  respects f s s' h same =
      subst (λ r. SameTable (f s) (f r)) (ap (λ r. with_table r s'.inner) (sym same.rest))
        (h s'.inner same.entries)

  pub insert-respects :
      (s : InstanceMap t) (m : List (String × Instance)) (register : Register) (cap tx : ℕ)
      → SameEntries s.inner m
      → SameTable (insert t s register cap tx).0 (insert t (with_table s m) register cap tx).0
  unfolding insert
  insert-respects s m register cap tx h =
      let id = register.instance_id in
      let added = new_instance s.next_token register cap tx in
      rw (h id) (
        SameTable-of (insert t s register cap tx).0 (Dict.insert id added m)
          (SameEntries-insert id added s.inner m h))

  pub write_instance-respects :
      (s : InstanceMap t) (m : List (String × Instance)) (id : String) (f : Instance → Instance)
      (o : Option Instance)
      → SameEntries s.inner m
      → SameTable (write_instance t s id f o) (write_instance t (with_table s m) id f o)
  write_instance-respects s m id f none h = SameTable-of s m h
  write_instance-respects s m id f (some inst) h =
      SameTable-of (record s { inner = Dict.insert id (f inst) s.inner })
        (Dict.insert id (f inst) m) (SameEntries-insert id (f inst) s.inner m h)

  pub update_instance-respects :
      (s : InstanceMap t) (m : List (String × Instance)) (id : String) (f : Instance → Instance)
      → SameEntries s.inner m
      → SameTable (update_instance t s id f) (update_instance t (with_table s m) id f)
  update_instance-respects s m id f h =
      rw (h id) (write_instance-respects s m id f (Dict.lookup id s.inner) h)

  pub owns-respects :
      (s s' : InstanceMap t) (id : String) (token : ℕ)
      → SameTable s s'
      → owns t s' id token ≡ owns t s id token
  unfolding owns
  owns-respects s s' id token same = ap (has_token t token) (same.entries id)

  pub recv_from-respects :
      (s : InstanceMap t) (m : List (String × Instance)) (id : String) (o : Option Instance)
      → SameEntries s.inner m
      → SameTable (recv_from t s id o).0 (recv_from t (with_table s m) id o).0
  recv_from-respects s m id none h = SameTable-of s m h
  recv_from-respects s m id (some inst) h =
      write_instance-respects s m id (λ inst. record inst { inbound = (try_recv inst.inbound).0 })
        (some inst) h

  pub try_recv_inbound-respects :
      (s s' : InstanceMap t) (id : String)
      → SameTable s s'
      → SameTable (try_recv_inbound t s id).0 (try_recv_inbound t s' id).0
  unfolding try_recv_inbound
  try_recv_inbound-respects s s' id =
      respects (λ s. (try_recv_inbound t s id).0) s s'
        λ m h. rw (h id) (recv_from-respects s m id (Dict.lookup id s.inner) h)

  pub deliver-respects :
      (s : InstanceMap t) (m : List (String × Instance)) (id : String) (msg : SimToServer)
      (inst : Instance)
      → SameEntries s.inner m
      → SameTable (deliver t s id msg inst) (deliver t (with_table s m) id msg inst)
  unfolding deliver
  deliver-respects s m id msg inst h = elim (Bool-cases (inbound_visible inst.read_mask msg)) [
    | inr hidden ↦ rw hidden (SameTable-of s m h)
    | inl seen ↦ elim (Bool-cases (is_excluded inst.exclude_log_components msg.payload)) [
      | inl out ↦ rw (seen, out) (SameTable-of s m h)
      | inr kept ↦
          rw (seen, kept)
            (write_instance-respects s m id
              (λ inst. record inst { inbound = push inst.inbound msg }) (some inst) h)
    ]
  ]

  pub deliver_to-respects :
      (s s' : InstanceMap t) (id : String) (msg : SimToServer) (o : Option Instance)
      → SameTable s s'
      → SameTable (deliver_to t s id msg o) (deliver_to t s' id msg o)
  deliver_to-respects s s' id msg none same = same
  deliver_to-respects s s' id msg (some inst) same =
      respects (λ s. deliver t s id msg inst) s s' (λ m h. deliver-respects s m id msg inst h) same

  pub set_heartbeat-respects :
      (s s' : InstanceMap t) (id : String) (token : ℕ) (heartbeat : Heartbeat)
      → SameTable s s'
      → SameTable (set_heartbeat t s id token heartbeat) (set_heartbeat t s' id token heartbeat)
  unfolding set_heartbeat
  set_heartbeat-respects s s' id token heartbeat same = elim (Bool-cases (owns t s id token)) [
    | inr stale ↦ rw (owns-respects s s' id token same, stale) same
    | inl own ↦
        let f : Instance → Instance = λ inst. record inst { last_heartbeat = some heartbeat } in
        rw (owns-respects s s' id token same, own)
          (respects (λ s. update_instance t s id f) s s'
            (λ m h. update_instance-respects s m id f h) same)
  ]
