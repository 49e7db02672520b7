-- ===== src/Mcp/Observe/Drain.antt =====
-- The drain of `observe` in crates/csm-proxy/src/mcp.rs.
use crosspoint_simulator_mcp.Prelude.{
  ℕ, zero, suc, ◌<◌, ◌≡◌, refl, sym, ap, ◌∙◌, String, none, some, List, [], ◌∷◌, map, filter, arith,
  length, string_eq, Bool-cases, inl, inr,
}
use crosspoint_simulator_mcp.Prelude.Dict
use crosspoint_simulator_mcp.Prelude.Dict.{lookup-insert, insert_twice}
use crosspoint_simulator_mcp.Messages.{SimToServer}
use crosspoint_simulator_mcp.Queue.{try_recv, pop_front}
use crosspoint_simulator_mcp.Tokio.{Tokio}
use crosspoint_simulator_mcp.State.{Instance, InstanceMap, inbound_visible}
use crosspoint_simulator_mcp.Instances.{try_recv_inbound, read_mask}
use crosspoint_simulator_mcp.Json.{Value, Serde}
use crosspoint_simulator_mcp.Mcp.Observe.{drain, drain_all, taken, event_of}

abbrev pub with_items : Instance → List SimToServer → Instance
with_items inst items = record inst { inbound = record inst.inbound { items = items } }

module _ (t : Tokio) where
  abbrev pub holding : InstanceMap t → String → Instance → List SimToServer → InstanceMap t
  holding s id inst items = record s { inner = Dict.insert id (with_items inst items) s.inner }

  found :
      (s : InstanceMap t) (id : String) (inst : Instance) (items : List SimToServer)
      → Dict.lookup id (holding s id inst items).inner ≡ some (with_items inst items)
  found s id inst items =
      ground (arith, lookup-insert id id (with_items inst items) s.inner, string_eq.eqb_iff id id)

  try_recv_inbound-next :
      (s : InstanceMap t) (id : String) (inst : Instance) (msg : SimToServer)
      (items : List SimToServer)
      → try_recv_inbound t (holding s id inst (msg ∷ items)) id
        ≡ (holding s id inst items, some msg)
  unfolding try_recv_inbound try_recv pop_front
  try_recv_inbound-next s id inst msg items =
      rw
        (
          found s id inst (msg ∷ items),
          insert_twice id (with_items inst items) (with_items inst (msg ∷ items)) s.inner,
        )
        refl

  try_recv_inbound-end :
      (s : InstanceMap t) (id : String) (inst : Instance)
      → try_recv_inbound t (holding s id inst []) id ≡ (holding s id inst [], none)
  unfolding try_recv_inbound try_recv pop_front
  try_recv_inbound-end s id inst =
      rw (found s id inst [], insert_twice id (with_items inst []) (with_items inst []) s.inner)
        refl

  -- What is written to an entry that is there already changes nothing else.
  holding-same :
      (s : InstanceMap t) (id : String) (inst : Instance)
      → Dict.lookup id s.inner ≡ some inst
      → holding s id inst inst.inbound.items ≡ s
  holding-same s id inst there =
      ap (λ inner. record s { inner = inner }) (Dict.insert_same id inst s.inner there)

module _ (t : Tokio) (serde : Serde) where
  abbrev pub shown : List String → List SimToServer → List Value
  shown mask items = map (event_of t serde) (filter (inbound_visible mask) items)

  taken-shown :
      (mask : List String) (s s' : InstanceMap t) (msg : SimToServer) (items : List SimToServer)
      → taken t serde (some msg) mask s (s', shown mask items) ≡ (s', shown mask (msg ∷ items))
  taken-shown mask s s' msg items = elim (Bool-cases (inbound_visible mask msg)) [
    | inl e ↦ rw e refl
    | inr e ↦ rw e refl
  ]

  drain-shown :
      (fuel : ℕ) (s : InstanceMap t) (id : String) (inst : Instance) (mask : List String)
      (items : List SimToServer)
      → length items < fuel
      → drain t serde fuel (holding t s id inst items) id mask
        ≡ (holding t s id inst [], shown mask items)
  unfolding drain
  drain-shown zero s id inst mask items h = absurd (omega arith)
  drain-shown (suc fuel) s id inst mask [] h = rw (try_recv_inbound-end t s id inst) refl
  drain-shown (suc fuel) s id inst mask (msg ∷ items) h =
      rw
        (
          try_recv_inbound-next t s id inst msg items,
          drain-shown fuel s id inst mask items (omega (arith, h)),
        )
        (taken-shown mask (holding t s id inst items) (holding t s id inst []) msg items)

  -- One drain takes every message out of the queue of a connected instance and gives those that the mask
  -- of the instance shows, oldest first, each as its document. It changes nothing else, and the loop
  -- always ends.
  pub drain_all-shown :
      (s : InstanceMap t) (id : String) (inst : Instance)
      → Dict.lookup id s.inner ≡ some inst
      → drain_all t serde s id ≡ (holding t s id inst [], shown inst.read_mask inst.inbound.items)
  unfolding drain_all read_mask
  drain_all-shown s id inst there = rw there (
      ap (λ s'. drain t serde (suc (length inst.inbound.items)) s' id inst.read_mask)
        (sym (holding-same t s id inst there))
      ∙ drain-shown (suc (length inst.inbound.items)) s id inst inst.read_mask inst.inbound.items
          (omega arith))
