-- ===== src/Session/Ownership.antt =====
-- What a session of crates/csm-proxy/src/session.rs can still do once a newer one has taken its id, and
-- what it leaves behind.
use crosspoint_simulator_mcp.Prelude.{
  ℕ, ◌≡◌, refl, String, false, Option, none, some, List, [], ◌∷◌, arith, Bool-cases, inl, inr,
  nat_eq, string_eq,
}
use crosspoint_simulator_mcp.Prelude.Dict.{lookup-remove}
use crosspoint_simulator_mcp.Messages.{SimToServer, SimPayload}
use crosspoint_simulator_mcp.Tokio.{Tokio}
use crosspoint_simulator_mcp.State.{InstanceMap}
use crosspoint_simulator_mcp.Instances.{owns}
use crosspoint_simulator_mcp.Waiters.{
  remove_if, remove_instance, fail_waiters, take_waiters, take_waiter, corrs_of,
}
use crosspoint_simulator_mcp.Session.{
  Session, Item, failed, message, receive, receive_payload, close_session,
}

module _ (t : Tokio) where
  remove_if-stale :
      (s : InstanceMap t) (id : String) (token : ℕ)
      → owns t s id token ≡ false
      → remove_if t s id token ≡ s
  unfolding remove_if
  remove_if-stale s id token h = rw h

  -- A session that does not own its id any more stops at its next item, whatever that is, and changes
  -- nothing: no waiter, no queue and no entry of the table.
  pub receive-stale :
      (s : InstanceMap t) (session : Session) (item : Option Item)
      → owns t s session.id_for_loop session.token ≡ false
      → receive t s session item ≡ (s, false)
  unfolding receive close_session
  receive-stale s session none h = rw (remove_if-stale s session.id_for_loop session.token h)
  receive-stale s session (some item) h =
      rw (h, remove_if-stale s session.id_for_loop session.token h)

  inner-take_waiters :
      (s : InstanceMap t) (corrs : List ℕ) → (take_waiters t s corrs).inner ≡ s.inner
  unfolding take_waiters take_waiter
  inner-take_waiters s [] = refl
  inner-take_waiters s (c ∷ corrs) = inner-take_waiters (take_waiter t s c) corrs

  remove_if-disowns :
      (s : InstanceMap t) (id : String) (token : ℕ)
      → owns t (remove_if t s id token) id token ≡ false
  unfolding remove_if fail_waiters remove_instance owns
  remove_if-disowns s id token = elim (Bool-cases (owns t s id token)) [
    | inr stale ↦ ground arith
    | inl owner ↦ ground (
      arith,
      lookup-remove id id s.inner,
      string_eq.eqb_iff id id,
      inner-take_waiters (remove_instance t s id) (corrs_of id s.waiter_instance),
    )
  ]

  receive_payload-disowns :
      (s : InstanceMap t) (session : Session) (owned : SimToServer) (payload : Option SimPayload)
      → (receive_payload t s session owned payload).1 ≡ false
      → owns t (receive_payload t s session owned payload).0 session.id_for_loop session.token
        ≡ false
  unfolding receive_payload close_session
  receive_payload-disowns s session owned none h = cc
  receive_payload-disowns s session owned (some (SimPayload.register _)) h = cc
  receive_payload-disowns s session owned (some (SimPayload.heartbeat _)) h = cc
  receive_payload-disowns s session owned (some (SimPayload.snapshot _)) h = cc
  receive_payload-disowns s session owned (some (SimPayload.snapshot_error _)) h = cc
  receive_payload-disowns s session owned (some (SimPayload.log _)) h = cc
  receive_payload-disowns s session owned (some (SimPayload.input_ack _)) h = cc
  receive_payload-disowns s session owned (some (SimPayload.input_observed _)) h = cc
  receive_payload-disowns s session owned (some (SimPayload.goodbye _)) h =
      remove_if-disowns _ session.id_for_loop session.token
  receive_payload-disowns s session owned (some (SimPayload.ui_result _)) h = cc

  -- However a session ends, at the end of its stream, at an error, at a goodbye or because it was
  -- replaced, it does not own its id afterwards.
  pub receive-disowns :
      (s : InstanceMap t) (session : Session) (item : Option Item)
      → (receive t s session item).1 ≡ false
      → owns t (receive t s session item).0 session.id_for_loop session.token ≡ false
  unfolding receive close_session
  receive-disowns s session none h = remove_if-disowns s session.id_for_loop session.token
  receive-disowns s session (some failed) h =
      elim (Bool-cases (owns t s session.id_for_loop session.token)) [
        | inl owner ↦ rw owner (remove_if-disowns s session.id_for_loop session.token)
        | inr stale ↦ rw stale (remove_if-disowns s session.id_for_loop session.token)
      ]
  receive-disowns s session (some (message owned)) h =
      elim (Bool-cases (owns t s session.id_for_loop session.token)) [
        | inl owner ↦
            rw owner (receive_payload-disowns s session owned owned.payload (ground arith))
        | inr stale ↦ rw stale (remove_if-disowns s session.id_for_loop session.token)
      ]

  pub receive-end : (s : InstanceMap t) (session : Session) → (receive t s session none).1 ≡ false
  unfolding receive
  receive-end s session = refl
