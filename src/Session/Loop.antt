-- ===== src/Session/Loop.antt =====
-- The loop of a session of crates/csm-proxy/src/session.rs over its stream, among the other tasks.
use crosspoint_simulator_mcp.Prelude.{
  ◌≡◌, false, List, [], ◌∷◌, some, none, if◌then◌else◌, Bool-cases, inl, inr,
}
use crosspoint_simulator_mcp.Tokio.{Tokio}
use crosspoint_simulator_mcp.State.{InstanceMap}
use crosspoint_simulator_mcp.Instances.{owns}
use crosspoint_simulator_mcp.Session.{Session, Item, receive}
use crosspoint_simulator_mcp.Session.Ownership.{receive-disowns, receive-end}
use crosspoint_simulator_mcp.History.{Action, run}

module _ (t : Tokio) where
  -- Each item stands with what the other tasks do while the loop waits for it. `before_end` is what they
  -- do while it waits for the end of the stream.
  unfoldable pub run_session :
      InstanceMap t → Session → List (List Action × Item) → List Action → InstanceMap t
  run_session s session [] before_end = (receive t (run t s before_end) session none).0
  run_session s session ((meanwhile, item) ∷ items) before_end =
      let (s', goes_on) = receive t (run t s meanwhile) session (some item) in
      let rest = run_session s' session items before_end in if goes_on then rest else s'

  -- After the loop over a stream, wherever it stops in it and whatever the other tasks do between its
  -- items and before its end, the session does not own its id.
  pub run_session-disowns :
      (s : InstanceMap t) (session : Session) (items : List (List Action × Item))
      (before_end : List Action)
      → owns t (run_session s session items before_end) session.id_for_loop session.token ≡ false
  unfolding run_session
  run_session-disowns s session [] before_end =
      receive-disowns t (run t s before_end) session none
        (receive-end t (run t s before_end) session)
  run_session-disowns s session ((meanwhile, item) ∷ items) before_end =
      let now = run t s meanwhile in
      elim (Bool-cases (receive t now session (some item)).1) [
        | inl goes_on ↦
            rw goes_on
              (run_session-disowns (receive t now session (some item)).0 session items before_end)
        | inr stops ↦ rw stops (receive-disowns t now session (some item) stops)
      ]
