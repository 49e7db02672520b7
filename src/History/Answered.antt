-- ===== src/History/Answered.antt =====
-- A reply of crates/csm-proxy from the session that it comes in on to the call that waits for it.
use crosspoint_simulator_mcp.Prelude.{
  ℕ, ◌<◌, ◌≡◌, ◌≢◌, ◌⊎◌, sym, ap, ◌∙◌, String, Bool, true, Option, some, List, ◌∷◌, string_eq,
  nat_eq, arith, inl, inr, ok,
}
use crosspoint_simulator_mcp.Prelude.Dict
use crosspoint_simulator_mcp.Messages.{SimToServer, ServerToSim, SimPayload}
use crosspoint_simulator_mcp.Tokio.{Tokio, TokioLaws, pending, value}
use crosspoint_simulator_mcp.State.{InstanceMap, WaitKind}
use crosspoint_simulator_mcp.Instances.{owns, set_heartbeat}
use crosspoint_simulator_mcp.Waiters.{
  send_start, send_finish, waiter_matches, push_inbound, remove_if,
}
use crosspoint_simulator_mcp.Waiters.Frame.{set_heartbeat-Frame}
use crosspoint_simulator_mcp.Waiters.Reply.{poll-push_inbound, send_finish-value}
use crosspoint_simulator_mcp.Session.{Session, message, receive, receive_payload, close_session}
use crosspoint_simulator_mcp.History.{Action, receives, step, run}
use crosspoint_simulator_mcp.History.Steps.{
  IsSound, Advance, Frame-Advance, Advance-trans, push_inbound-Advance, remove_if-Advance,
  send_start-Advance,
}
use crosspoint_simulator_mcp.History.Waits.{
  run-Advance, step-Advance, send_start-Held, close_session-Advance,
}

module _ (t : Tokio) (laws : TokioLaws t) where
  -- What is settled stays so.
  stays :
      (s s' : InstanceMap t) (rx : ℕ) (reply : SimToServer)
      → Advance t s s'
      → rx < t.created s.net
      → t.poll rx s.net ≡ value reply
      → t.poll rx s'.net ≡ value reply
  stays s s' rx reply forth old e = forth.progress.settled rx old (λ h. cc) ∙ e

  receive_payload-value :
      (s : InstanceMap t) (session : Session) (reply : SimToServer) (payload : Option SimPayload)
      (kind : WaitKind) (rx : ℕ)
      → IsSound t s
      → reply.corr ≢ 0
      → Dict.lookup reply.corr s.waiters ≡ some (kind, rx)
      → waiter_matches kind reply ≡ true
      → t.poll rx (receive_payload t s session reply payload).0.net ≡ value reply
  unfolding receive_payload
  receive_payload-value s session reply (some (SimPayload.heartbeat hb)) kind rx v corr there fits =
      let f = set_heartbeat-Frame t s session.id_for_loop session.token hb in
      let first = Frame-Advance t f v in
      poll-push_inbound t laws (set_heartbeat t s session.id_for_loop session.token hb)
        session.id_for_loop reply kind rx first.sound.wired corr
        (ap (Dict.lookup reply.corr) f.waiters ∙ there) fits
  receive_payload-value s session reply (some (SimPayload.goodbye reason)) kind rx v corr there
        fits =
      let id = session.id_for_loop in
      let s₁ = push_inbound t s id reply in
      let s₂ = remove_if t s₁ id session.token in
      let first = push_inbound-Advance t laws s id reply v in
      let second = remove_if-Advance t laws s₁ id session.token first.sound in
      let third = close_session-Advance t laws s₂ session second.sound in
      stays s₁ (close_session t s₂ session) rx reply (Advance-trans t first.sound second third)
        (omega (arith, first.progress.grows, v.wired.made reply.corr kind rx there))
        (poll-push_inbound t laws s id reply kind rx v.wired corr there fits)
  receive_payload-value s session reply _ kind rx v corr there fits =
      poll-push_inbound t laws s session.id_for_loop reply kind rx v.wired corr there fits

  receive-value :
      (s : InstanceMap t) (session : Session) (reply : SimToServer) (kind : WaitKind) (rx : ℕ)
      → IsSound t s
      → owns t s session.id_for_loop session.token ≡ true
      → reply.corr ≢ 0
      → Dict.lookup reply.corr s.waiters ≡ some (kind, rx)
      → waiter_matches kind reply ≡ true
      → t.poll rx (step t s (receives session (some (message reply)))).net ≡ value reply
  unfolding step receive
  receive-value s session reply kind rx v own corr there fits =
      rw (step, receive, own)
        (receive_payload-value s session reply reply.payload kind rx v corr there fits)

  -- A call starts to wait in a sound state, with a corr that is not 0. After any steps, the session that
  -- owns its id then receives a reply with the corr of the call and a payload of the kind that the call
  -- waits for. After any further steps, the call ends with that reply, before and after its timeout,
  -- unless it had been answered or disconnected before the reply came in.
  pub send_start-answered :
      (s : InstanceMap t) (id : String) (msg : ServerToSim) (kind : WaitKind) (rx : ℕ)
      (before after : List Action) (session : Session) (reply : SimToServer) (elapsed : Bool)
      → IsSound t s
      → (send_start t s id msg kind).1 ≡ ok rx
      → owns t (run t (send_start t s id msg kind).0 before) session.id_for_loop session.token
        ≡ true
      → reply.corr ≡ msg.corr
      → msg.corr ≢ 0
      → waiter_matches kind reply ≡ true
      → let s₁ = run t (send_start t s id msg kind).0 before in
        let s₂ = run t s₁ (receives session (some (message reply)) ∷ after) in
        (t.poll rx s₁.net ≢ pending) ⊎ (send_finish t s₂ msg.corr rx elapsed ≡ some (s₂, ok reply))
  unfolding run
  send_start-answered s id msg kind rx before after session reply elapsed v started own same corr
        fits =
      let s₀ = (send_start t s id msg kind).0 in
      let s₁ = run t s₀ before in
      let a = receives session (some (message reply)) in
      let s' = step t s₁ a in
      let first = send_start-Advance t laws s id msg kind v in
      let waited = run-Advance t laws s₀ before first.sound in
      let received = step-Advance t laws s₁ a waited.sound in
      let rest = run-Advance t laws s' after received.sound in
      let held = send_start-Held t laws s id msg kind rx started in
      elim (waited.progress.keeps msg.corr kind rx held.0) [
        | inr done ↦ inl done
        | inl h ↦
            let there : Dict.lookup reply.corr s₁.waiters ≡ some (kind, rx) = rw same h.0 in
            let old = waited.sound.wired.made reply.corr kind rx there in
            let new =
              receive-value s₁ session reply kind rx waited.sound own (λ e. corr (sym same ∙ e))
                there fits in
            inr (
              send_finish-value t laws (run t s' after) msg.corr rx elapsed reply (
                stays s' (run t s' after) rx reply rest
                  (omega (arith, old, received.progress.grows)) new))
      ]
