-- ===== src/Waiters/Reply.antt =====
-- The replies of crates/csm-proxy/src/instances.rs: what a caller of `send_and_wait_for` gets.
use crosspoint_simulator_mcp.Prelude.{
  ℕ, ◌≡◌, ◌≢◌, refl, String, Bool, true, false, Option, none, some, string_eq, nat_eq, ok, arith,
  Option-cases, inl, inr, ◌⊎◌,
}
use crosspoint_simulator_mcp.Prelude.Dict
use crosspoint_simulator_mcp.Prelude.Dict.{lookup-remove, lookup-insert}
use crosspoint_simulator_mcp.Messages.{SimToServer}
use crosspoint_simulator_mcp.Tokio.{Tokio, TokioLaws, pending, value}
use crosspoint_simulator_mcp.State.{Instance, InstanceMap, WaitKind}
use crosspoint_simulator_mcp.Waiters.{
  complete_waiter, completed, waiter_matches, push_inbound, deliver, deliver_to, send_finish,
}
use crosspoint_simulator_mcp.Waiters.Wired.{IsWired, completed-some}

module _ (t : Tokio) where
  -- The delivery to a queue leaves the waiters and the channels alone.
  pub waiters-deliver :
      (s : InstanceMap t) (id : String) (msg : SimToServer) (inst : Instance)
      → ((deliver t s id msg inst).waiters ≡ s.waiters)
        × ((deliver t s id msg inst).waiter_instance ≡ s.waiter_instance)
        × ((deliver t s id msg inst).net ≡ s.net)
  unfolding deliver
  waiters-deliver s id msg inst = ground arith

  waiters-deliver_to :
      (s : InstanceMap t) (id : String) (msg : SimToServer) (inst : Option Instance)
      → ((deliver_to t s id msg inst).waiters ≡ s.waiters)
        × ((deliver_to t s id msg inst).waiter_instance ≡ s.waiter_instance)
        × ((deliver_to t s id msg inst).net ≡ s.net)
  waiters-deliver_to s id msg none = (refl, refl, refl)
  waiters-deliver_to s id msg (some inst) = waiters-deliver s id msg inst

  pub waiters-push_inbound :
      (s : InstanceMap t) (id : String) (msg : SimToServer)
      → ((push_inbound t s id msg).waiters ≡ (complete_waiter t s msg).waiters)
        × ((push_inbound t s id msg).waiter_instance ≡ (complete_waiter t s msg).waiter_instance)
        × ((push_inbound t s id msg).net ≡ (complete_waiter t s msg).net)
  unfolding push_inbound
  waiters-push_inbound s id msg =
      waiters-deliver_to (complete_waiter t s msg) id msg
        (Dict.lookup id (complete_waiter t s msg).inner)

module _ (t : Tokio) (laws : TokioLaws t) where
  poll-complete_waiter :
      (s : InstanceMap t) (msg : SimToServer) (kind : WaitKind) (rx : ℕ)
      → IsWired t s
      → msg.corr ≢ 0
      → Dict.lookup msg.corr s.waiters ≡ some (kind, rx)
      → waiter_matches kind msg ≡ true
      → t.poll rx (complete_waiter t s msg).net ≡ value msg
  unfolding complete_waiter
  poll-complete_waiter s msg kind rx v corr there fits =
      ground (arith, laws.poll-send rx rx msg s.net, v.unanswered msg.corr kind rx there)

  waiters-complete_waiter :
      (s : InstanceMap t) (msg : SimToServer) (kind : WaitKind) (rx : ℕ)
      → msg.corr ≢ 0
      → Dict.lookup msg.corr s.waiters ≡ some (kind, rx)
      → waiter_matches kind msg ≡ true
      → Dict.lookup msg.corr (complete_waiter t s msg).waiters ≡ none
  unfolding complete_waiter
  waiters-complete_waiter s msg kind rx corr there fits =
      ground (arith, lookup-remove msg.corr msg.corr s.waiters)

  -- A settled channel ends the wait, before and after the timeout.
  pub send_finish-value :
      (s : InstanceMap t) (corr rx : ℕ) (elapsed : Bool) (msg : SimToServer)
      → t.poll rx s.net ≡ value msg
      → send_finish t s corr rx elapsed ≡ some (s, ok msg)
  unfolding send_finish
  send_finish-value s corr rx elapsed msg e = rw e

  pub poll-push_inbound :
      (s : InstanceMap t) (id : String) (msg : SimToServer) (kind : WaitKind) (rx : ℕ)
      → IsWired t s
      → msg.corr ≢ 0
      → Dict.lookup msg.corr s.waiters ≡ some (kind, rx)
      → waiter_matches kind msg ≡ true
      → t.poll rx (push_inbound t s id msg).net ≡ value msg
  poll-push_inbound s id msg kind rx v corr there fits =
      let (_, _, n) = waiters-push_inbound t s id msg in
      rw n (poll-complete_waiter s msg kind rx v corr there fits)

  -- In a wired state a message with the corr of a waiter and a payload of the kind that it waits for,
  -- whichever session it came in on, ends the wait with that message, before and after the timeout, and
  -- takes the waiter out of the table.
  pub push_inbound-answers :
      (s : InstanceMap t) (id : String) (msg : SimToServer) (kind : WaitKind) (rx : ℕ)
      (elapsed : Bool)
      → IsWired t s
      → msg.corr ≢ 0
      → Dict.lookup msg.corr s.waiters ≡ some (kind, rx)
      → waiter_matches kind msg ≡ true
      → (send_finish t (push_inbound t s id msg) msg.corr rx elapsed
          ≡ some (push_inbound t s id msg, ok msg))
        × (Dict.lookup msg.corr (push_inbound t s id msg).waiters ≡ none)
  push_inbound-answers s id msg kind rx elapsed v corr there fits =
      let (w, _, _) = waiters-push_inbound t s id msg in
      (
        send_finish-value (push_inbound t s id msg) msg.corr rx elapsed msg
            (poll-push_inbound s id msg kind rx v corr there fits),
        rw w (waiters-complete_waiter s msg kind rx corr there fits),
      )

  complete_waiter-keeps :
      (s : InstanceMap t) (msg : SimToServer) (c : ℕ) (kind : WaitKind) (rx : ℕ)
      → IsWired t s
      → Dict.lookup c s.waiters ≡ some (kind, rx)
      → ((c ≢ msg.corr) ⊎ (waiter_matches kind msg ≡ false))
      → (Dict.lookup c (complete_waiter t s msg).waiters ≡ some (kind, rx))
        × (t.poll rx (complete_waiter t s msg).net ≡ pending)
  unfolding complete_waiter
  complete_waiter-keeps s msg c kind rx v there other =
      elim (Option-cases (completed (Dict.lookup msg.corr s.waiters) msg)) [
        | inl e ↦ ground (arith, v.unanswered c kind rx there)
        | inr (tx, e) ↦
            let (k, w, m) = completed-some (Dict.lookup msg.corr s.waiters) msg tx e in
            ground (
              arith,
              lookup-remove msg.corr c s.waiters,
              laws.poll-send tx rx msg s.net,
              v.unanswered c kind rx there,
              v.apart msg.corr c k kind rx,
            )
      ]

  -- In a wired state a message leaves a waiter in the table and its wait unanswered if it carries another
  -- corr or its payload is not of the kind that the waiter waits for.
  pub push_inbound-keeps :
      (s : InstanceMap t) (id : String) (msg : SimToServer) (c : ℕ) (kind : WaitKind) (rx : ℕ)
      → IsWired t s
      → Dict.lookup c s.waiters ≡ some (kind, rx)
      → ((c ≢ msg.corr) ⊎ (waiter_matches kind msg ≡ false))
      → (Dict.lookup c (push_inbound t s id msg).waiters ≡ some (kind, rx))
        × (t.poll rx (push_inbound t s id msg).net ≡ pending)
  push_inbound-keeps s id msg c kind rx v there other =
      let (w, _, n) = waiters-push_inbound t s id msg in
      let kept = complete_waiter-keeps s msg c kind rx v there other in (rw w kept.0, rw n kept.1)
