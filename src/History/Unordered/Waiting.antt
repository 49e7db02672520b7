-- ===== src/History/Unordered/Waiting.antt =====
-- The waiters of crates/csm-proxy/src/instances.rs do not depend on the order of the instances.
use crosspoint_simulator_mcp.Prelude.{
  ℕ, String, Bool, true, false, Option, none, some, List, [], ◌∷◌, ◌==◌, string_eq, nat_eq,
  Bool-cases, inl, inr, is_some,
}
use crosspoint_simulator_mcp.Prelude.Dict
use crosspoint_simulator_mcp.Messages.{SimToServer, ServerToSim}
use crosspoint_simulator_mcp.Tokio.{Tokio, Poll, pending, value, closed}
use crosspoint_simulator_mcp.State.{Instance, InstanceMap, WaitKind}
use crosspoint_simulator_mcp.Instances.{owns, get, try_send, send_to, sent}
use crosspoint_simulator_mcp.Waiters.{
  complete_waiter, completed, push_inbound, take_waiter, take_waiters, register_waiter,
  remove_instance, remove_if, fail_waiters, corrs_of, send_start, started, send_finish, awaited,
}
use crosspoint_simulator_mcp.Waiters.Wired.{answer}
use crosspoint_simulator_mcp.History.{after_finish, after_send}
use crosspoint_simulator_mcp.History.Unordered.{
  SameEntries, SameEntries-remove, with_table, SameTable, SameTable-of, respects, owns-respects,
  deliver_to-respects,
}

module _ (t : Tokio) where
  answer-respects :
      (s : InstanceMap t) (m : List (String × Instance)) (msg : SimToServer) (o : Option ℕ)
      → SameEntries s.inner m
      → SameTable t
          (elim o [ none ↦ s | some tx ↦ answer t s msg.corr tx msg ])
          (elim o [
            | none ↦ with_table t s m
            | some tx ↦ answer t (with_table t s m) msg.corr tx msg
          ])
  answer-respects s m msg none h = SameTable-of t s m h
  answer-respects s m msg (some tx) h = SameTable-of t (answer t s msg.corr tx msg) m h

  complete_waiter-respects :
      (s : InstanceMap t) (m : List (String × Instance)) (msg : SimToServer)
      → SameEntries s.inner m
      → SameTable t (complete_waiter t s msg) (complete_waiter t (with_table t s m) msg)
  unfolding complete_waiter
  complete_waiter-respects s m msg h = elim (Bool-cases (msg.corr == 0)) [
    | inl zero ↦ rw zero (SameTable-of t s m h)
    | inr corr ↦
        rw corr (answer-respects s m msg (completed (Dict.lookup msg.corr s.waiters) msg) h)
  ]

  pub push_inbound-respects :
      (s s' : InstanceMap t) (id : String) (msg : SimToServer)
      → SameTable t s s'
      → SameTable t (push_inbound t s id msg) (push_inbound t s' id msg)
  unfolding push_inbound
  push_inbound-respects s s' id msg same =
      let c = complete_waiter t s msg in
      let c' = complete_waiter t s' msg in
      let done =
        respects t (λ s. complete_waiter t s msg) s s' (λ m h. complete_waiter-respects s m msg h)
          same in
      rw (done.entries id) (deliver_to-respects t c c' id msg (Dict.lookup id c.inner) done)

  take_waiters-respects :
      (s s' : InstanceMap t) (corrs : List ℕ)
      → SameTable t s s'
      → SameTable t (take_waiters t s corrs) (take_waiters t s' corrs)
  unfolding take_waiters take_waiter
  take_waiters-respects s s' [] same = same
  take_waiters-respects s s' (corr ∷ corrs) same =
      take_waiters-respects (take_waiter t s corr) (take_waiter t s' corr) corrs (
        respects t (λ s. take_waiter t s corr) s s'
          (λ m h. SameTable-of t (take_waiter t s corr) m h) same)

  remove_instance-respects :
      (s : InstanceMap t) (m : List (String × Instance)) (id : String)
      → SameEntries s.inner m
      → SameTable t (remove_instance t s id) (remove_instance t (with_table t s m) id)
  unfolding remove_instance
  remove_instance-respects s m id h = rw (h id) (
      SameTable-of t (remove_instance t s id) (Dict.remove id m)
        (SameEntries-remove id s.inner m h))

  fail_waiters-respects :
      (s s' : InstanceMap t) (id : String)
      → SameTable t s s'
      → SameTable t (fail_waiters t s id) (fail_waiters t s' id)
  unfolding fail_waiters
  fail_waiters-respects s s' id =
      respects t (λ s. fail_waiters t s id) s s'
        λ m h.
          take_waiters-respects s (with_table t s m) (corrs_of id s.waiter_instance)
            (SameTable-of t s m h)

  pub remove_if-respects :
      (s s' : InstanceMap t) (id : String) (token : ℕ)
      → SameTable t s s'
      → SameTable t (remove_if t s id token) (remove_if t s' id token)
  unfolding remove_if
  remove_if-respects s s' id token same = elim (Bool-cases (owns t s id token)) [
    | inr stale ↦ rw (owns-respects t s s' id token same, stale) same
    | inl own ↦
        let r = remove_instance t s id in
        let r' = remove_instance t s' id in
        let gone =
          respects t (λ s. remove_instance t s id) s s' (λ m h. remove_instance-respects s m id h)
            same in
        rw (owns-respects t s s' id token same, own) (fail_waiters-respects r r' id gone)
  ]

  sent-respects :
      (s : InstanceMap t) (m : List (String × Instance)) (corr rx : ℕ) (x : Option t.Net)
      → SameEntries s.inner m
      → SameTable t
          (started t s corr rx (sent t s x)).0
          (started t (with_table t s m) corr rx (sent t (with_table t s m) x)).0
  unfolding take_waiter
  sent-respects s m corr rx none h = SameTable-of t (take_waiter t s corr) m h
  sent-respects s m corr rx (some net) h = SameTable-of t (record s { net = net }) m h

  started-respects :
      (s : InstanceMap t) (m : List (String × Instance)) (corr rx : ℕ) (msg : ServerToSim)
      (o : Option Instance)
      → SameEntries s.inner m
      → SameTable t
          (started t s corr rx (send_to t s msg o)).0
          (started t (with_table t s m) corr rx (send_to t (with_table t s m) msg o)).0
  unfolding take_waiter
  started-respects s m corr rx msg none h = SameTable-of t (take_waiter t s corr) m h
  started-respects s m corr rx msg (some inst) h =
      sent-respects s m corr rx (t.try_send inst.outbound_tx msg s.net) h

  send_start-with :
      (s : InstanceMap t) (m : List (String × Instance)) (id : String) (msg : ServerToSim)
      (kind : WaitKind)
      → SameEntries s.inner m
      → SameTable t (send_start t s id msg kind).0 (send_start t (with_table t s m) id msg kind).0
  unfolding send_start get try_send register_waiter
  send_start-with s m id msg kind h = elim (Bool-cases (is_some (get t s id))) [
    | inr absent ↦ rw (h id, absent) (SameTable-of t s m h)
    | inl there ↦
        let (s', rx) = register_waiter t s id msg.corr kind in
        rw (h id, there) (started-respects s' m msg.corr rx msg (Dict.lookup id s.inner) h)
  ]

  pub send_start-respects :
      (s s' : InstanceMap t) (id : String) (msg : ServerToSim) (kind : WaitKind)
      → SameTable t s s'
      → SameTable t (send_start t s id msg kind).0 (send_start t s' id msg kind).0
  send_start-respects s s' id msg kind =
      respects t (λ s. (send_start t s id msg kind).0) s s' λ m h. send_start-with s m id msg kind h

  awaited-respects :
      (s : InstanceMap t) (m : List (String × Instance)) (corr : ℕ) (elapsed : Bool) (p : Poll)
      → SameEntries s.inner m
      → SameTable t
          (after_finish t s (awaited t s corr elapsed p))
          (after_finish t (with_table t s m) (awaited t (with_table t s m) corr elapsed p))
  unfolding take_waiter
  awaited-respects s m corr elapsed (value reply) h = SameTable-of t s m h
  awaited-respects s m corr elapsed closed h = SameTable-of t s m h
  awaited-respects s m corr false pending h = SameTable-of t s m h
  awaited-respects s m corr true pending h = SameTable-of t (take_waiter t s corr) m h

  pub send_finish-respects :
      (s s' : InstanceMap t) (corr rx : ℕ) (elapsed : Bool)
      → SameTable t s s'
      → SameTable t
          (after_finish t s (send_finish t s corr rx elapsed))
          (after_finish t s' (send_finish t s' corr rx elapsed))
  unfolding send_finish
  send_finish-respects s s' corr rx elapsed =
      respects t (λ s. after_finish t s (send_finish t s corr rx elapsed)) s s'
        λ m h. awaited-respects s m corr elapsed (t.poll rx s.net) h

  queued-respects :
      (s : InstanceMap t) (m : List (String × Instance)) (x : Option t.Net)
      → SameEntries s.inner m
      → SameTable t
          (after_send t s (sent t s x))
          (after_send t (with_table t s m) (sent t (with_table t s m) x))
  queued-respects s m none h = SameTable-of t s m h
  queued-respects s m (some net) h = SameTable-of t (record s { net = net }) m h

  sent_to-respects :
      (s : InstanceMap t) (m : List (String × Instance)) (msg : ServerToSim) (o : Option Instance)
      → SameEntries s.inner m
      → SameTable t
          (after_send t s (send_to t s msg o))
          (after_send t (with_table t s m) (send_to t (with_table t s m) msg o))
  sent_to-respects s m msg none h = SameTable-of t s m h
  sent_to-respects s m msg (some inst) h =
      queued-respects s m (t.try_send inst.outbound_tx msg s.net) h

  pub try_send-respects :
      (s s' : InstanceMap t) (id : String) (msg : ServerToSim)
      → SameTable t s s'
      → SameTable t (after_send t s (try_send t s id msg)) (after_send t s' (try_send t s' id msg))
  unfolding try_send
  try_send-respects s s' id msg =
      respects t (λ s. after_send t s (try_send t s id msg)) s s'
        λ m h. rw (h id) (sent_to-respects s m msg (Dict.lookup id s.inner) h)
