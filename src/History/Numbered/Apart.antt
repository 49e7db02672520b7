-- ===== src/History/Numbered/Apart.antt =====
-- That the waiting calls of crates/csm-proxy/src/instances.rs do not get in each other's way.
use crosspoint_simulator_mcp.Prelude.{
  ℕ, ◌<◌, ◌≡◌, refl, ◌∙◌, String, true, false, some, List, ◌==◌, string_eq, nat_eq, arith, is_some,
  Bool-cases, inl, inr, eq_of_beq, Result, ok, err,
}
use crosspoint_simulator_mcp.Prelude.Dict
use crosspoint_simulator_mcp.Prelude.Dict.{lookup-insert, lookup-remove}
use crosspoint_simulator_mcp.Messages.{ServerToSim}
use crosspoint_simulator_mcp.Tokio.{Tokio}
use crosspoint_simulator_mcp.State.{InstanceMap, WaitKind, TrySendError}
use crosspoint_simulator_mcp.Instances.{get, try_send}
use crosspoint_simulator_mcp.Waiters.{take_waiter, register_waiter, started, send_start}
use crosspoint_simulator_mcp.History.Thinning.{try_send-Same}
use crosspoint_simulator_mcp.History.Numbered.{holds, Numbered, IsNumbered-of}

module _ (t : Tokio) where
  started-kept :
      (s : InstanceMap t) (id : String) (msg : ServerToSim) (rx : ℕ)
      (r : Result (InstanceMap t) TrySendError) (c : ℕ)
      → try_send t s id msg ≡ r
      → (msg.corr == c) ≡ false
      → Dict.lookup c (started t s msg.corr rx r).0.waiters ≡ Dict.lookup c s.waiters
  unfolding take_waiter
  started-kept s id msg rx (ok s') c e other = rw (try_send-Same t s s' id msg e).0 refl
  started-kept s id msg rx (err TrySendError.unknown_instance) c e other =
      ground (arith, lookup-remove msg.corr c s.waiters, other)
  started-kept s id msg rx (err TrySendError.queue_full) c e other =
      ground (arith, lookup-remove msg.corr c s.waiters, other)

  send_start-kept :
      (s : InstanceMap t) (id : String) (msg : ServerToSim) (kind : WaitKind) (c : ℕ)
      → (msg.corr == c) ≡ false
      → Dict.lookup c (send_start t s id msg kind).0.waiters ≡ Dict.lookup c s.waiters
  unfolding send_start register_waiter
  send_start-kept s id msg kind c other = elim (Bool-cases (is_some (get t s id))) [
    | inr e ↦ rw e refl
    | inl e ↦
        let (s', rx) = register_waiter t s id msg.corr kind in
        rw e (
          started-kept s' id msg rx (try_send t s' id msg) c refl other
          ∙ ground (arith, lookup-insert msg.corr c (kind, t.created s.net) s.waiters, other))
  ]

  -- Where calls send their requests under corrs that they took, each once, in any order and in between
  -- any other steps, and fewer than 2^64 corrs are taken, a call that starts to wait has a corr that is
  -- not 0, and every waiter that stands in the table before it stands there still: no call ever takes
  -- the place of another.
  pub send_start-apart :
      (s : InstanceMap t) (tickets : List ℕ) (id : String) (msg : ServerToSim) (kind : WaitKind)
      (c : ℕ) (waiter : WaitKind × ℕ)
      → Numbered t s tickets
      → holds msg.corr tickets ≡ true
      → Dict.lookup c s.waiters ≡ some waiter
      → (0 < msg.corr) × (Dict.lookup c (send_start t s id msg kind).0.waiters ≡ some waiter)
  send_start-apart s tickets id msg kind c waiter r held there =
      let v = IsNumbered-of t r in
      ((v.given msg.corr held).0, send_start-kept s id msg kind c apart ∙ there)
    where
      apart : (msg.corr == c) ≡ false
      apart = elim (Bool-cases (msg.corr == c)) [
        | inr other ↦ other
        | inl same ↦
            let nothing = (IsNumbered-of t r).free msg.corr held in
            absurd (ground (arith, rw (eq_of_beq msg.corr c same) at nothing, there))
      ]
