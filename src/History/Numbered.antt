-- ===== src/History/Numbered.antt =====
-- The corrs of crates/csm-proxy/src/instances.rs as tickets: a call takes a corr first, and sends its
-- request under it in a later step.
pub mod Apart
use crosspoint_simulator_mcp.Prelude.{
  ℕ, ◌+◌, ◌≤◌, ◌<◌, ◌≡◌, refl, ◌∙◌, ◌⊎◌, ◌%◌, String, Bool, true, false, not, Option, none, some,
  List, [], ◌∷◌, ◌==◌, string_eq, nat_eq, arith, any, filter, is_some, Bool-cases, inl, inr,
  eq_of_beq, Result, ok, err,
}
use crosspoint_simulator_mcp.Prelude.Dict
use crosspoint_simulator_mcp.Prelude.Dict.{lookup-insert, lookup-remove}
use crosspoint_simulator_mcp.Messages.{ServerToSim, ServerPayload}
use crosspoint_simulator_mcp.Tokio.{Tokio}
use crosspoint_simulator_mcp.State.{InstanceMap, WaitKind, TrySendError, u64_modulus}
use crosspoint_simulator_mcp.Instances.{new, take_corr, get, try_send}
use crosspoint_simulator_mcp.Waiters.{take_waiter, register_waiter, started, send_start}
use crosspoint_simulator_mcp.History.{Action, enqueues, step}
use crosspoint_simulator_mcp.History.Thinning.{
  Thins, Thins-trans, take_waiter-Thins, try_send-Thins, try_send-Same, NoNumber, step-Thins,
}

abbrev pub holds : ℕ → List ℕ → Bool
holds c tickets = any (λ d. d == c) tickets

abbrev pub used : ℕ → List ℕ → List ℕ
used c tickets = filter (λ d. not (d == c)) tickets

-- The states that calls reach which send their requests under corrs that they took, with the tickets
-- that are not used yet. Fewer than 2^64 corrs are taken.
pub data Numbered (t : Tokio) : InstanceMap t → List ℕ → Type 0 where
  starts : (net : t.Net) → Numbered t (new t net) []
  takes :
      (s : InstanceMap t) (tickets : List ℕ)
      → s.next_corr + 1 < u64_modulus
      → Numbered t s tickets
      → Numbered t (take_corr t s).1 ((take_corr t s).0 ∷ tickets)
  waits :
      (s : InstanceMap t) (tickets : List ℕ) (id : String) (msg : ServerToSim) (kind : WaitKind)
      → holds msg.corr tickets ≡ true
      → Numbered t s tickets
      → Numbered t (send_start t s id msg kind).0 (used msg.corr tickets)
  queues :
      (s : InstanceMap t) (tickets : List ℕ) (id : String) (msg : ServerToSim)
      → holds msg.corr tickets ≡ true
      → Numbered t s tickets
      → Numbered t (step t s (enqueues id msg)) (used msg.corr tickets)
  goes_on :
      (s : InstanceMap t) (tickets : List ℕ) (a : Action)
      → NoNumber a
      → Numbered t s tickets
      → Numbered t (step t s a) tickets

-- No waiter stands under a ticket or under a corr that is still to come, and the tickets were given away.
pub record IsNumbered (t : Tokio) (s : InstanceMap t) (tickets : List ℕ) : Type 0 where
  pub positive : 0 < s.next_corr
  pub to_come : (c : ℕ) → s.next_corr ≤ c → Dict.lookup c s.waiters ≡ none
  pub given : (c : ℕ) → holds c tickets ≡ true → (0 < c) × (c < s.next_corr)
  pub free : (c : ℕ) → holds c tickets ≡ true → Dict.lookup c s.waiters ≡ none

holds-used : (c d : ℕ) (tickets : List ℕ) → holds d (used c tickets) ≡ true → holds d tickets ≡ true
holds-used c d [] h = h
holds-used c d (e ∷ tickets) h = ground (arith, holds-used c d tickets)

not_used : (c : ℕ) (tickets : List ℕ) → holds c (used c tickets) ≡ false
not_used c [] = refl
not_used c (e ∷ tickets) = ground (arith, not_used c tickets)

held_apart : (c d : ℕ) (tickets : List ℕ) → holds d (used c tickets) ≡ true → (c == d) ≡ false
held_apart c d tickets h = elim (Bool-cases (c == d)) [
  | inr other ↦ other
  | inl same ↦ absurd (ground (arith, not_used d tickets, rw (eq_of_beq c d same) at h))
]

later_apart : (c d n : ℕ) → c < n → n ≤ d → (c == d) ≡ false
later_apart c d n below above = ground arith

holds-cons :
    (d c : ℕ) (tickets : List ℕ) → holds c (d ∷ tickets) ≡ true → (d ≡ c) ⊎ (holds c tickets ≡ true)
holds-cons d c tickets h = elim (Bool-cases (d == c)) [
  | inl same ↦ inl (eq_of_beq d c same)
  | inr other ↦ inr (ground arith)
]

module _ (t : Tokio) where
  -- At most the waiter under one corr came.
  record Adds (c : ℕ) (s s' : InstanceMap t) : Type 0 where
    next_corr : s'.next_corr ≡ s.next_corr
    absent :
        (d : ℕ)
        → (c == d) ≡ false
        → Dict.lookup d s.waiters ≡ none
        → Dict.lookup d s'.waiters ≡ none

  Thins-Adds : {s s' : InstanceMap t} (c : ℕ) → Thins t s s' → Adds c s s'
  Thins-Adds c thin = record { next_corr = thin.next_corr; absent = λ d other h. thin.absent d h }

  register_waiter-Adds :
      (s : InstanceMap t) (id : String) (corr : ℕ) (kind : WaitKind)
      → Adds corr s (register_waiter t s id corr kind).0
  unfolding register_waiter
  register_waiter-Adds s id corr kind = record {
    next_corr = refl;
    absent =
        λ d other h. ground (arith, lookup-insert corr d (kind, t.created s.net) s.waiters, other);
  }

  started-Thins :
      (s : InstanceMap t) (id : String) (msg : ServerToSim) (rx : ℕ)
      (r : Result (InstanceMap t) TrySendError)
      → try_send t s id msg ≡ r
      → Thins t s (started t s msg.corr rx r).0
  started-Thins s id msg rx (ok s') e = try_send-Thins t s s' id msg e
  started-Thins s id msg rx (err TrySendError.unknown_instance) e = take_waiter-Thins t s msg.corr
  started-Thins s id msg rx (err TrySendError.queue_full) e = take_waiter-Thins t s msg.corr

  send_start-Adds :
      (s : InstanceMap t) (id : String) (msg : ServerToSim) (kind : WaitKind)
      → Adds msg.corr s (send_start t s id msg kind).0
  unfolding send_start
  send_start-Adds s id msg kind = elim (Bool-cases (is_some (get t s id))) [
    | inr e ↦ rw e (record { next_corr = refl; absent = λ d other h. h })
    | inl e ↦
        let (s', rx) = register_waiter t s id msg.corr kind in
        let first = register_waiter-Adds s id msg.corr kind in
        let then_sent = started-Thins s' id msg rx (try_send t s' id msg) refl in
        rw e (record {
          next_corr = then_sent.next_corr ∙ first.next_corr;
          absent = λ d other h. then_sent.absent d (first.absent d other h);
        })
  ]

  Adds-IsNumbered :
      {s s' : InstanceMap t} (c : ℕ) (tickets : List ℕ)
      → holds c tickets ≡ true
      → Adds c s s'
      → IsNumbered t s tickets
      → IsNumbered t s' (used c tickets)
  Adds-IsNumbered {s} {s'} c tickets held adds v = record {
    positive = rw adds.next_corr v.positive;
    to_come = λ d h.
        adds.absent d (later_apart c d s.next_corr (v.given c held).1 (rw adds.next_corr at h))
          (v.to_come d (rw adds.next_corr at h));
    given = λ d h. rw adds.next_corr (v.given d (holds-used c d tickets h));
    free = λ d h. adds.absent d (held_apart c d tickets h) (v.free d (holds-used c d tickets h));
  }

  pub IsNumbered-of :
      {s : InstanceMap t} {tickets : List ℕ} → Numbered t s tickets → IsNumbered t s tickets
  unfolding new take_corr Dict.lookup
  IsNumbered-of (starts net) = record {
    positive = omega arith;
    to_come = λ c h. refl;
    given = λ c h. cc;
    free = λ c h. cc;
  }
  IsNumbered-of (takes s tickets fits r) =
      let v = IsNumbered-of r in
      let next : (s.next_corr + 1) % u64_modulus ≡ s.next_corr + 1 = omega (arith, fits) in
      record {
        positive = omega (arith, next);
        to_come = λ c h. v.to_come c (omega (arith, next, h));
        given = λ c h. elim (holds-cons s.next_corr c tickets h) [
          | inl now ↦ omega (arith, next, now, v.positive)
          | inr before ↦ omega (arith, next, v.given c before)
        ];
        free = λ c h. elim (holds-cons s.next_corr c tickets h) [
          | inl now ↦ v.to_come c (omega (arith, now))
          | inr before ↦ v.free c before
        ];
      }
  IsNumbered-of (waits s tickets id msg kind held r) =
      Adds-IsNumbered msg.corr tickets held (send_start-Adds s id msg kind) (IsNumbered-of r)
  IsNumbered-of (queues s tickets id msg held r) =
      Adds-IsNumbered msg.corr tickets held
        (Thins-Adds msg.corr (step-Thins t s (enqueues id msg) tt)) (IsNumbered-of r)
  IsNumbered-of (goes_on s tickets a quiet r) =
      let v = IsNumbered-of r in
      let thin = step-Thins t s a quiet in
      record {
        positive = rw thin.next_corr v.positive;
        to_come = λ c h. thin.absent c (v.to_come c (rw thin.next_corr at h));
        given = λ c h. rw thin.next_corr (v.given c h);
        free = λ c h. thin.absent c (v.free c h);
      }
