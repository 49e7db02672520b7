-- ===== src/Waiters/Progress.antt =====
-- How the waiters of crates/csm-proxy/src/instances.rs move on: an answer stays, and a waiter leaves the
-- table only with its wait answered.
use crosspoint_simulator_mcp.Prelude.{
  ℕ, ◌≤◌, ◌<◌, ◌≡◌, ◌≢◌, ◌⊎◌, refl, sym, ◌∙◌, ap, String, Option, none, some, List, [], ◌∷◌, ◌==◌,
  string_eq, nat_eq, arith, Option-cases, Bool-cases, eq_of_beq, inl, inr,
}
use crosspoint_simulator_mcp.Prelude.Dict
use crosspoint_simulator_mcp.Prelude.Dict.{lookup-insert, lookup-remove}
use crosspoint_simulator_mcp.Messages.{SimToServer}
use crosspoint_simulator_mcp.Tokio.{Tokio, TokioLaws, Poll, pending, value, closed, settle}
use crosspoint_simulator_mcp.State.{InstanceMap, WaitKind}
use crosspoint_simulator_mcp.Instances.{owns}
use crosspoint_simulator_mcp.Waiters.{
  take_waiter, take_waiters, register_waiter, complete_waiter, completed, drop_waiter,
  remove_instance, remove_if, fail_waiters,
}
use crosspoint_simulator_mcp.Waiters.Wired.{
  IsWired, answer, completed-some, take_waiter-IsWired, created-drop_waiter, created-drop_instance,
  poll-drop_instance,
}
use crosspoint_simulator_mcp.Waiters.Frame.{Frame, Frame-refl}
use crosspoint_simulator_mcp.Waiters.Disconnect.{remove_instance-IsWired}

-- In `s'` the waiter is in the table as before, for the same instance.
abbrev pub Held : (t : Tokio) (s s' : InstanceMap t) → ℕ → WaitKind → ℕ → Type 0
Held t s s' c kind rx =
    (Dict.lookup c s'.waiters ≡ some (kind, rx))
    × (Dict.lookup c s'.waiter_instance ≡ Dict.lookup c s.waiter_instance)

pub record Progress (t : Tokio) (s s' : InstanceMap t) : Type 0 where
  pub grows : t.created s.net ≤ t.created s'.net
  pub settled :
      (rx : ℕ)
      → rx < t.created s.net
      → t.poll rx s.net ≢ pending
      → t.poll rx s'.net ≡ t.poll rx s.net
  pub keeps :
      (c : ℕ) (kind : WaitKind) (rx : ℕ)
      → Dict.lookup c s.waiters ≡ some (kind, rx)
      → Held t s s' c kind rx ⊎ (t.poll rx s'.net ≢ pending)

module _ (t : Tokio) where
  pub Frame-Progress : {s s' : InstanceMap t} → Frame t s s' → Progress t s s'
  Frame-Progress f = record {
    grows = omega (arith, f.created);
    settled = λ rx _ _. f.poll rx;
    keeps = λ c kind rx e. inl (rw f.waiters e, ap (Dict.lookup c) f.waiter_instance);
  }

  pub Progress-trans :
      {s s' s'' : InstanceMap t}
      → IsWired t s
      → Progress t s s'
      → Progress t s' s''
      → Progress t s s''
  Progress-trans {s} {s'} {s''} v p q = record {
    grows = omega (arith, p.grows, q.grows);
    settled = λ rx old done.
        let same = p.settled rx old done in
        q.settled rx (omega (arith, p.grows)) (λ e. done (sym same ∙ e)) ∙ same;
    keeps = λ c kind rx e. after c kind rx (v.made c kind rx e) (p.keeps c kind rx e);
  }
    where
      further :
          (c : ℕ) (kind : WaitKind) (rx : ℕ)
          → Dict.lookup c s'.waiter_instance ≡ Dict.lookup c s.waiter_instance
          → Held t s' s'' c kind rx ⊎ (t.poll rx s''.net ≢ pending)
          → Held t s s'' c kind rx ⊎ (t.poll rx s''.net ≢ pending)
      further c kind rx same (inl h) = inl (h.0, h.1 ∙ same)
      further c kind rx same (inr done) = inr done

      after :
          (c : ℕ) (kind : WaitKind) (rx : ℕ)
          → rx < t.created s.net
          → Held t s s' c kind rx ⊎ (t.poll rx s'.net ≢ pending)
          → Held t s s'' c kind rx ⊎ (t.poll rx s''.net ≢ pending)
      after c kind rx old (inl e) = further c kind rx e.1 (q.keeps c kind rx e.0)
      after c kind rx old (inr done) =
          inr (λ e. done (sym (q.settled rx (omega (arith, p.grows)) done) ∙ e))

-- A settled channel is not settled again.
settle_done : (p q : Poll) → p ≢ pending → settle p q ≡ p
settle_done pending q done = absurd (done refl)
settle_done (value m) q done = refl
settle_done closed q done = refl

settle_now : (p q : Poll) → q ≢ pending → settle p q ≢ pending
settle_now pending q done = done
settle_now (value m) q done = λ e. cc
settle_now closed q done = λ e. cc

module _ (t : Tokio) (laws : TokioLaws t) where
  settled-drop_waiter :
      (w : Option (WaitKind × ℕ)) (n : t.Net) (rx : ℕ)
      → t.poll rx n ≢ pending
      → t.poll rx (drop_waiter t w n) ≡ t.poll rx n
  settled-drop_waiter none n rx done = refl
  settled-drop_waiter (some (k, tx)) n rx done =
      ground (arith, laws.poll-drop tx rx n, settle_done (t.poll rx n) closed done)

  dropped :
      (kind : WaitKind) (n : t.Net) (rx : ℕ)
      → t.poll rx (drop_waiter t (some (kind, rx)) n) ≢ pending
  dropped kind n rx e =
      ground (arith, laws.poll-drop rx rx n, settle_now (t.poll rx n) closed (λ f. cc))

  pub take_waiter-Progress : (s : InstanceMap t) (d : ℕ) → Progress t s (take_waiter t s d)
  unfolding take_waiter
  take_waiter-Progress s d = record {
    grows = omega (arith, created-drop_waiter t laws (Dict.lookup d s.waiters) s.net);
    settled = λ rx old done. settled-drop_waiter (Dict.lookup d s.waiters) s.net rx done;
    keeps = λ c kind rx e. elim (Bool-cases (d == c)) [
      | inl same ↦ inr (rw (eq_of_beq d c same, e) (dropped kind s.net rx))
      | inr other ↦ inl (
        ground (arith, lookup-remove d c s.waiters),
        ground (arith, lookup-remove d c s.waiter_instance),
      )
    ];
  }

  answer-Progress :
      (s : InstanceMap t) (corr : ℕ) (k : WaitKind) (tx : ℕ) (msg : SimToServer)
      → Dict.lookup corr s.waiters ≡ some (k, tx)
      → Progress t s (answer t s corr tx msg)
  answer-Progress s corr k tx msg there = record {
    grows = omega (arith, laws.created-send tx msg s.net);
    settled = λ rx old done.
        ground
          (arith, laws.poll-send tx rx msg s.net, settle_done (t.poll rx s.net) (value msg) done);
    keeps = λ c kind rx e. elim (Bool-cases (corr == c)) [
      | inl same ↦ inr (λ f. ground (
        arith,
        there,
        laws.poll-send tx rx msg s.net,
        settle_now (t.poll rx s.net) (value msg) (λ g. cc),
      ))
      | inr other ↦ inl (
        ground (arith, lookup-remove corr c s.waiters),
        ground (arith, lookup-remove corr c s.waiter_instance),
      )
    ];
  }

  pub register_waiter-Progress :
      (s : InstanceMap t) (id : String) (corr : ℕ) (k : WaitKind)
      → IsWired t s
      → Progress t s (register_waiter t s id corr k).0
  unfolding register_waiter
  register_waiter-Progress s id corr k v = record {
    grows = omega (
      arith,
      created-drop_waiter t laws (Dict.lookup corr s.waiters) (t.oneshot_channel s.net),
      laws.created-channel s.net,
    );
    settled = λ rx old done.
        let same : t.poll rx (t.oneshot_channel s.net) ≡ t.poll rx s.net =
          ground (arith, laws.poll-channel rx s.net) in
        settled-drop_waiter (Dict.lookup corr s.waiters) (t.oneshot_channel s.net) rx
          (λ e. done (sym same ∙ e))
        ∙ same;
    keeps = λ c kind rx e. elim (Bool-cases (corr == c)) [
      | inl same ↦ inr (rw (eq_of_beq corr c same, e) (dropped kind (t.oneshot_channel s.net) rx))
      | inr other ↦ inl (
        ground (arith, lookup-insert corr c (k, t.created s.net) s.waiters),
        ground (arith, lookup-insert corr c id s.waiter_instance),
      )
    ];
  }

  pub complete_waiter-Progress :
      (s : InstanceMap t) (msg : SimToServer) → Progress t s (complete_waiter t s msg)
  unfolding complete_waiter
  complete_waiter-Progress s msg = elim (Bool-cases (msg.corr == 0)) [
    | inl zero_corr ↦ rw zero_corr (Frame-Progress t (Frame-refl t s))
    | inr corr ↦ elim (Option-cases (completed (Dict.lookup msg.corr s.waiters) msg)) [
      | inl none_completed ↦ rw (corr, none_completed) (Frame-Progress t (Frame-refl t s))
      | inr (tx, e) ↦
          let (kind, there, _) = completed-some (Dict.lookup msg.corr s.waiters) msg tx e in
          rw (corr, e) (answer-Progress s msg.corr kind tx msg there)
    ]
  ]

  pub take_waiters-Progress :
      (s : InstanceMap t) (cs : List ℕ) → IsWired t s → Progress t s (take_waiters t s cs)
  unfolding take_waiters
  take_waiters-Progress s [] v = Frame-Progress t (Frame-refl t s)
  take_waiters-Progress s (c ∷ cs) v =
      Progress-trans t v (take_waiter-Progress s c)
        (take_waiters-Progress (take_waiter t s c) cs (take_waiter-IsWired t laws s c v))

  remove_instance-Progress :
      (s : InstanceMap t) (id : String) → Progress t s (remove_instance t s id)
  unfolding remove_instance
  remove_instance-Progress s id = record {
    grows = omega (arith, created-drop_instance t laws (Dict.lookup id s.inner) s.net);
    settled = λ rx _ _. poll-drop_instance t laws (Dict.lookup id s.inner) rx s.net;
    keeps = λ c kind rx e. inl (e, refl);
  }

  pub remove_if-Progress :
      (s : InstanceMap t) (id : String) (token : ℕ)
      → IsWired t s
      → Progress t s (remove_if t s id token)
  unfolding remove_if fail_waiters
  remove_if-Progress s id token v = elim (Bool-cases (owns t s id token)) [
    | inr e ↦ rw e (Frame-Progress t (Frame-refl t s))
    | inl e ↦ rw e (
        Progress-trans t v (remove_instance-Progress s id) (
          take_waiters-Progress (remove_instance t s id) _ (remove_instance-IsWired t laws s id v)))
  ]
