-- ===== src/Waiters/Wired.antt =====
-- The invariant of the waiter tables, kept by the operations that write them.
use crosspoint_simulator_mcp.Prelude.{
  ℕ, ◌<◌, ◌≡◌, ◌≢◌, refl, ap, ◌∙◌, String, true, Option, none, some, List, [], ◌∷◌, ◌==◌, string_eq,
  nat_eq, is_some, arith, Option-cases, Bool-cases, inl, inr, eq_of_beq,
}
use crosspoint_simulator_mcp.Prelude.Dict
use crosspoint_simulator_mcp.Prelude.Dict.{
  dict_laws, lookup-remove, lookup-insert, remove-Unique, insert-Unique,
}
use crosspoint_simulator_mcp.Messages.{SimToServer}
use crosspoint_simulator_mcp.Tokio.{Tokio, TokioLaws, pending}
use crosspoint_simulator_mcp.State.{Instance, InstanceMap, WaitKind}
use crosspoint_simulator_mcp.Instances.{drop_instance}
use crosspoint_simulator_mcp.Waiters.{
  register_waiter, take_waiter, waiter_matches, complete_waiter, completed, take_waiters,
  drop_waiter,
}

-- The two tables name the same corrs. Each sender in the table is the one sender of an open channel.
pub record IsWired (t : Tokio) (s : InstanceMap t) : Type 0 where
  pub agree :
      (c : ℕ) → is_some (Dict.lookup c s.waiters) ≡ is_some (Dict.lookup c s.waiter_instance)
  pub made :
      (c : ℕ) (kind : WaitKind) (tx : ℕ)
      → Dict.lookup c s.waiters ≡ some (kind, tx)
      → tx < t.created s.net
  pub unanswered :
      (c : ℕ) (kind : WaitKind) (tx : ℕ)
      → Dict.lookup c s.waiters ≡ some (kind, tx)
      → t.poll tx s.net ≡ pending
  pub apart :
      (c d : ℕ) (j k : WaitKind) (tx : ℕ)
      → Dict.lookup c s.waiters ≡ some (j, tx)
      → Dict.lookup d s.waiters ≡ some (k, tx)
      → c ≡ d
  pub unique : Dict.Unique s.waiter_instance

-- A completed waiter was in the table, and the message is of the kind that it waits for.
pub completed-some :
    (w : Option (WaitKind × ℕ)) (msg : SimToServer) (tx : ℕ)
    → completed w msg ≡ some tx
    → (kind : WaitKind) × (w ≡ some (kind, tx)) × (waiter_matches kind msg ≡ true)
completed-some none msg tx e = cc
completed-some (some (kind, tx')) msg tx e = (kind, ground arith, ground arith)

module _ (t : Tokio) where
  -- The waiter of `corr` is answered and leaves both tables.
  abbrev pub answer : InstanceMap t → ℕ → ℕ → SimToServer → InstanceMap t
  answer s corr tx msg = record s {
    waiters = Dict.remove corr s.waiters;
    waiter_instance = Dict.remove corr s.waiter_instance;
    net = t.oneshot_send tx msg s.net;
  }

module _ (t : Tokio) (laws : TokioLaws t) where
  pub created-drop_waiter :
      (w : Option (WaitKind × ℕ)) (n : t.Net) → t.created (drop_waiter t w n) ≡ t.created n
  created-drop_waiter none n = refl
  created-drop_waiter (some (k, tx)) n = laws.created-drop tx n

  pub created-drop_instance :
      (i : Option Instance) (n : t.Net) → t.created (drop_instance t i n) ≡ t.created n
  created-drop_instance none n = refl
  created-drop_instance (some i) n = laws.created-drop_sender i.outbound_tx n

  pub poll-drop_instance :
      (i : Option Instance) (rx : ℕ) (n : t.Net) → t.poll rx (drop_instance t i n) ≡ t.poll rx n
  poll-drop_instance none rx n = refl
  poll-drop_instance (some i) rx n = laws.poll-drop_sender i.outbound_tx rx n

  -- The drop of another sender leaves what a receiver sees.
  poll-drop_waiter :
      (w : Option (WaitKind × ℕ)) (n : t.Net) (tx : ℕ)
      → ((k : WaitKind) → w ≢ some (k, tx))
      → t.poll tx (drop_waiter t w n) ≡ t.poll tx n
  poll-drop_waiter none n tx other = refl
  poll-drop_waiter (some (k, tx')) n tx other = elim (Bool-cases (tx' == tx)) [
    | inl e ↦ absurd (other k (ap (λ (c : ℕ). some (k, c)) (eq_of_beq tx' tx e)))
    | inr e ↦ ground (arith, laws.poll-drop tx' tx n)
  ]

  pub take_waiter-IsWired :
      (s : InstanceMap t) (corr : ℕ) → IsWired t s → IsWired t (take_waiter t s corr)
  unfolding take_waiter
  take_waiter-IsWired s corr v = record {
    agree = λ c. simp dict_laws (ground (arith, v.agree c));
    made = λ c kind tx e.
        rw (created-drop_waiter (Dict.lookup corr s.waiters) s.net)
          (v.made c kind tx (ground (arith, lookup-remove corr c s.waiters, e)));
    unanswered = λ c kind tx e.
        poll-drop_waiter (Dict.lookup corr s.waiters) s.net tx
          (λ k f. ground (arith, lookup-remove corr c s.waiters, v.apart corr c k kind tx))
        ∙ v.unanswered c kind tx (ground (arith, lookup-remove corr c s.waiters));
    apart = λ c d j k tx e f.
        v.apart c d j k tx (ground (arith, lookup-remove corr c s.waiters))
          (ground (arith, lookup-remove corr d s.waiters));
    unique = remove-Unique corr s.waiter_instance v.unique;
  }

  pub register_waiter-IsWired :
      (s : InstanceMap t) (id : String) (corr : ℕ) (kind : WaitKind)
      → IsWired t s
      → IsWired t (register_waiter t s id corr kind).0
  unfolding register_waiter
  register_waiter-IsWired s id corr kind v = record {
    agree = λ c. simp dict_laws (ground (arith, v.agree c));
    made = λ c j tx e. ground (
      arith,
      lookup-insert corr c (kind, t.created s.net) s.waiters,
      created-drop_waiter (Dict.lookup corr s.waiters) (t.oneshot_channel s.net),
      laws.created-channel s.net,
      v.made c j tx,
    );
    unanswered = λ c j tx e. elim (Bool-cases (corr == c)) [
      | inl same ↦
          let new : t.created s.net ≡ tx =
            ground (arith, lookup-insert corr c (kind, t.created s.net) s.waiters) in
          poll-drop_waiter (Dict.lookup corr s.waiters) (t.oneshot_channel s.net) tx
            (λ k f. absurd (ground (arith, v.made corr k tx f)))
          ∙ ground (arith, laws.poll-channel tx s.net)
      | inr other ↦
          let old : Dict.lookup c s.waiters ≡ some (j, tx) =
            ground (arith, lookup-insert corr c (kind, t.created s.net) s.waiters) in
          poll-drop_waiter (Dict.lookup corr s.waiters) (t.oneshot_channel s.net) tx
            (λ k f. ground (arith, v.apart corr c k j tx f old))
          ∙ ground (arith, laws.poll-channel tx s.net, v.made c j tx old, v.unanswered c j tx old)
    ];
    apart = λ c d j k tx e f. ground (
      arith,
      lookup-insert corr c (kind, t.created s.net) s.waiters,
      lookup-insert corr d (kind, t.created s.net) s.waiters,
      v.made c j tx,
      v.made d k tx,
      v.apart c d j k tx,
    );
    unique = insert-Unique corr id s.waiter_instance v.unique;
  }

  answer-IsWired :
      (s : InstanceMap t) (corr : ℕ) (kind : WaitKind) (tx : ℕ) (msg : SimToServer)
      → Dict.lookup corr s.waiters ≡ some (kind, tx)
      → IsWired t s
      → IsWired t (answer t s corr tx msg)
  answer-IsWired s corr kind tx msg there v = record {
    agree = λ c. simp dict_laws (ground (arith, v.agree c));
    made = λ c k tx' e.
        ground
          (arith, laws.created-send tx msg s.net, lookup-remove corr c s.waiters, v.made c k tx');
    unanswered = λ c k tx' e. ground (
      arith,
      laws.poll-send tx tx' msg s.net,
      lookup-remove corr c s.waiters,
      v.unanswered c k tx',
      v.apart corr c kind k tx there,
    );
    apart = λ c d j k tx' e f.
        v.apart c d j k tx' (ground (arith, lookup-remove corr c s.waiters))
          (ground (arith, lookup-remove corr d s.waiters));
    unique = remove-Unique corr s.waiter_instance v.unique;
  }

  pub complete_waiter-IsWired :
      (s : InstanceMap t) (msg : SimToServer) → IsWired t s → IsWired t (complete_waiter t s msg)
  unfolding complete_waiter
  complete_waiter-IsWired s msg v = elim (Bool-cases (msg.corr == 0)) [
    | inl zero_corr ↦ rw zero_corr v
    | inr corr ↦ elim (Option-cases (completed (Dict.lookup msg.corr s.waiters) msg)) [
      | inl none_completed ↦ rw (corr, none_completed) v
      | inr (tx, e) ↦
          let (kind, there, _) = completed-some (Dict.lookup msg.corr s.waiters) msg tx e in
          rw (corr, e) (answer-IsWired s msg.corr kind tx msg there v)
    ]
  ]

  pub take_waiters-IsWired :
      (s : InstanceMap t) (corrs : List ℕ) → IsWired t s → IsWired t (take_waiters t s corrs)
  unfolding take_waiters
  take_waiters-IsWired s [] v = v
  take_waiters-IsWired s (c ∷ cs) v =
      take_waiters-IsWired (take_waiter t s c) cs (take_waiter-IsWired s c v)
