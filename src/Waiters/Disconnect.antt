-- ===== src/Waiters/Disconnect.antt =====
-- What `remove_if` of crates/csm-proxy/src/instances.rs does to those who wait.
use crosspoint_simulator_mcp.Prelude.{
  ℕ, ◌≡◌, refl, ◌∙◌, ap, String, Bool, true, false, Option, none, some, List, [], ◌∷◌, ◌==◌,
  string_eq, nat_eq, if◌then◌else◌, err, arith, Option-cases, Bool-cases, inl, inr, nat_beq_iff,
  any,
}
use crosspoint_simulator_mcp.Prelude.Dict
use crosspoint_simulator_mcp.Prelude.Dict.{lookup-remove, lookup-insert}
use crosspoint_simulator_mcp.Tokio.{Tokio, TokioLaws, pending, closed}
use crosspoint_simulator_mcp.State.{InstanceMap, WaitKind, WaitError}
use crosspoint_simulator_mcp.Instances.{owns}
use crosspoint_simulator_mcp.Waiters.{
  take_waiter, take_waiters, corrs_of, fail_waiters, remove_instance, remove_if, send_finish,
}
use crosspoint_simulator_mcp.Waiters.Wired.{
  IsWired, take_waiter-IsWired, take_waiters-IsWired, created-drop_instance, poll-drop_instance,
}

abbrev pub mem : ℕ → List ℕ → Bool
mem c cs = any (λ d. d == c) cs

abbrev pub names : Option String → String → Bool
names none id = false
names (some i) id = i == id

-- The corrs of an instance are those that the table gives it.
pub mem-corrs_of :
    (id : String) (c : ℕ) (m : List (ℕ × String))
    → Dict.Unique m
    → mem c (corrs_of id m) ≡ names (Dict.lookup c m) id
unfolding corrs_of Dict.lookup
mem-corrs_of id c [] u = refl
mem-corrs_of id c ((d, i) ∷ m) u = ground (arith, mem-corrs_of id c m u.1, u.0, nat_beq_iff d c)

module _ (t : Tokio) (laws : TokioLaws t) where
  poll-take_waiter_closed :
      (s : InstanceMap t) (c rx : ℕ)
      → t.poll rx s.net ≡ closed
      → t.poll rx (take_waiter t s c).net ≡ closed
  unfolding take_waiter
  poll-take_waiter_closed s c rx e = elim (Option-cases (Dict.lookup c s.waiters)) [
    | inl w ↦ rw w e
    | inr ((k, tx), w) ↦ rw w (ground (arith, laws.poll-drop tx rx s.net))
  ]

  poll-take_waiters_closed :
      (s : InstanceMap t) (cs : List ℕ) (rx : ℕ)
      → t.poll rx s.net ≡ closed
      → t.poll rx (take_waiters t s cs).net ≡ closed
  unfolding take_waiters
  poll-take_waiters_closed s [] rx e = e
  poll-take_waiters_closed s (c ∷ cs) rx e =
      poll-take_waiters_closed (take_waiter t s c) cs rx (poll-take_waiter_closed s c rx e)

  -- To take a waiter closes its own channel, and keeps every other waiter.
  poll-take_waiter :
      (s : InstanceMap t) (c d : ℕ) (kind : WaitKind) (rx : ℕ)
      → IsWired t s
      → Dict.lookup c s.waiters ≡ some (kind, rx)
      → (t.poll rx (take_waiter t s d).net ≡ (if d == c then closed else pending))
        × (Dict.lookup c (take_waiter t s d).waiters ≡ (if d == c then none else some (kind, rx)))
  unfolding take_waiter
  poll-take_waiter s c d kind rx v there = elim (Option-cases (Dict.lookup d s.waiters)) [
    | inl w ↦ ground (arith, lookup-remove d c s.waiters, v.unanswered c kind rx there)
    | inr ((k, tx), w) ↦ ground (
      arith,
      lookup-remove d c s.waiters,
      laws.poll-drop tx rx s.net,
      v.unanswered c kind rx there,
      v.apart d c k kind rx,
    )
  ]

  poll-take_waiters :
      (s : InstanceMap t) (cs : List ℕ) (c : ℕ) (kind : WaitKind) (rx : ℕ)
      → IsWired t s
      → Dict.lookup c s.waiters ≡ some (kind, rx)
      → t.poll rx (take_waiters t s cs).net ≡ (if mem c cs then closed else pending)
  unfolding take_waiters
  poll-take_waiters s [] c kind rx v there = v.unanswered c kind rx there
  poll-take_waiters s (d ∷ cs) c kind rx v there =
      let (p, w) = poll-take_waiter s c d kind rx v there in
      ground (
        arith,
        p,
        w,
        poll-take_waiters_closed (take_waiter t s d) cs rx,
        poll-take_waiters (take_waiter t s d) cs c kind rx (take_waiter-IsWired t laws s d v),
      )

  -- The instance leaves the table, and nothing changes for the waiters yet.
  pub remove_instance-IsWired :
      (s : InstanceMap t) (id : String) → IsWired t s → IsWired t (remove_instance t s id)
  unfolding remove_instance
  remove_instance-IsWired s id v = record {
    agree = v.agree;
    made = λ c k tx e.
        rw (created-drop_instance t laws (Dict.lookup id s.inner) s.net) (v.made c k tx e);
    unanswered = λ c k tx e.
        rw (poll-drop_instance t laws (Dict.lookup id s.inner) tx s.net) (v.unanswered c k tx e);
    apart = v.apart;
    unique = v.unique;
  }

  pub remove_if-IsWired :
      (s : InstanceMap t) (id : String) (token : ℕ)
      → IsWired t s
      → IsWired t (remove_if t s id token)
  unfolding remove_if fail_waiters
  remove_if-IsWired s id token v = elim (Bool-cases (owns t s id token)) [
    | inl e ↦
        rw e
          (take_waiters-IsWired t laws (remove_instance t s id) _ (remove_instance-IsWired s id v))
    | inr e ↦ rw e v
  ]

  poll-remove_if :
      (s : InstanceMap t) (id : String) (token c : ℕ) (kind : WaitKind) (rx : ℕ) (waiting : String)
      → IsWired t s
      → owns t s id token ≡ true
      → Dict.lookup c s.waiters ≡ some (kind, rx)
      → Dict.lookup c s.waiter_instance ≡ some waiting
      → t.poll rx (remove_if t s id token).net ≡ (if waiting == id then closed else pending)
  unfolding remove_if fail_waiters
  poll-remove_if s id token c kind rx waiting v owner there whose = rw owner (
      poll-take_waiters (remove_instance t s id)
        (corrs_of id (remove_instance t s id).waiter_instance) c kind rx
        (remove_instance-IsWired s id v) (unfold remove_instance in there)
      ∙ ap (λ b. if b then closed else pending)
          (unfold remove_instance in
            (mem-corrs_of id c s.waiter_instance v.unique ∙ ap (λ o. names o id) whose)))

  -- In a wired state, when the session that owns an id ends, every wait for a reply of that instance
  -- ends with `disconnected`, before and after its timeout. Every wait for another instance goes on
  -- until its timeout.
  pub remove_if-disconnects :
      (s : InstanceMap t) (id : String) (token c : ℕ) (kind : WaitKind) (rx : ℕ) (waiting : String)
      → IsWired t s
      → owns t s id token ≡ true
      → Dict.lookup c s.waiters ≡ some (kind, rx)
      → Dict.lookup c s.waiter_instance ≡ some waiting
      → let s' = remove_if t s id token in
        (send_finish t s' c rx false
          ≡ (if waiting == id then some (s', err WaitError.disconnected) else none))
        × (send_finish t s' c rx true ≡ (
            if waiting == id
            then some (s', err WaitError.disconnected)
            else some (take_waiter t s' c, err WaitError.timeout)))
  unfolding send_finish
  remove_if-disconnects s id token c kind rx waiting v owner there whose =
      let p = poll-remove_if s id token c kind rx waiting v owner there whose in
      rw p (elim (Bool-cases (waiting == id)) [
        | inl same ↦ rw same (refl, refl)
        | inr other ↦ rw other (refl, refl)
      ])
