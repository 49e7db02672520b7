-- ===== src/History/Insertion.antt =====
-- The registration of an instance of crates/csm-proxy/src/instances.rs: what stands in the table, and
-- that an insertion keeps it so.
use crosspoint_simulator_mcp.Prelude.{
  ℕ, suc, ◌+◌, ◌%◌, ◌≤◌, ◌<◌, ◌≡◌, ◌≢◌, ◌⊎◌, refl, sym, ◌∙◌, ap, String, true, some, ◌==◌,
  string_eq, nat_eq, arith, Bool-cases, inl, inr, eq_of_beq,
}
use crosspoint_simulator_mcp.Prelude.Dict
use crosspoint_simulator_mcp.Prelude.Dict.{lookup-insert}
use crosspoint_simulator_mcp.Messages.{Register}
use crosspoint_simulator_mcp.Queue.Bounds.{IsBounded, new_queue-IsBounded}
use crosspoint_simulator_mcp.Tokio.{Tokio}
use crosspoint_simulator_mcp.State.{
  Instance, InstanceMap, is_valid_instance_id, queue_capacity, u64_modulus,
}
use crosspoint_simulator_mcp.Instances.{new, new_instance, insert}

-- An entry stands under its own valid id, its token has been given out, and its queue is within its
-- capacity.
pub record IsEntry (next_token : ℕ) (id : String) (inst : Instance) : Type 0 where
  pub named : inst.register.instance_id ≡ id
  pub valid : is_valid_instance_id id ≡ true
  pub issued : inst.token < next_token
  pub capacity : inst.inbound.cap ≡ queue_capacity
  pub bounded : IsBounded inst.inbound

pub record IsRegistry (t : Tokio) (s : InstanceMap t) : Type 0 where
  pub entry :
      (id : String) (inst : Instance)
      → Dict.lookup id s.inner ≡ some inst
      → IsEntry s.next_token id inst
  pub distinct :
      (a b : String) (i j : Instance)
      → Dict.lookup a s.inner ≡ some i
      → Dict.lookup b s.inner ≡ some j
      → i.token ≡ j.token
      → a ≡ b
  pub default_valid : (id : String) → s.default_instance ≡ some id → is_valid_instance_id id ≡ true

module _ (t : Tokio) where
  IsEntry-later : {m n : ℕ} {id : String} {i : Instance} → m ≤ n → IsEntry m id i → IsEntry n id i
  IsEntry-later le e = record {
    named = e.named;
    valid = e.valid;
    issued = omega (arith, e.issued);
    capacity = e.capacity;
    bounded = e.bounded;
  }

  new_instance-IsEntry :
      (token : ℕ) (register : Register) (tx : ℕ)
      → is_valid_instance_id register.instance_id ≡ true
      → IsEntry (suc token) register.instance_id (new_instance token register queue_capacity tx)
  unfolding new_instance
  new_instance-IsEntry token register tx valid = record {
    named = refl;
    valid = valid;
    issued = omega arith;
    capacity = refl;
    bounded = new_queue-IsBounded queue_capacity (omega arith);
  }

  token-new_instance :
      (token : ℕ) (register : Register) (tx : ℕ)
      → (new_instance token register queue_capacity tx).token ≡ token
  unfolding new_instance
  token-new_instance token register tx = refl

  module _ (s : InstanceMap t) (register : Register) (tx : ℕ) where
    abbrev added : Instance
    added = new_instance s.next_token register queue_capacity tx

    -- An entry after the insertion is the new one, or was there before under another id.
    inserted :
        (id : String) (inst : Instance)
        → Dict.lookup id (Dict.insert register.instance_id added s.inner) ≡ some inst
        → ((register.instance_id ≡ id) × (added ≡ inst))
          ⊎ ((register.instance_id ≢ id) × (Dict.lookup id s.inner ≡ some inst))
    inserted id inst e = elim (Bool-cases (register.instance_id == id)) [
      | inl hit ↦ inl (
        eq_of_beq register.instance_id id hit,
        ground (arith, lookup-insert register.instance_id id added s.inner),
      )
      | inr miss ↦ inr (
        λ same. ground (arith, string_eq.eqb_iff register.instance_id id),
        ground (arith, lookup-insert register.instance_id id added s.inner),
      )
    ]

    pub insert-IsRegistry :
        is_valid_instance_id register.instance_id ≡ true
        → s.next_token + 1 < u64_modulus
        → IsRegistry t s
        → IsRegistry t (insert t s register queue_capacity tx).0
    unfolding insert
    insert-IsRegistry valid fits v = record {
      entry = λ id inst e. elim (inserted id inst e) [
        | inl (named, same) ↦
            rw (next, ← same, ← named) (new_instance-IsEntry s.next_token register tx valid)
        | inr (_, there) ↦ IsEntry-later (omega (arith, next)) (v.entry id inst there)
      ];
      distinct = λ a b i j e f h. apart a b i j (inserted a i e) (inserted b j f) h;
      default_valid = v.default_valid;
    }
      where
        next : (s.next_token + 1) % u64_modulus ≡ suc s.next_token
        next = omega (arith, fits)

        older :
            (b : String) (j : Instance) → Dict.lookup b s.inner ≡ some j → j.token < s.next_token
        older b j f = (v.entry b j f).issued

        apart :
            (a b : String) (i j : Instance)
            → ((register.instance_id ≡ a) × (added ≡ i))
              ⊎ ((register.instance_id ≢ a) × (Dict.lookup a s.inner ≡ some i))
            → ((register.instance_id ≡ b) × (added ≡ j))
              ⊎ ((register.instance_id ≢ b) × (Dict.lookup b s.inner ≡ some j))
            → i.token ≡ j.token
            → a ≡ b
        apart a b i j (inl (na, _)) (inl (nb, _)) h = sym na ∙ nb
        apart a b i j (inl (_, new)) (inr (_, f)) h = absurd (
            omega (
              arith,
              older b j f,
              ap (λ (x : Instance). x.token) new,
              token-new_instance s.next_token register tx,
            ))
        apart a b i j (inr (_, e)) (inl (_, new)) h = absurd (
            omega (
              arith,
              older a i e,
              ap (λ (x : Instance). x.token) new,
              token-new_instance s.next_token register tx,
            ))
        apart a b i j (inr (_, e)) (inr (_, f)) h = v.distinct a b i j e f h

  pub next_token-insert :
      (s : InstanceMap t) (register : Register) (tx : ℕ)
      → (insert t s register queue_capacity tx).0.next_token ≤ s.next_token + 1
  unfolding insert
  next_token-insert s register tx = grind arith
