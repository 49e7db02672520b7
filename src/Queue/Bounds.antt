-- ===== src/Queue/Bounds.antt =====
-- The inbound queue stays within its capacity, and what one push does.
use crosspoint_simulator_mcp.Prelude.{
  ℕ, ◌≤◌, ◌<◌, ◌≡◌, ◌≢◌, refl, true, false, none, some, List, [], ◌∷◌, arith, length, length-append,
  length-remove_at, remove_at, Bool-cases, Option-cases, inl, inr, nat_eq, ◌==◌,
}
use crosspoint_simulator_mcp.Messages.{SimToServer}
use crosspoint_simulator_mcp.Queue.{
  InboundQueue, push, push_back, new_queue, try_recv, pop_front, eviction_index, usize_max,
  is_heartbeat,
}
use crosspoint_simulator_mcp.Queue.Evict.{eviction_index-EvictsAt}

pub record IsBounded (q : InboundQueue) : Type 0 where
  pub within : length q.items ≤ q.cap
  pub addressable : q.cap ≤ usize_max

-- What a push can do: nothing to a full queue, one message for another, or one more message.
pub data Pushed (q : InboundQueue) (m : SimToServer) (r : InboundQueue) : Type 0 where
  room : length q.items ≢ q.cap → r ≡ push_back q m → Pushed q m r
  refused : length q.items ≡ q.cap → is_heartbeat m ≡ true → r ≡ q → Pushed q m r
  stuck :
      length q.items ≡ q.cap
      → is_heartbeat m ≡ false
      → eviction_index q.items ≡ none
      → r ≡ q
      → Pushed q m r
  evicted :
      (i : ℕ)
      → length q.items ≡ q.cap
      → is_heartbeat m ≡ false
      → eviction_index q.items ≡ some i
      → r ≡ push_back (record q { items = remove_at i q.items }) m
      → Pushed q m r

push_full :
    (q : InboundQueue) (m : SimToServer)
    → length q.items ≡ q.cap
    → is_heartbeat m ≡ false
    → Pushed q m (push q m)
unfolding push
push_full q m full other = elim (Option-cases (eviction_index q.items)) [
  | inl e ↦ stuck full other e (ground arith)
  | inr (i, e) ↦ evicted i full other e (ground arith)
]

pub push-Pushed : (q : InboundQueue) (m : SimToServer) → Pushed q m (push q m)
unfolding push
push-Pushed q m = elim (Bool-cases (length q.items == q.cap)) [
  | inr e ↦ room (ground arith) (ground arith)
  | inl e ↦ elim (Bool-cases (is_heartbeat m)) [
    | inl h ↦ refused (ground arith) h (ground arith)
    | inr h ↦ push_full q m (ground arith) h
  ]
]

-- An index that was chosen lies in the queue.
pub eviction_index-lt :
    (ms : List SimToServer) (i : ℕ)
    → length ms ≤ usize_max
    → eviction_index ms ≡ some i
    → i < length ms
eviction_index-lt ms i fits e =
    let (m, h) = rw e at (eviction_index-EvictsAt ms fits) in omega (arith, h.index_lem, h.in_range)

Pushed-IsBounded :
    {q : InboundQueue} {m : SimToServer} {r : InboundQueue}
    → IsBounded q
    → Pushed q m r
    → IsBounded r
Pushed-IsBounded {q} {m} v (room e p) = rw p (record {
  within = omega (arith, length-append q.items (m ∷ []), v.within);
  addressable = v.addressable;
})
Pushed-IsBounded v (refused _ _ p) = rw p v
Pushed-IsBounded v (stuck _ _ _ p) = rw p v
Pushed-IsBounded {q} {m} v (evicted i full _ e p) = rw p (record {
  within = omega (
    arith,
    length-append (remove_at i q.items) (m ∷ []),
    length-remove_at i q.items (eviction_index-lt q.items i (omega (arith, v.addressable)) e),
  );
  addressable = v.addressable;
})

-- A push keeps the queue within its capacity.
pub push-IsBounded : (q : InboundQueue) (m : SimToServer) → IsBounded q → IsBounded (push q m)
push-IsBounded q m v = Pushed-IsBounded v (push-Pushed q m)

pub new_queue-IsBounded : (cap : ℕ) → cap ≤ usize_max → IsBounded (new_queue cap)
unfolding new_queue
new_queue-IsBounded cap h = record { within = omega arith; addressable = h }

pub cap-push : (q : InboundQueue) (m : SimToServer) → (push q m).cap ≡ q.cap
unfolding push
cap-push q m = ground arith

pop_front-IsBounded :
    (q : InboundQueue) (ms : List SimToServer)
    → length ms ≤ q.cap
    → IsBounded q
    → IsBounded (pop_front q ms).0
unfolding pop_front
pop_front-IsBounded q [] h v = v
pop_front-IsBounded q (m ∷ ms) h v = record { within = omega arith; addressable = v.addressable }

pub try_recv-IsBounded : (q : InboundQueue) → IsBounded q → IsBounded (try_recv q).0
unfolding try_recv
try_recv-IsBounded q v = pop_front-IsBounded q q.items v.within v

pop_front-cap : (q : InboundQueue) (ms : List SimToServer) → (pop_front q ms).0.cap ≡ q.cap
unfolding pop_front
pop_front-cap q [] = refl
pop_front-cap q (m ∷ ms) = refl

pub cap-try_recv : (q : InboundQueue) → (try_recv q).0.cap ≡ q.cap
unfolding try_recv
cap-try_recv q = pop_front-cap q q.items
