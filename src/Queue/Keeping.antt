-- ===== src/Queue/Keeping.antt =====
-- What the queue keeps: the messages that `is_never_drop` marks.
use crosspoint_simulator_mcp.Prelude.{
  ℕ, zero, suc, ◌+◌, ◌≤◌, ◌<◌, ◌≡◌, refl, Bool, false, none, some, List, [], ◌∷◌, ◌++◌, arith,
  length, length-append, remove_at, get_elem?, filter, filter-append, Bool-cases, inl, inr, All,
  if◌then◌else◌, ltb, ◌&&◌, ap, ◌∙◌,
}
use native.Mathlib.Nat.{zero-add}
use mathlib.Core.List.{append-nil, append_assoc}
use crosspoint_simulator_mcp.Messages.{SimToServer}
use crosspoint_simulator_mcp.Queue.{
  InboundQueue, push, eviction_index, eviction_rank, is_never_drop, usize_max,
}
use crosspoint_simulator_mcp.Queue.Rank.{rank-never_drop, heartbeat-never_drop}
use crosspoint_simulator_mcp.Queue.Evict.{eviction_index-EvictsAt}
use crosspoint_simulator_mcp.Queue.Bounds.{
  IsBounded, Pushed, room, refused, stuck, evicted, push-Pushed, push-IsBounded, cap-push,
}

-- The messages of the queue that are marked never-drop, oldest first.
abbrev pub kept : List SimToServer → List SimToServer
kept = filter is_never_drop

-- To remove a message that a filter does not keep changes nothing for the filter.
filter-remove_at {ℓ} :
    {A : Type ℓ} (p : A → Bool) (xs : List A) (i : ℕ) (x : A)
    → get_elem? xs i ≡ some x
    → p x ≡ false
    → filter p (remove_at i xs) ≡ filter p xs
filter-remove_at p [] i x e out = refl
filter-remove_at p (y ∷ xs) zero x e out = ground arith
filter-remove_at p (y ∷ xs) (suc i) x e out = ground (arith, filter-remove_at p xs i x e out)

length-filter-le {ℓ} : {A : Type ℓ} (p : A → Bool) (xs : List A) → length (filter p xs) ≤ length xs
length-filter-le p [] = omega arith
length-filter-le p (x ∷ xs) = ground (arith, length-filter-le p xs)

-- With nothing to evict, every message is kept.
kept-All : (ms : List SimToServer) → All (λ x. eviction_rank x ≡ 0) ms → kept ms ≡ ms
kept-All [] h = refl
kept-All (m ∷ ms) h = ground (arith, rank-never_drop m, kept-All ms h.1)

length-filter-lt {ℓ} :
    {A : Type ℓ} (p : A → Bool) (xs : List A) (i : ℕ) (x : A)
    → get_elem? xs i ≡ some x
    → p x ≡ false
    → length (filter p xs) < length xs
length-filter-lt p [] i x e out = cc
length-filter-lt p (y ∷ xs) zero x e out = ground (arith, length-filter-le p xs)
length-filter-lt p (y ∷ xs) (suc i) x e out = ground (arith, length-filter-lt p xs i x e out)

-- An evicted message was not marked never-drop.
kept_evicted :
    (ms : List SimToServer) (i : ℕ)
    → length ms ≤ usize_max
    → eviction_index ms ≡ some i
    → (kept (remove_at i ms) ≡ kept ms) × (length (kept ms) < length ms)
kept_evicted ms i fits e =
    let (m, h) = rw e at (eviction_index-EvictsAt ms fits) in
    let at_i : get_elem? ms i ≡ some m = rw (h.index_lem, zero-add) h.there in
    let out : is_never_drop m ≡ false = ground (arith, rank-never_drop m, h.ranked) in
    (filter-remove_at is_never_drop ms i m at_i out, length-filter-lt is_never_drop ms i m at_i out)

-- With an evictable message in a bounded queue, something is evicted.
evictable :
    (ms : List SimToServer) → length ms ≤ usize_max → eviction_index ms ≡ none → kept ms ≡ ms
evictable ms fits e = kept-All ms (rw e at (eviction_index-EvictsAt ms fits))

kept_push_back :
    (ms : List SimToServer) (m : SimToServer)
    → kept (ms ++ m ∷ []) ≡ (if is_never_drop m then kept ms ++ m ∷ [] else kept ms)
kept_push_back ms m = elim (Bool-cases (is_never_drop m)) [
  | inl e ↦ rw (filter-append is_never_drop ms (m ∷ []), e)
  | inr e ↦ rw (filter-append is_never_drop ms (m ∷ []), e) (append-nil (kept ms))
]

-- What is kept after a push: the new message too, if it is marked and the kept ones do not fill the queue.
abbrev pub kept_after : InboundQueue → SimToServer → List SimToServer
kept_after q m =
    if is_never_drop m && ltb (length (kept q.items)) q.cap
    then kept q.items ++ m ∷ []
    else kept q.items

kept-Pushed :
    (q : InboundQueue) (m : SimToServer) (r : InboundQueue)
    → IsBounded q
    → Pushed q m r
    → kept r.items ≡ kept_after q m
kept-Pushed q m r v (room e p) =
    rw p
      (ground (arith, kept_push_back q.items m, length-filter-le is_never_drop q.items, v.within))
kept-Pushed q m r v (refused full h p) = rw p (ground (arith, heartbeat-never_drop m h))
kept-Pushed q m r v (stuck full h e p) =
    rw p (ground (arith, ap length (evictable q.items (omega (arith, v.addressable)) e)))
kept-Pushed q m r v (evicted i full h e p) = rw p (
    ground (
      arith,
      kept_push_back (remove_at i q.items) m,
      kept_evicted q.items i (omega (arith, v.addressable)) e,
    ))

-- In a bounded queue a push keeps every queued message that is marked never-drop, in order, whatever
-- arrives. The new message joins them exactly if it is marked and the marked ones do not fill the queue.
pub kept-push :
    (q : InboundQueue) (m : SimToServer) → IsBounded q → kept (push q m).items ≡ kept_after q m
kept-push q m v = kept-Pushed q m (push q m) v (push-Pushed q m)

unfoldable pub push_all : InboundQueue → List SimToServer → InboundQueue
push_all q [] = q
push_all q (m ∷ ms) = push_all (push q m) ms

-- From a bounded queue, if the marked messages that are queued and that arrive fit the capacity, then after
-- any sequence of pushes all of them are queued, in order.
pub kept-push_all :
    (q : InboundQueue) (ms : List SimToServer)
    → IsBounded q
    → length (kept q.items) + length (kept ms) ≤ q.cap
    → kept (push_all q ms).items ≡ kept q.items ++ kept ms
unfolding push_all
kept-push_all q [] v fits = ground (arith, append-nil (kept q.items))
kept-push_all q (m ∷ ms) v fits = elim (Bool-cases (is_never_drop m)) [
  | inl e ↦
      let now : kept (push q m).items ≡ kept q.items ++ m ∷ [] = ground (arith, kept-push q m v) in
      let size = ap length now in
      kept-push_all (push q m) ms (push-IsBounded q m v)
        (ground (arith, size, length-append (kept q.items) (m ∷ []), cap-push q m))
      ∙ rw (now, e) (append_assoc (kept q.items) (m ∷ []) (kept ms))
  | inr e ↦
      let now : kept (push q m).items ≡ kept q.items = ground (arith, kept-push q m v) in
      rw e (
        kept-push_all (push q m) ms (push-IsBounded q m v)
          (ground (arith, ap length now, cap-push q m))
        ∙ rw now refl)
]

-- If the marked messages fill the queue, a push changes nothing: even a marked message is dropped.
pub push_full_of_kept :
    (q : InboundQueue) (m : SimToServer)
    → IsBounded q
    → length (kept q.items) ≡ q.cap
    → push q m ≡ q
push_full_of_kept q m v full = refused_full (push-Pushed q m)
  where
    refused_full : Pushed q m (push q m) → push q m ≡ q
    refused_full (room e p) =
        absurd (e (omega (arith, length-filter-le is_never_drop q.items, v.within)))
    refused_full (refused _ _ p) = p
    refused_full (stuck _ _ _ p) = p
    refused_full (evicted i _ _ e p) =
        absurd (
          omega
            (arith, kept_evicted q.items i (omega (arith, v.within, v.addressable)) e, v.within))
