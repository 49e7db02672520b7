-- ===== src/Queue/Evict.antt =====
-- `eviction_index` against a description of its choice: the oldest message of the highest rank.
use mathlib.Core.Option
use crosspoint_simulator_mcp.Prelude.{
  ℕ, zero, suc, ◌+◌, ◌≤◌, ◌<◌, ◌≡◌, refl, Option, none, some, List, [], ◌∷◌, arith, ltb, leb, ◌&&◌,
  if◌then◌else◌, length, get_elem?, All, All-mono, Bool-cases, inl, inr, ltb→lt,
}
use crosspoint_simulator_mcp.Messages.{SimToServer}
use crosspoint_simulator_mcp.Queue.{
  eviction_rank, max_by_key, candidates, eviction_index, usize_max,
}

-- The first message of the list against the choice among those behind it.
prefer : ℕ × SimToServer → Option (ℕ × SimToServer) → Option (ℕ × SimToServer)
prefer e none = if ltb 0 (eviction_rank e.1) then some e else none
prefer e (some f) =
    if ltb 0 (eviction_rank e.1) && leb (eviction_rank f.1) (eviction_rank e.1)
    then some e
    else some f

oldest_highest : ℕ → List SimToServer → Option (ℕ × SimToServer)
oldest_highest i [] = none
oldest_highest i (m ∷ ms) = prefer (i, m) (oldest_highest (i + 1) ms)

-- A choice that was made before against the choice among what follows.
keep_best : ℕ × SimToServer → Option (ℕ × SimToServer) → Option (ℕ × SimToServer)
keep_best b none = some b
keep_best b (some f) = if leb (eviction_rank f.1) (eviction_rank b.1) then some b else some f

max_by_key-best :
    (b : ℕ × SimToServer) (i : ℕ) (ms : List SimToServer)
    → b.0 < i
    → i + length ms ≤ usize_max
    → 0 < eviction_rank b.1
    → max_by_key (some b) (candidates i ms) ≡ keep_best b (oldest_highest i ms)
unfolding max_by_key candidates oldest_highest keep_best prefer
max_by_key-best b i [] before fits ranked = refl
max_by_key-best b i (m ∷ ms) before fits ranked =
    ground (arith, max_by_key-best b (i + 1) ms, max_by_key-best (i, m) (i + 1) ms)

max_by_key-oldest_highest :
    (i : ℕ) (ms : List SimToServer)
    → i + length ms ≤ usize_max
    → max_by_key none (candidates i ms) ≡ oldest_highest i ms
unfolding max_by_key candidates oldest_highest prefer keep_best
max_by_key-oldest_highest i [] fits = refl
max_by_key-oldest_highest i (m ∷ ms) fits =
    ground (arith, max_by_key-oldest_highest (i + 1) ms, max_by_key-best (i, m) (i + 1) ms)

-- `m` stands at `i`, counted from `start`; all before it rank lower and none ranks higher.
pub record IsOldestHighest (start : ℕ) (ms : List SimToServer) (i : ℕ) (m : SimToServer)
    : Type 0 where
  pub position : ℕ
  pub index_lem : i ≡ start + position
  pub in_range : position < length ms
  pub there : get_elem? ms position ≡ some m
  pub ranked : 0 < eviction_rank m
  pub highest : All (λ x. eviction_rank x ≤ eviction_rank m) ms
  pub oldest :
      (j : ℕ) (x : SimToServer)
      → j < position
      → get_elem? ms j ≡ some x
      → eviction_rank x < eviction_rank m

-- What a choice says of the messages that it was made from.
abbrev pub Evicts : ℕ → List SimToServer → Option (ℕ × SimToServer) → Type 0
Evicts i ms none = All (λ x. eviction_rank x ≡ 0) ms
Evicts i ms (some (j, m)) = IsOldestHighest i ms j m

-- The head is chosen over what follows.
IsOldestHighest-head :
    (i : ℕ) (m : SimToServer) (ms : List SimToServer)
    → 0 < eviction_rank m
    → All (λ x. eviction_rank x ≤ eviction_rank m) ms
    → IsOldestHighest i (m ∷ ms) i m
IsOldestHighest-head i m ms ranked rest = record {
  position = 0;
  index_lem = omega arith;
  in_range = omega arith;
  there = refl;
  ranked = ranked;
  highest = (omega arith, rest);
  oldest = λ j x before _. absurd (omega arith);
}

oldest_step :
    (m f : SimToServer) (ms : List SimToServer) (position : ℕ)
    → eviction_rank m < eviction_rank f
    → ((j : ℕ) (x : SimToServer)
        → j < position
        → get_elem? ms j ≡ some x
        → eviction_rank x < eviction_rank f)
    → (j : ℕ) (x : SimToServer) → j < suc position
    → get_elem? (m ∷ ms) j ≡ some x
    → eviction_rank x < eviction_rank f
oldest_step m f ms position low later zero x before e = ground arith
oldest_step m f ms position low later (suc j) x before e = later j x (omega arith) e

-- What follows has a better choice.
IsOldestHighest-tail :
    (i : ℕ) (m : SimToServer) (ms : List SimToServer) (j : ℕ) (f : SimToServer)
    → eviction_rank m < eviction_rank f
    → IsOldestHighest (i + 1) ms j f
    → IsOldestHighest i (m ∷ ms) j f
IsOldestHighest-tail i m ms j f low h = record {
  position = suc h.position;
  index_lem = omega (arith, h.index_lem);
  in_range = omega (arith, h.in_range);
  there = h.there;
  ranked = h.ranked;
  highest = (omega arith, h.highest);
  oldest = oldest_step m f ms h.position low h.oldest;
}

prefer-Evicts :
    (i : ℕ) (m : SimToServer) (ms : List SimToServer) (o : Option (ℕ × SimToServer))
    → Evicts (i + 1) ms o
    → Evicts i (m ∷ ms) (prefer (i, m) o)
unfolding prefer
prefer-Evicts i m ms none zeros = elim (Bool-cases (ltb 0 (eviction_rank m))) [
  | inl high ↦
      rw high
        (IsOldestHighest-head i m ms (ltb→lt 0 _ high) (All-mono _ _ (λ x e. omega arith) ms zeros))
  | inr low ↦ rw low (ground arith, zeros)
]
prefer-Evicts i m ms (some (j, f)) h =
    elim (Bool-cases (ltb 0 (eviction_rank m) && leb (eviction_rank f) (eviction_rank m))) [
      | inl over ↦ rw over (
          IsOldestHighest-head i m ms (ground arith)
            (All-mono _ _ (λ x e. ground arith) ms h.highest))
      | inr under ↦ rw under (IsOldestHighest-tail i m ms j f (ground (arith, h.ranked)) h)
    ]

oldest_highest-Evicts : (i : ℕ) (ms : List SimToServer) → Evicts i ms (oldest_highest i ms)
unfolding oldest_highest
oldest_highest-Evicts i [] = tt
oldest_highest-Evicts i (m ∷ ms) =
    prefer-Evicts i m ms (oldest_highest (i + 1) ms) (oldest_highest-Evicts (i + 1) ms)

-- What the index says of the messages that it was computed from.
abbrev pub EvictsAt : List SimToServer → Option ℕ → Type 0
EvictsAt ms none = All (λ x. eviction_rank x ≡ 0) ms
EvictsAt ms (some j) = (m : SimToServer) × IsOldestHighest 0 ms j m

EvictsAt-map :
    (ms : List SimToServer) (o : Option (ℕ × SimToServer))
    → Evicts 0 ms o
    → EvictsAt ms (Option.map (λ e. e.0) o)
EvictsAt-map ms none h = h
EvictsAt-map ms (some (j, m)) h = (m, h)

pub eviction_index-EvictsAt :
    (ms : List SimToServer) → length ms ≤ usize_max → EvictsAt ms (eviction_index ms)
unfolding eviction_index
eviction_index-EvictsAt ms fits =
    rw (max_by_key-oldest_highest 0 ms (omega arith))
      (EvictsAt-map ms (oldest_highest 0 ms) (oldest_highest-Evicts 0 ms))
