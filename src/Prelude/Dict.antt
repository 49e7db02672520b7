-- ===== src/Prelude/Dict.antt =====
-- A `HashMap` as an association list over keys with an equality test. The program reads a map in
-- no fixed order, so the order of the entries carries no meaning.
use mathlib.Core.Path.{◌≡◌, refl}
use mathlib.Core.Logic.{inl, inr}
use mathlib.Core.List.{List, [], ◌∷◌, map}
use mathlib.Core.Option.{Option, none, some}
use native.Mathlib.Omega.{arith}
use crosspoint_simulator_mcp.Prelude.Tests.{if◌then◌else◌, Bool-cases}
use crosspoint_simulator_mcp.Prelude.Equality.{Eq, ◌==◌}

module _ {ℓ} {K V : Type ℓ} ⦃e : Eq K⦄ where
  unfoldable pub lookup : K → List (K × V) → Option V
  lookup k [] = none
  lookup k ((j, v) ∷ es) = if j == k then some v else lookup k es

  unfoldable pub remove : K → List (K × V) → List (K × V)
  remove k [] = []
  remove k ((j, v) ∷ es) = let rest = remove k es in if j == k then rest else (j, v) ∷ rest

  unfoldable pub insert : K → V → List (K × V) → List (K × V)
  insert k v [] = (k, v) ∷ []
  insert k v ((j, w) ∷ es) = if j == k then (k, v) ∷ es else (j, w) ∷ insert k v es

  pub lookup-remove :
      (k j : K) (es : List (K × V))
      → lookup j (remove k es) ≡ (if k == j then none else lookup j es)
  unfolding lookup remove
  lookup-remove k j [] = ground arith
  lookup-remove k j ((i, v) ∷ es) =
      ground (arith, lookup-remove k j es, e.eqb_iff i k, e.eqb_iff i j, e.eqb_iff k j)

  pub lookup-insert :
      (k j : K) (v : V) (es : List (K × V))
      → lookup j (insert k v es) ≡ (if k == j then some v else lookup j es)
  unfolding lookup insert
  lookup-insert k j v [] = refl
  lookup-insert k j v ((i, w) ∷ es) =
      ground (arith, lookup-insert k j v es, e.eqb_iff i k, e.eqb_iff i j, e.eqb_iff k j)

  -- To write what is there changes nothing.
  pub insert_same : (k : K) (v : V) (es : List (K × V)) → lookup k es ≡ some v → insert k v es ≡ es
  unfolding lookup insert
  insert_same k v [] h = cc
  insert_same k v ((j, w) ∷ es) h = ground (arith, e.eqb_iff j k, insert_same k v es)

  -- The last write wins.
  pub insert_twice :
      (k : K) (v w : V) (es : List (K × V)) → insert k v (insert k w es) ≡ insert k v es
  unfolding insert
  insert_twice k v w [] = ground (arith, e.eqb_iff k k)
  insert_twice k v w ((j, u) ∷ es) =
      ground (arith, e.eqb_iff k k, e.eqb_iff j k, insert_twice k v w es)

  pub ruleset dict_laws = (lookup-remove, lookup-insert)

-- No key stands twice, as in any map that is built by `insert` and `remove`.
module _ {ℓ} {K V : Type ℓ} ⦃e : Eq K⦄ where
  abbrev pub Unique : List (K × V) → Type ℓ
  Unique [] = Unit
  Unique ((k, v) ∷ es) = (lookup k es ≡ none) × Unique es

  pub remove-Unique : (k : K) (es : List (K × V)) → Unique es → Unique (remove k es)
  unfolding remove
  remove-Unique k [] u = tt
  remove-Unique k ((j, v) ∷ es) u = elim (Bool-cases (j == k)) [
    | inl same ↦ rw same (remove-Unique k es u.1)
    | inr other ↦ rw other (ground (arith, lookup-remove k j es, u.0), remove-Unique k es u.1)
  ]

  pub insert-Unique : (k : K) (v : V) (es : List (K × V)) → Unique es → Unique (insert k v es)
  unfolding insert lookup
  insert-Unique k v [] u = (refl, tt)
  insert-Unique k v ((j, w) ∷ es) u = elim (Bool-cases (j == k)) [
    | inl same ↦ rw same (ground (arith, u.0, e.eqb_iff j k), u.1)
    | inr other ↦ rw other (
      ground (arith, lookup-insert k j v es, u.0, e.eqb_iff j k, e.eqb_iff k j),
      insert-Unique k v es u.1,
    )
  ]

abbrev pub keys {ℓ} : {K V : Type ℓ} → List (K × V) → List K
keys = map (λ e. e.0)

abbrev pub values {ℓ} : {K V : Type ℓ} → List (K × V) → List V
values = map (λ e. e.1)
