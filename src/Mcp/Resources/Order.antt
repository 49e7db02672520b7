-- ===== src/Mcp/Resources/Order.antt =====
-- The list of resources of crates/csm-proxy/src/mcp.rs: what stands in it, and in which order.
use Prim.Native.String.{String}
use crosspoint_simulator_mcp.Prelude.{
  ℕ, ◌≡◌, refl, ◌∙◌, true, false, Option, none, some, List, [], ◌∷◌, map, ◌==◌, string_eq, nat_eq,
  is_some, arith, Bool-cases, inl, inr, ◌+◌, ◌<◌, ◌↔◌, if◌then◌else◌,
}
use mathlib.Core.Option
use crosspoint_simulator_mcp.Prelude.Dict
use crosspoint_simulator_mcp.Tokio.{Tokio}
use crosspoint_simulator_mcp.State.{Instance, InstanceMap, instance_snapshot}
use crosspoint_simulator_mcp.Instances.{list, get}
use crosspoint_simulator_mcp.Text.{codes}
use crosspoint_simulator_mcp.Json.{Serde}
use crosspoint_simulator_mcp.Mcp.Resources.{
  codes_leb, string_leb, place, sort_by, Resource, capabilities_uri, instances_uri, instance_uri,
  list_resources,
}

-- Of two texts one comes first.
codes_leb-total : (cs ds : List ℕ) → codes_leb cs ds ≡ false → codes_leb ds cs ≡ true
unfolding codes_leb
codes_leb-total [] ds h = cc
codes_leb-total (c ∷ cs) [] h = refl
codes_leb-total (c ∷ cs) (d ∷ ds) h = ground (arith, codes_leb-total cs ds)

string_leb-total : (a b : String) → string_leb a b ≡ false → string_leb b a ≡ true
unfolding string_leb
string_leb-total a b h = codes_leb-total (codes a) (codes b) h

-- Each text is at most the one after it.
abbrev pub IsAscending : List String → Type 0
IsAscending [] = Unit
IsAscending (a ∷ []) = Unit
IsAscending (a ∷ b ∷ rest) = (string_leb a b ≡ true) × IsAscending (b ∷ rest)

abbrev AtMostFirst : String → List String → Type 0
AtMostFirst b [] = Unit
AtMostFirst b (a ∷ rest) = string_leb b a ≡ true

first-IsAscending :
    (b : String) (rest : List String)
    → AtMostFirst b rest
    → IsAscending rest
    → IsAscending (b ∷ rest)
first-IsAscending b [] h v = tt
first-IsAscending b (a ∷ rest) h v = (h, v)

IsAscending-rest : (b : String) (rest : List String) → IsAscending (b ∷ rest) → IsAscending rest
IsAscending-rest b [] v = tt
IsAscending-rest b (a ∷ rest) v = v.1

abbrev placed : String → List String → List String
placed = place (λ id. id)

first-placed :
    (b a : String) (rest : List String)
    → string_leb b a ≡ true
    → IsAscending (b ∷ rest)
    → AtMostFirst b (placed a rest)
unfolding place
first-placed b a [] h v = h
first-placed b a (c ∷ rest) h v = elim (Bool-cases (string_leb a c)) [
  | inl le ↦ rw le h
  | inr gt ↦ rw gt v.0
]

place-IsAscending :
    (a : String) (rest : List String) → IsAscending rest → IsAscending (placed a rest)
unfolding place
place-IsAscending a [] v = tt
place-IsAscending a (b ∷ rest) v = elim (Bool-cases (string_leb a b)) [
  | inl le ↦ rw le (le, v)
  | inr gt ↦ rw gt (
      first-IsAscending b (placed a rest) (first-placed b a rest (string_leb-total a b gt) v)
        (place-IsAscending a rest (IsAscending-rest b rest v)))
]

sort_by-IsAscending : (ids : List String) → IsAscending (sort_by (λ id. id) ids)
unfolding sort_by
sort_by-IsAscending [] = tt
sort_by-IsAscending (a ∷ ids) =
    place-IsAscending a (sort_by (λ id. id) ids) (sort_by-IsAscending ids)

-- How often an id stands in a list.
abbrev pub count : String → List String → ℕ
count id [] = 0
count id (i ∷ ids) = (if i == id then 1 else 0) + count id ids

count-place : (id a : String) (rest : List String) → count id (placed a rest) ≡ count id (a ∷ rest)
unfolding place
count-place id a [] = refl
count-place id a (b ∷ rest) = elim (Bool-cases (string_leb a b)) [
  | inl le ↦ rw le refl
  | inr gt ↦ rw gt (ground (arith, count-place id a rest))
]

count-sort_by : (id : String) (ids : List String) → count id (sort_by (λ id. id) ids) ≡ count id ids
unfolding sort_by
count-sort_by id [] = refl
count-sort_by id (a ∷ ids) =
    count-place id a (sort_by (λ id. id) ids) ∙ ground (arith, count-sort_by id ids)

count-keys :
    (id : String) (es : List (String × Instance))
    → (0 < count id (Dict.keys es)) ↔ (is_some (Dict.lookup id es) ≡ true)
unfolding Dict.lookup
count-keys id [] = ground arith
count-keys id ((k, v) ∷ es) = elim (Bool-cases (k == id)) [
  | inl same ↦ rw same (ground arith)
  | inr other ↦ rw other (ground (arith, count-keys id es))
]

is_some-map : (o : Option Instance) → is_some (Option.map instance_snapshot o) ≡ is_some o
is_some-map none = refl
is_some-map (some inst) = refl

module _ (t : Tokio) (serde : Serde) where
  abbrev pub resource_of : String → Resource
  resource_of id = record { uri = instance_uri id; name = id }

  abbrev pub Listed : InstanceMap t → List String → Type 0
  Listed s ids =
      IsAscending ids
      × ((id : String) → count id ids ≡ count id (list t s))
      × ((id : String) → (0 < count id ids) ↔ (is_some (get t s id) ≡ true))

  -- The list of resources is the two fixed resources, and then one for each id in ascending order: the
  -- ids are those of the table of instances, as often as they stand there, so that an instance is listed
  -- exactly if it is connected.
  pub list_resources-Listed :
      (s : InstanceMap t)
      → (ids : List String) × (list_resources t serde s
          ≡ record { uri = capabilities_uri; name = "capabilities" }
            ∷ record { uri = instances_uri; name = "instances" }
            ∷ map resource_of ids)
        × Listed s ids
  unfolding list_resources get list
  list_resources-Listed s = (
    sort_by (λ id. id) (list t s),
    refl,
    (
      sort_by-IsAscending (list t s),
      λ id. count-sort_by id (list t s),
      λ id.
          rw (count-sort_by id (list t s), is_some-map (Dict.lookup id s.inner))
            (count-keys id s.inner),
    ),
  )
