-- ===== src/Tests/Reordered.antt =====
-- Two arrangements of one table.
use mathlib.Core.Path.{subst}
use crosspoint_simulator_mcp.Prelude.{
  ℕ, ◌≡◌, refl, String, Option, [], ◌∷◌, string_eq, arith, Bool-cases, inl, inr, ◌==◌,
}
use crosspoint_simulator_mcp.Prelude.Dict
use crosspoint_simulator_mcp.State.{Instance, InstanceMap}
use crosspoint_simulator_mcp.Instances.{new, resolve_or_default}
use crosspoint_simulator_mcp.History.{run}
use crosspoint_simulator_mcp.History.Unordered.{SameTable}
use crosspoint_simulator_mcp.History.Unordered.Steps.{run_unordered, up_to_order, run-unordered}
use crosspoint_simulator_mcp.Tests.Channels.{channels, no_channels}
use crosspoint_simulator_mcp.Tests.Waits.{script}
use crosspoint_simulator_mcp.Tests.Logged.{entry}

abbrev other : Instance
other = record entry { token = 2 }

abbrev a_first : InstanceMap channels
a_first = record (new channels no_channels) { inner = ("a", entry) ∷ ("b", other) ∷ [] }

abbrev b_first : InstanceMap channels
b_first = record (new channels no_channels) { inner = ("b", other) ∷ ("a", entry) ∷ [] }

same_table : SameTable channels a_first b_first
unfolding Dict.lookup
same_table = record {
  entries = λ id. elim (Bool-cases ("a" == id)) [
    | inl a ↦
        subst (λ id. Dict.lookup id b_first.inner ≡ Dict.lookup id a_first.inner)
          ((string_eq.eqb_iff "a" id).0 a) refl
    | inr b ↦ ground (arith, b)
  ];
  rest = refl;
}

run-unordered_example :
    let r = run channels a_first script in
    let r' = run channels b_first script in
    (run_unordered channels script (up_to_order channels a_first) ≡ up_to_order channels r')
    × ((given : Option String)
        → resolve_or_default channels r' given ≡ resolve_or_default channels r given)
    × ((rx : ℕ) → channels.poll rx r'.net ≡ channels.poll rx r.net)
run-unordered_example = run-unordered channels a_first b_first script same_table
