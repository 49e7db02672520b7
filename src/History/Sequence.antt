-- ===== src/History/Sequence.antt =====
-- Interleavings of crates/csm-proxy that follow each other.
use crosspoint_simulator_mcp.Prelude.{◌≡◌, refl, List, [], ◌∷◌, ◌++◌}
use crosspoint_simulator_mcp.Tokio.{Tokio}
use crosspoint_simulator_mcp.State.{InstanceMap}
use crosspoint_simulator_mcp.History.{Action, step, run}

module _ (t : Tokio) where
  pub run-append :
      (s : InstanceMap t) (as₁ as₂ : List Action) → run t s (as₁ ++ as₂) ≡ run t (run t s as₁) as₂
  unfolding run
  run-append s [] as₂ = refl
  run-append s (a ∷ as₁) as₂ = run-append (step t s a) as₁ as₂
