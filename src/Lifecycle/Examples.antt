-- ===== src/Lifecycle/Examples.antt =====
-- Runs of the lifecycle, and the theorems about it at such runs.
use ai_driven_autonomous_no.Prelude.{◌≡◌, refl, ◌↔◌, true, List, [], ◌∷◌, All}
use ai_driven_autonomous_no.Lifecycle.{
  OptimizationState, OptimizationStateMachine, created, snapshotting, diagnosing,
  generating_candidates, ranking, completed, validate_transition, fresh_machine, transition,
  request_all,
}
use ai_driven_autonomous_no.Lifecycle.Graph.{◌⟶◌, validate_transition-⟶}
use ai_driven_autonomous_no.Lifecycle.Histories.{Visits, gates, history_passes_gates}

-- A run that generates no candidate; one request out of order is refused.
abbrev nothing_to_do : List OptimizationState
nothing_to_do = snapshotting ∷ ranking ∷ diagnosing ∷ generating_candidates ∷ completed ∷ []

nothing_to_do_history : request_all fresh_machine nothing_to_do ≡ record {
  state = completed;
  history = created ∷ snapshotting ∷ diagnosing ∷ generating_candidates ∷ completed ∷ [];
}
unfolding request_all fresh_machine transition validate_transition
nothing_to_do_history = refl

validate_transition-⟶_example : (validate_transition created ranking ≡ true) ↔ (created ⟶ ranking)
validate_transition-⟶_example = validate_transition-⟶ created ranking

history_passes_gates_example :
    let m = request_all fresh_machine nothing_to_do in All (Visits m.history) (gates m.state)
history_passes_gates_example = history_passes_gates nothing_to_do

abbrev ended : OptimizationStateMachine
ended = request_all fresh_machine nothing_to_do
