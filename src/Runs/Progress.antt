-- ===== src/Runs/Progress.antt =====
-- A resume of a run moves it forward along the lifecycle or leaves it where it is.
use ai_driven_autonomous_no.Prelude.{
  ℕ, ◌<◌, ◌≡◌, refl, sym, ap, ◌⊎◌, inl, inr, String, Bool, true, Option, none, some, arith,
  if_cases,
}
use ai_driven_autonomous_no.Lifecycle.{OptimizationState, approved, deploying}
use ai_driven_autonomous_no.Lifecycle.Graph.{◌⟶◌, is_terminal}
use ai_driven_autonomous_no.Lifecycle.Histories.{progress, progress-⟶}
use ai_driven_autonomous_no.Runs.{RunCompletionReason}
use ai_driven_autonomous_no.Runs.Transition.{transition_run, moved_row}
use ai_driven_autonomous_no.Runs.Evidence.{transition_run_outcomes}
use ai_driven_autonomous_no.Runs.Orchestrator.{
  OrchestratorState, Service, Answer, answers, declines, fails, OrchestrationOutcome, Resume,
  resumed, progressed, blocked, terminal, result, after_transition, move_to, leased, caught,
  uncaught, given,
}

abbrev pub WhereGiven : {A : Type 0} → (A → Type 0) → Option A → Type 0
WhereGiven P none = Unit
WhereGiven P (some a) = P a

abbrev pub Fits : OrchestrationOutcome → OptimizationState → OptimizationState → Type 0
Fits progressed s t = progress s < progress t
Fits blocked s t = (s ≡ t) ⊎ (s ⟶ t)
Fits terminal s t = (is_terminal s ≡ true) × (s ≡ t)

abbrev pub IsDeployable : OptimizationState → Type 0
IsDeployable s = (s ≡ approved) ⊎ (s ≡ deploying)

module _ {W : Type 0} where
  abbrev pub status_of : OrchestratorState W → OptimizationState
  status_of state = state.store.row.status

  -- A service that writes its own artifacts and not the status of the run.
  abbrev pub KeepsStatus : {A : Type 0} → Service W A → Type 0
  KeepsStatus service =
      (state : OrchestratorState W) → status_of (service state).0 ≡ status_of state

  abbrev pub IsFurther : OptimizationState → OrchestratorState W × Answer Unit → Type 0
  IsFurther s (left, answers a) = progress s < progress (status_of left)
  IsFurther s (left, _) = Unit

  -- A deployment of an approved run, or of one that is being deployed, has moved it on if it returns.
  abbrev pub MovesOn : ((ℕ → Bool) → Service W Unit) → Type 0
  MovesOn deploy =
      (owned : ℕ → Bool) (state : OrchestratorState W)
      → IsDeployable (status_of state)
      → IsFurther (status_of state) (deploy owned state)

  -- A result says the status that is stored: further on after progress, the same or the next one where
  -- the run is blocked, and the same terminal one at the end.
  abbrev pub IsResumed : OptimizationState → OrchestratorState W × Resume → Type 0
  IsResumed s (left, resumed r) =
      (r.result_status ≡ status_of left) × Fits r.outcome s (status_of left)
  IsResumed s (left, _) = Unit

  pub move_to-IsResumed :
      (s : OptimizationState) (state : OrchestratorState W) (t : OptimizationState)
      (reason : Option RunCompletionReason)
      → status_of state ≡ s
      → IsResumed s (move_to state t reason)
  unfolding move_to after_transition moved_row result
  move_to-IsResumed s state t reason e = elim (transition_run_outcomes state.store t reason) [
    | inl ((edge, w), same) ↦ rw same (refl, omega (arith, progress-⟶ edge, ap progress e))
    | inr (refused, (error, same)) ↦ rw same tt
  ]

  pub ask-IsResumed :
      (s : OptimizationState) (state : OrchestratorState W) (t : OptimizationState)
      (text : Option String)
      → status_of state ≡ s
      → IsResumed s (after_transition state blocked text (transition_run state.store t none))
  unfolding after_transition moved_row result
  ask-IsResumed s state t text e = elim (transition_run_outcomes state.store t none) [
    | inl ((edge, w), same) ↦ rw same (refl, inr (rw (← e) edge))
    | inr (refused, (error, same)) ↦ rw same tt
  ]

  pub leased-IsResumed :
      (s : OptimizationState) (b : Bool) (state : OrchestratorState W)
      (next : OrchestratorState W × Resume)
      → IsResumed s next
      → IsResumed s (leased b state next)
  unfolding leased
  leased-IsResumed s b state next h = if_cases (IsResumed s) b (λ held. h) (λ lost. tt)

  pub given-IsResumed :
      {A : Type 0} (P : A → Type 0) (s : OptimizationState) (state : OrchestratorState W)
      (text : String) (o : Option A) (next : A → OrchestratorState W × Resume)
      → status_of state ≡ s
      → WhereGiven P o
      → ((a : A) → P a → IsResumed s (next a))
      → IsResumed s (given state s text o next)
  unfolding given result
  given-IsResumed P s state text none next e h f = (sym e, inl (sym e))
  given-IsResumed P s state text (some a) next e h f = f a h

  pub caught-IsResumed :
      {A : Type 0} (s : OptimizationState) (answer : OrchestratorState W × Answer A)
      (next : OrchestratorState W → A → OrchestratorState W × Resume)
      → status_of answer.0 ≡ s
      → ((left : OrchestratorState W) (a : A) → status_of left ≡ s → IsResumed s (next left a))
      → IsResumed s (caught s answer next)
  unfolding caught result
  caught-IsResumed s (left, answers a) next e f = f left a e
  caught-IsResumed s (left, declines text) next e f = (sym e, inl (sym e))
  caught-IsResumed s (left, fails) next e f = tt

  pub uncaught-IsResumed :
      {A : Type 0} (s : OptimizationState) (answer : OrchestratorState W × Answer A)
      (next : OrchestratorState W → A → OrchestratorState W × Resume)
      → status_of answer.0 ≡ s
      → ((left : OrchestratorState W) (a : A) → status_of left ≡ s → IsResumed s (next left a))
      → IsResumed s (uncaught answer next)
  unfolding uncaught
  uncaught-IsResumed s (left, answers a) next e f = f left a e
  uncaught-IsResumed s (left, declines text) next e f = tt
  uncaught-IsResumed s (left, fails) next e f = tt
