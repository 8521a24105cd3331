-- ===== src/Lifecycle/Histories.antt =====
-- What holds of a state machine after any list of requested transitions, refused ones included.
use ai_driven_autonomous_no.Prelude.{
  ℕ, ◌+◌, ◌⊎◌, ◌≤◌, ◌<◌, min, ap, last_or, last_or-append, ◌≡◌, refl, Bool, true, false, ◌||◌, List,
  [], ◌∷◌, ◌++◌, any, All, All-map, length, length-append, arith, Bool-cases, inl, inr,
}
use ai_driven_autonomous_no.Lifecycle.{
  OptimizationState, created, snapshotting, diagnosing, generating_candidates, ranking, calibrating,
  evaluating, admission, admitted, approval_pending, approved, deploying, deployed, monitoring,
  completed, rolled_back, rollback_blocked, failed, validate_transition, same_state, position,
  OptimizationStateMachine, fresh_machine, transition, request_all, moved_to,
  invalid_state_transition,
}
use ai_driven_autonomous_no.Lifecycle.Graph.{
  ◌⟶◌, snapshot, approve, reject, not_admitted, finish, no_candidate, is_terminal,
  validate_transition-⟶, deployed_change, monitored_change, roll_back, block, fail,
}

-- Whether a history has been in a state.
abbrev pub visited : List OptimizationState → OptimizationState → Bool
visited history s = any (same_state s) history

abbrev gates_to_generation : List OptimizationState
gates_to_generation = generating_candidates ∷ diagnosing ∷ snapshotting ∷ created ∷ []

abbrev gates_to_admission : List OptimizationState
gates_to_admission = admission ∷ evaluating ∷ calibrating ∷ ranking ∷ gates_to_generation

abbrev gates_to_deployment : List OptimizationState
gates_to_deployment = deployed ∷ deploying ∷ approved ∷ admitted ∷ gates_to_admission

-- The states through which every run to a state has to pass.
abbrev pub gates : OptimizationState → List OptimizationState
gates created = created ∷ []
gates snapshotting = snapshotting ∷ created ∷ []
gates diagnosing = diagnosing ∷ snapshotting ∷ created ∷ []
gates generating_candidates = gates_to_generation
gates ranking = ranking ∷ gates_to_generation
gates calibrating = calibrating ∷ ranking ∷ gates_to_generation
gates evaluating = evaluating ∷ calibrating ∷ ranking ∷ gates_to_generation
gates admission = gates_to_admission
gates admitted = admitted ∷ gates_to_admission
gates approval_pending = approval_pending ∷ admitted ∷ gates_to_admission
gates approved = approved ∷ admitted ∷ gates_to_admission
gates deploying = deploying ∷ approved ∷ admitted ∷ gates_to_admission
gates deployed = gates_to_deployment
gates monitoring = monitoring ∷ gates_to_deployment
gates completed = completed ∷ gates_to_generation
gates rolled_back = rolled_back ∷ gates_to_deployment
gates rollback_blocked = rollback_blocked ∷ gates_to_deployment
gates failed = failed ∷ created ∷ []

abbrev pub Visits : List OptimizationState → OptimizationState → Type 0
Visits history s = visited history s ≡ true

visited-append :
    (history : List OptimizationState) (t s : OptimizationState)
    → visited (history ++ t ∷ []) s ≡ (visited history s || same_state s t)
unfolding same_state
visited-append [] t s = ground arith
visited-append (x ∷ history) t s = rw (visited-append history t s) (ground arith)

Visits-kept :
    (history : List OptimizationState) (t s : OptimizationState)
    → Visits history s
    → Visits (history ++ t ∷ []) s
Visits-kept history t s h = rw (visited-append history t s, h)

Visits-new :
    (history : List OptimizationState) (t : OptimizationState) → Visits (history ++ t ∷ []) t
unfolding same_state
Visits-new history t = rw (visited-append history t t) (ground arith)

-- The gates of a state are its own visit and gates of each state before it.
gates_after :
    (P : OptimizationState → Type 0) {s t : OptimizationState}
    → s ⟶ t
    → P t
    → P created
    → All P (gates s)
    → All P (gates t)
gates_after P approve new first old = (new, old.1)
gates_after P reject new first old = assumption
gates_after P not_admitted new first old = assumption
gates_after P (roll_back deployed_change) new first old = (new, old)
gates_after P (roll_back monitored_change) new first old = (new, old.1)
gates_after P (block deployed_change) new first old = (new, old)
gates_after P (block monitored_change) new first old = (new, old.1)
gates_after P (fail h) new first old = (new, (first, tt))
gates_after P finish new first old = assumption
gates_after P no_candidate new first old = (new, old)
gates_after P _ new first old = (new, old)

-- How far along the lifecycle a state is; every edge leads further, and nothing is past 14.
abbrev pub progress : OptimizationState → ℕ
progress s = min (position s) 14

pub progress-⟶ : {s t : OptimizationState} → s ⟶ t → (progress s < progress t) × (progress t ≤ 14)
unfolding position
progress-⟶ snapshot = omega arith
progress-⟶ (roll_back deployed_change) = omega arith
progress-⟶ (roll_back monitored_change) = omega arith
progress-⟶ (block deployed_change) = omega arith
progress-⟶ (block monitored_change) = omega arith
progress-⟶ (fail {s} h) = ground arith
progress-⟶ _ = omega arith

-- Each state of a list is followed by one to which the graph has an edge.
abbrev pub IsWalk : List OptimizationState → Type 0
IsWalk [] = Unit
IsWalk (s ∷ []) = Unit
IsWalk (s ∷ t ∷ rest) = (s ⟶ t) × IsWalk (t ∷ rest)

IsWalk-append :
    (first : OptimizationState) (rest : List OptimizationState) (t : OptimizationState)
    → IsWalk (first ∷ rest)
    → last_or first rest ⟶ t
    → IsWalk (first ∷ rest ++ t ∷ [])
IsWalk-append first [] t walk edge = (edge, tt)
IsWalk-append first (s ∷ rest) t walk edge = (walk.0, IsWalk-append s rest t walk.1 edge)

-- A history is what was visited after `created`, and ends at the state of the machine.
pub record IsSound (m : OptimizationStateMachine) : Type 0 where
  pub later : List OptimizationState
  pub begins : m.history ≡ created ∷ later
  pub ends : last_or created later ≡ m.state
  pub walks : IsWalk (created ∷ later)
  pub gated : All (Visits m.history) (gates m.state)
  pub short : length m.history ≤ progress m.state + 1

fresh_machine-IsSound : IsSound fresh_machine
unfolding fresh_machine position same_state
fresh_machine-IsSound = record {
  later = [];
  begins = refl;
  ends = refl;
  walks = tt;
  gated = (refl, tt);
  short = omega arith;
}

extended-IsSound :
    (m : OptimizationStateMachine) (t : OptimizationState)
    → m.state ⟶ t
    → IsSound m
    → IsSound (record { state = t; history = m.history ++ t ∷ [] })
unfolding same_state
extended-IsSound m t edge sound = record {
  later = sound.later ++ t ∷ [];
  begins = ap (λ h. h ++ t ∷ []) sound.begins;
  ends = last_or-append created t sound.later;
  walks = IsWalk-append created sound.later t sound.walks (rw sound.ends edge);
  gated =
      gates_after (Visits (m.history ++ t ∷ [])) edge (Visits-new m.history t)
        (rw sound.begins refl)
        (All-map (Visits m.history) (Visits (m.history ++ t ∷ [])) (gates m.state)
          (λ s. Visits-kept m.history t s) sound.gated);
  short = omega (arith, length-append m.history (t ∷ []), progress-⟶ edge);
}

-- A request moves the machine along an edge of the lifecycle graph and appends the new state to its
-- history, or there is no such edge, the request is refused and nothing changes.
transition_outcomes :
    (m : OptimizationStateMachine) (t : OptimizationState)
    → ((m.state ⟶ t)
        × (transition m t ≡ (record { state = t; history = m.history ++ t ∷ [] }, moved_to t)))
      ⊎ ((¬ (m.state ⟶ t)) × (transition m t ≡ (m, invalid_state_transition m.state t)))
unfolding transition
transition_outcomes m t = elim (Bool-cases (validate_transition m.state t)) [
  | inl valid ↦ inl ((validate_transition-⟶ m.state t).0 valid, rw valid)
  | inr refused ↦ inr ((λ edge. cc ((validate_transition-⟶ m.state t).1 edge)), rw refused)
]

transition-IsSound :
    (m : OptimizationStateMachine) (t : OptimizationState) → IsSound m → IsSound (transition m t).0
transition-IsSound m t sound = elim (transition_outcomes m t) [
  | inl moved ↦ rw (moved.1) (extended-IsSound m t moved.0 sound)
  | inr kept ↦ rw (kept.1) sound
]

request_all-IsSound :
    (m : OptimizationStateMachine) (requests : List OptimizationState)
    → IsSound m
    → IsSound (request_all m requests)
unfolding request_all
request_all-IsSound m [] sound = sound
request_all-IsSound m (s ∷ requests) sound =
    request_all-IsSound (transition m s).0 requests (transition-IsSound m s sound)

-- Whatever is requested of a fresh machine, its history begins at `created`, follows edges of the
-- lifecycle graph, and ends at the state that the machine is in.
history-IsWalk :
    (requests : List OptimizationState)
    → let m = request_all fresh_machine requests in
      (later : List OptimizationState) × (m.history ≡ created ∷ later)
      × (last_or created later ≡ m.state)
      × IsWalk (created ∷ later)
history-IsWalk requests =
    let sound = request_all-IsSound fresh_machine requests fresh_machine-IsSound in
    (sound.later, sound.begins, sound.ends, sound.walks)

-- Whatever is requested, the history has every gate of the present state: a deployed, monitored or
-- reversed change was admitted, approved and deploying before, and a completed run has generated its
-- candidates.
pub history_passes_gates :
    (requests : List OptimizationState)
    → let m = request_all fresh_machine requests in All (Visits m.history) (gates m.state)
history_passes_gates requests =
    (request_all-IsSound fresh_machine requests fresh_machine-IsSound).gated

-- Whatever is requested, and however often, a machine visits at most fifteen states.
history_bounded :
    (requests : List OptimizationState) → length (request_all fresh_machine requests).history ≤ 15
history_bounded requests =
    omega (arith, (request_all-IsSound fresh_machine requests fresh_machine-IsSound).short)

refused_at_end : (s t : OptimizationState) → is_terminal s ≡ true → validate_transition s t ≡ false
unfolding validate_transition
refused_at_end s t h = ground arith

failing_allowed :
    (s : OptimizationState) → is_terminal s ≡ false → validate_transition s failed ≡ true
unfolding validate_transition
failing_allowed s h = ground arith

terminal_kept :
    (m : OptimizationStateMachine) (requests : List OptimizationState)
    → is_terminal m.state ≡ true
    → request_all m requests ≡ m
unfolding request_all transition
terminal_kept m [] h = refl
terminal_kept m (s ∷ requests) h = rw (refused_at_end m.state s h) (terminal_kept m requests h)

-- A machine in a terminal state stays as it is whatever is requested, and one in any other state can
-- be failed at once.
terminal_or_failable :
    (m : OptimizationStateMachine) (requests : List OptimizationState)
    → (is_terminal m.state ≡ true → request_all m requests ≡ m)
      × (is_terminal m.state ≡ false → (transition m failed).1 ≡ moved_to failed)
unfolding transition
terminal_or_failable m requests =
    (terminal_kept m requests, λ h. rw (failing_allowed m.state h) refl)
