-- ===== src/Sandbox/Isolation.antt =====
-- What a completed evaluation has been checked against.
use ai_driven_autonomous_no.Prelude.{
  ℕ, ◌+◌, ◌≤◌, ◌≡◌, ◌≢◌, refl, ℤ, pos, negsuc, ◌⊎◌, inl, inr, String, true, false, not, Option,
  none, some, str_eq, eq_iff, arith, if_cases, not-false, and_true,
}
use ai_driven_autonomous_no.Actions.{CreateIndexAction}
use ai_driven_autonomous_no.Adapter.{DatabaseAdapter}
use ai_driven_autonomous_no.Production.{index_spec}
use ai_driven_autonomous_no.Sandbox.{
  SandboxStatus, completed, failed, rejected_target_separation, rejected_resource_budget,
  invalid_evaluation_state, EvaluationState, ResourceBudget, Evaluation, returned, raised,
  Callbacks, rejected, is_isolated, exceeds, clean_up, measure, within_budget, when_copied,
  evaluate,
}

module _ {W : Type 0} (adapter : DatabaseAdapter W) (calls : Callbacks W)
    (candidate : CreateIndexAction) where
  -- A copy that is equivalent and on another topology, and an index within the budget.
  pub record IsJustified (s : EvaluationState) (budget : ResourceBudget) : Type 0 where
    pub equivalent : s.source_dataset_fingerprint ≡ s.evaluation_dataset_fingerprint
    pub separate : s.source_topology_identity ≢ s.evaluation_topology_identity
    pub size : ℕ
    pub estimated : calls.estimate_index_bytes candidate ≡ some (pos size)
    pub small : size ≤ budget.maximum_index_bytes
    pub headroom : size + budget.minimum_free_disk_bytes ≤ s.free_disk_bytes

  -- An evaluation completed only with what justifies it; a raised one has no result.
  abbrev pub IsSound : Type 0 → W × Evaluation → Type 0
  IsSound justified (w, raised) = Unit
  IsSound justified (w, returned r) = (r.status ≢ completed) ⊎ justified

  failed_result :
      (status : SandboxStatus) → status ≢ completed → (rejected status).status ≢ completed
  unfolding rejected
  failed_result status h = h

  justify :
      (s : EvaluationState) (budget : ResourceBudget) (o : ℤ)
      → calls.estimate_index_bytes candidate ≡ some o
      → is_isolated s ≡ true
      → exceeds s budget o ≡ false
      → IsJustified s budget
  unfolding exceeds is_isolated
  justify s budget (negsuc n) e iso fits = cc
  justify s budget (pos n) e iso fits =
      let (same, apart) =
        and_true (str_eq s.source_dataset_fingerprint s.evaluation_dataset_fingerprint) _ iso in
      record {
        equivalent = (eq_iff _ _).0 same;
        separate = λ met.
            let equal = (eq_iff s.source_topology_identity s.evaluation_topology_identity).1 met in
            ground arith;
        size = n;
        estimated = e;
        small = ground arith;
        headroom = ground arith;
      }

  measure-IsSound : (J : Type 0) (w : W) → J → IsSound J (measure adapter calls w candidate)
  unfolding measure clean_up
  measure-IsSound J w j =
      let (applied, created) =
        adapter.create_index w (record { collection = candidate.collection })
          (index_spec candidate) in
      let (used, result) = calls.benchmark applied in
      let (after, dropped) =
        adapter.drop_index used (record { collection = candidate.collection })
          candidate.index_name in
      if_cases (IsSound J) created
        (λ made. if_cases (λ e. IsSound J (after, e)) dropped (λ clean. inr j) (λ stuck. tt))
        (λ not_made. inl (failed_result failed (λ e. cc)))

  within_budget-IsSound :
      (w : W) (budget : ResourceBudget) (s : EvaluationState) (o : Option ℤ)
      → calls.estimate_index_bytes candidate ≡ o
      → is_isolated s ≡ true
      → IsSound (IsJustified s budget) (within_budget adapter calls w candidate budget s o)
  within_budget-IsSound w budget s none e iso = tt
  within_budget-IsSound w budget s (some o) e iso =
      if_cases (IsSound (IsJustified s budget)) (exceeds s budget o)
        (λ over. inl (failed_result rejected_resource_budget (λ e. cc)))
        (λ fits. measure-IsSound (IsJustified s budget) w (justify s budget o e iso fits))

  weaken : (J K : Type 0) (r : W × Evaluation) → (J → K) → IsSound J r → IsSound K r
  weaken J K (w, raised) f h = tt
  weaken J K (w, returned r) f (inl other) = inl other
  weaken J K (w, returned r) f (inr j) = inr (f j)

  -- The copied state of a target, with what justifies an evaluation of it.
  abbrev pub IsCertified : W → (monitored evaluation : String) → ResourceBudget → Type 0
  IsCertified w monitored evaluation budget =
      (monitored ≢ evaluation)
      × ((s : EvaluationState) × ((calls.copy_and_verify w).1 ≡ some s) × IsJustified s budget)

  when_copied-IsSound :
      (w v : W) (monitored evaluation : String) (budget : ResourceBudget)
      (o : Option EvaluationState)
      → monitored ≢ evaluation
      → (calls.copy_and_verify w).1 ≡ o
      → IsSound
          (IsCertified w monitored evaluation budget)
          (when_copied adapter calls v candidate budget o)
  when_copied-IsSound w v monitored evaluation budget none differ e = tt
  when_copied-IsSound w v monitored evaluation budget (some s) differ e =
      if_cases (IsSound (IsCertified w monitored evaluation budget)) (not (is_isolated s))
        (λ shared. inl (failed_result invalid_evaluation_state (λ e. cc)))
        (λ isolated.
          weaken (IsJustified s budget) (IsCertified w monitored evaluation budget)
            (within_budget adapter calls v candidate budget s
              (calls.estimate_index_bytes candidate))
            (λ j. (differ, (s, e, j)))
            (within_budget-IsSound v budget s _ refl (not-false _ isolated)))

  -- An evaluation that returns with the status COMPLETED was made on another target than the monitored
  -- one, on a copy with the source's dataset fingerprint and another topology, and of an index whose
  -- estimated size keeps within the budget and leaves the disk its headroom.
  pub evaluate-IsSound :
      (w : W) (monitored evaluation : String) (budget : ResourceBudget)
      → IsSound
          (IsCertified w monitored evaluation budget)
          (evaluate adapter calls w monitored evaluation candidate budget)
  unfolding evaluate
  evaluate-IsSound w monitored evaluation budget =
      if_cases (IsSound (IsCertified w monitored evaluation budget)) (str_eq monitored evaluation)
        (λ same. inl (failed_result rejected_target_separation (λ e. cc)))
        (λ other.
          when_copied-IsSound w _ monitored evaluation budget _
            (λ met. let equal = (eq_iff monitored evaluation).1 met in cc) refl)
