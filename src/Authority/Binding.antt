-- ===== src/Authority/Binding.antt =====
-- A bound action is one that the authority of its run covers, unchanged since it was decided.
use ai_driven_autonomous_no.Prelude.{
  ℕ, ◌≡◌, refl, ap, ◌⊎◌, inl, inr, String, Bool, true, false, not, ◌&&◌, Option, none, some, List,
  any, str_eq, eq_iff, eq_refl, arith, Option-cases,
}
use ai_driven_autonomous_no.Runs.Transition.{first_error}
use ai_driven_autonomous_no.Authority.{
  Digests, ApprovalRow, BoundRow, bound_to, not_bound, BindingError, binding_checks,
  binding_of_check, load_bound_action, authority_integrity_fingerprint, authority_facts,
  same_fingerprint, is_auto_eligible_action, is_autonomous, approves,
}

-- What a bound action rests on: the selected candidate is the one of the authority and admitted, its
-- fingerprint, the mode and the evidence are those that the authority was signed for, its action creates
-- an index, and it has all that autonomy asks for, or an approval that is current, by its authority.
pub record IsAuthorised (d : Digests) (b : BoundRow) (approvals : List ApprovalRow) (now : ℕ)
    : Type 0 where
  pub candidate : b.selected_candidate_id ≡ b.authority.authority_candidate_id
  pub fingerprint : b.bound_fingerprint ≡ some b.authority.authority_candidate_fingerprint
  pub creates : b.type_of_action ≡ "CREATE_INDEX"
  pub eligible : is_auto_eligible_action b.type_of_action ≡ true
  pub admitted : b.candidate_status ≡ "ADMITTED"
  pub mode : b.run_deployment_mode ≡ b.authority.authority_mode
  pub evidence :
      authority_integrity_fingerprint d (
        authority_facts d b.bound_run_id b.bound_environment b.authority b.bound_eligible_admission)
      ≡ b.authority.integrity_fingerprint
  pub autonomy :
      (str_eq b.authority.type_of_authority "AUTONOMOUS" ≡ false) ⊎ (is_autonomous b ≡ true)
  pub approval :
      (str_eq b.authority.type_of_authority "HUMAN_REQUIRED" ≡ false)
      ⊎ (any (approves b now) approvals ≡ true)

same_fingerprint_eq : (o : Option String) (f : String) → same_fingerprint o f ≡ true → o ≡ some f
unfolding same_fingerprint
same_fingerprint_eq none f h = cc
same_fingerprint_eq (some own) f h = ap (λ s. some s) ((eq_iff own f).0 h)

either : (a b : Bool) → (a && not b) ≡ false → (a ≡ false) ⊎ (b ≡ true)
either true b h = inr (ground arith)
either false b h = inl refl

checked-IsAuthorised :
    (d : Digests) (b : BoundRow) (approvals : List ApprovalRow) (now : ℕ)
    → first_error (binding_checks d b approvals now) ≡ none
    → IsAuthorised d b approvals now
unfolding first_error binding_checks
checked-IsAuthorised d b approvals now h = record {
  candidate = (eq_iff _ _).0 (ground arith);
  fingerprint = same_fingerprint_eq _ _ (ground arith);
  creates = (eq_iff _ _).0 (ground arith);
  eligible = ground arith;
  admitted = (eq_iff _ _).0 (ground arith);
  mode = (eq_iff _ _).0 (ground arith);
  evidence = (eq_iff _ _).0 (ground arith);
  autonomy = either _ _ (ground arith);
  approval = either _ _ (ground arith);
}

eq_same_fingerprint : (o : Option String) (f : String) → o ≡ some f → same_fingerprint o f ≡ true
unfolding same_fingerprint
eq_same_fingerprint o f e = rw e (eq_refl f)

passes : (a b : Bool) → (a ≡ false) ⊎ (b ≡ true) → (a && not b) ≡ false
passes a b (inl h) = rw h refl
passes true b (inr h) = rw h refl
passes false b (inr h) = refl

authorised-checked :
    (d : Digests) (b : BoundRow) (approvals : List ApprovalRow) (now : ℕ)
    → IsAuthorised d b approvals now
    → first_error (binding_checks d b approvals now) ≡ none
unfolding first_error binding_checks
authorised-checked d b approvals now h =
    let signed = authority_integrity_fingerprint d (
      authority_facts d b.bound_run_id b.bound_environment b.authority
        b.bound_eligible_admission) in
    rw
      (
        (eq_iff b.selected_candidate_id b.authority.authority_candidate_id).1 h.candidate,
        eq_same_fingerprint b.bound_fingerprint b.authority.authority_candidate_fingerprint
            h.fingerprint,
        (eq_iff b.type_of_action "CREATE_INDEX").1 h.creates,
        h.eligible,
        (eq_iff b.candidate_status "ADMITTED").1 h.admitted,
        (eq_iff b.run_deployment_mode b.authority.authority_mode).1 h.mode,
        (eq_iff signed b.authority.integrity_fingerprint).1 h.evidence,
        passes (str_eq b.authority.type_of_authority "AUTONOMOUS") (is_autonomous b) h.autonomy,
        passes (str_eq b.authority.type_of_authority "HUMAN_REQUIRED")
            (any (approves b now) approvals) h.approval,
      )
      refl

unauthorised :
    (d : Digests) (b : BoundRow) (approvals : List ApprovalRow) (now : ℕ) (error : BindingError)
    → first_error (binding_checks d b approvals now) ≡ some error
    → ¬ IsAuthorised d b approvals now
unauthorised d b approvals now error raised h = cc (authorised-checked d b approvals now h)

-- A joined row is bound exactly where its deployment is authorised: the candidate, its fingerprint, the
-- mode and the evidence are those that the authority was signed for, the candidate is admitted, its
-- action creates an index, and what autonomy asks for holds or an approval is current, by the type of
-- the authority. Otherwise an error is raised.
pub load_bound_action_outcomes :
    (d : Digests) (b : BoundRow) (approvals : List ApprovalRow) (now : ℕ)
    → (IsAuthorised d b approvals now × (load_bound_action d (some b) approvals now ≡ bound_to b))
      ⊎ ((¬ IsAuthorised d b approvals now)
          × ((error : BindingError) × (load_bound_action d (some b) approvals now
                ≡ not_bound error)))
unfolding load_bound_action binding_of_check
load_bound_action_outcomes d b approvals now =
    elim (Option-cases (first_error (binding_checks d b approvals now))) [
      | inl clear ↦ inl (checked-IsAuthorised d b approvals now clear, rw clear refl)
      | inr (error, raised) ↦
          inr (unauthorised d b approvals now error raised, (error, rw raised refl))
    ]
