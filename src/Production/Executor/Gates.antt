-- ===== src/Production/Executor/Gates.antt =====
-- A deployment fails closed: nothing is written before every gate has passed.
use ai_driven_autonomous_no.Prelude.{
  ℕ, ◌≤◌, ◌<◌, ◌≡◌, refl, ◌⊎◌, inl, inr, true, false, not, ◌||◌, str_eq, eq_iff, arith, if_cases,
  not-false,
}
use ai_driven_autonomous_no.Admission.{AdmissionStatus, admitted, is_admitted}
use ai_driven_autonomous_no.Autonomy.{approval_required}
use ai_driven_autonomous_no.Approvals.{
  Approval, ApprovalFlow, Result, ok, raise, approved, require_current_approval,
}
use ai_driven_autonomous_no.Approvals.Currency.{IsKeyed, require_current_approval-IsCurrent}
use ai_driven_autonomous_no.Adapter.{DatabaseAdapter}
use ai_driven_autonomous_no.Production.{
  Plant, Canonical, TargetState, current_state, index_state, state_hash,
}
use ai_driven_autonomous_no.Production.Executor.{
  DeploymentRequest, DeploymentError, Deployment, Draws, refused, state_drift, namespace_absent,
  index_exists, approval_refused, not_eligible, index_present, state_of, deploy_approved,
  after_approval, deploy,
}

admitted_of : (s : AdmissionStatus) → is_admitted s ≡ true → s ≡ admitted
unfolding is_admitted
admitted_of s h = ground arith

module _ {W : Type 0} (adapter : DatabaseAdapter W) (c : Canonical) where
  abbrev found : W → DeploymentRequest → TargetState
  found w request = current_state adapter w request.action.database request.action.collection

  -- The state that the request was made for is still there, with the collection and not the index.
  pub record IsReady (w : W) (request : DeploymentRequest) : Type 0 where
    pub verified : state_hash c (index_state (found w request)) ≡ request.expected_state_hash
    pub exists : (found w request).namespace_exists ≡ true
    pub absent : index_present (found w request) request.action ≡ false

  -- Neither the target nor the ledger was written, and the request is refused.
  pub record IsUntouched (p : Plant W) (r : Plant W × Deployment) : Type 0 where
    pub same_world : r.0.world ≡ p.world
    pub same_ledger : r.0.ledger ≡ p.ledger
    pub error : DeploymentError
    pub is_refused : r.1 ≡ refused error

  deploy_approved_gates :
      (p : Plant W) (draws : Draws) (request : DeploymentRequest)
      → IsUntouched p (deploy_approved adapter c p draws request) ⊎ IsReady p.world request
  unfolding deploy_approved
  deploy_approved_gates p draws request =
      let before = state_of adapter c p request.action in
      let P = λ (r : Plant W × Deployment). IsUntouched p r ⊎ IsReady p.world request in
      let untouched : (e : DeploymentError) → P (p, refused e) =
        λ e. inl (record { same_world = refl; same_ledger = refl; error = e; is_refused = refl }) in
      if_cases P (not (str_eq (state_hash c (index_state before)) request.expected_state_hash))
        (λ drift. untouched state_drift)
        (λ same.
          if_cases P (not before.namespace_exists) (λ gone. untouched namespace_absent)
            (λ there.
              if_cases P (index_present before request.action) (λ taken. untouched index_exists)
                (λ free. inr (record {
                  verified = (eq_iff _ _).0 (not-false _ same);
                  exists = not-false _ there;
                  absent = free;
                }))))

  -- Every gate of `deploy`. Either no approval is required, or one was granted, for this action,
  -- target and evidence, and it expires after `since`.
  pub record IsCleared (p : Plant W) (since : ℕ) (request : DeploymentRequest) : Type 0 where
    pub was_admitted : request.admission_status ≡ admitted
    pub was_eligible : request.production_eligible ≡ true
    pub was_approved :
        (approval_required request.deployment_mode "CREATE_INDEX" false ≡ false)
        ⊎ ((a : Approval) × (a.action_id ≡ request.action_id)
            × (a.target_id ≡ request.target_id)
            × (a.evidence_hash ≡ request.evidence_hash)
            × (a.status ≡ approved)
            × (since < a.expires_at))
    pub ready : IsReady p.world request

  module _ (p : Plant W) (now : ℕ → ℕ) (draws : Draws) (request : DeploymentRequest) (since : ℕ)
      (keyed : IsKeyed p.approvals) (later : (i : ℕ) → since ≤ now i) where
    abbrev granted : Result Approval
    granted =
        (require_current_approval p.approvals now request.action_id request.evidence_hash
          request.target_id).1

    after_approval_gates :
        (flow : ApprovalFlow) (r : Result Approval)
        → granted ≡ r
        → request.admission_status ≡ admitted
        → request.production_eligible ≡ true
        → IsUntouched p (after_approval adapter c (record p { approvals = flow }) draws request r)
          ⊎ IsCleared p since request
    unfolding after_approval
    after_approval_gates flow (raise e) h a el = inl (record {
      same_world = refl;
      same_ledger = refl;
      error = approval_refused e;
      is_refused = refl;
    })
    after_approval_gates flow (ok approval) h a el =
        elim (deploy_approved_gates (record p { approvals = flow }) draws request) [
          | inl kept ↦ inl (record {
            same_world = kept.same_world;
            same_ledger = kept.same_ledger;
            error = kept.error;
            is_refused = kept.is_refused;
          })
          | inr ready ↦ inr (record {
            was_admitted = a;
            was_eligible = el;
            was_approved =
                let (f, t, e, s, v) =
                  require_current_approval-IsCurrent p.approvals now since request.action_id
                    request.evidence_hash request.target_id approval keyed later h in
                inr (approval, f, t, e, s, v);
            ready = ready;
          })
        ]

    -- A deployment either is refused and writes neither the target nor the ledger, or every gate has
    -- passed: the admission was eligible and admitted, an approval where one is required is current
    -- after `since`, the state is the one that was verified, the collection is there and no index has
    -- the name. The flow's entries stand under their ids, and no reading of the clock precedes `since`.
    pub deploy_fails_closed :
        IsUntouched p (deploy adapter c p now draws request) ⊎ IsCleared p since request
    unfolding deploy
    deploy_fails_closed =
        let P = λ (r : Plant W × Deployment). IsUntouched p r ⊎ IsCleared p since request in
        if_cases P (not (is_admitted request.admission_status) || not request.production_eligible)
          (λ barred. inl (record {
            same_world = refl;
            same_ledger = refl;
            error = not_eligible;
            is_refused = refl;
          }))
          (λ eligible.
            let a : request.admission_status ≡ admitted =
              admitted_of request.admission_status (ground arith) in
            let el : request.production_eligible ≡ true = ground arith in
            if_cases P (approval_required request.deployment_mode "CREATE_INDEX" false)
              (λ needed. after_approval_gates _ granted refl a el)
              (λ waived. elim (deploy_approved_gates p draws request) [
                | inl kept ↦ inl kept
                | inr ready ↦ inr (record {
                  was_admitted = a;
                  was_eligible = el;
                  was_approved = inl waived;
                  ready = ready;
                })
              ]))
