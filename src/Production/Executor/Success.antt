-- ===== src/Production/Executor/Success.antt =====
-- What a deployment writes to the ledger, and what one that returns has done.
use ai_driven_autonomous_no.Prelude.{
  ℕ, ◌≡◌, refl, ap, ◌⊎◌, inl, inr, true, false, not, ◌||◌, List, [], ◌∷◌, ◌++◌, str_eq, Bool-cases,
  if_cases,
}
use ai_driven_autonomous_no.Actions.{inverse_create}
use ai_driven_autonomous_no.Admission.{is_admitted}
use ai_driven_autonomous_no.Autonomy.{approval_required}
use ai_driven_autonomous_no.Approvals.{Approval, Result, ok, raise}
use ai_driven_autonomous_no.Ledger.{append, verify}
use ai_driven_autonomous_no.Ledger.Chain.{append-verify}
use ai_driven_autonomous_no.Adapter.{DatabaseAdapter}
use ai_driven_autonomous_no.Production.{
  Plant, Canonical, Entry, TargetState, index_state, index_action, drop_action, prepared, applied,
  index_spec, state_hash, index_fingerprint,
}
use ai_driven_autonomous_no.Production.Executor.{
  DeploymentRequest, DeploymentResult, DeploymentError, Deployment, Draws, deployed, refused,
  state_drift, namespace_absent, index_exists, index_present, state_of, verify_applied, add_entry,
  evidence_of, finish_deployment, apply_change, deploy_approved, after_approval, deploy,
}

module _ {W : Type 0} (adapter : DatabaseAdapter W) (c : Canonical) where
  abbrev pub Verifies : List Entry → Type 0
  Verifies ledger = verify c.sha256 c.dump_entry ledger ≡ true

  -- What a deployment that returned `d` has left in the plant `q`, when it began with a ledger.
  pub record IsDeployed (ledger : List Entry) (request : DeploymentRequest) (q : Plant W)
      (d : DeploymentResult) : Type 0 where
    pub ledgered : q.ledger ≡ (ledger ++ d.prepared_entry ∷ []) ++ d.applied_entry ∷ []
    pub intended :
        d.prepared_entry.forward_action
        ≡ index_action prepared request.target_id
            (index_fingerprint c (index_spec request.action))
            request.action
    pub done :
        d.applied_entry.forward_action
        ≡ index_action applied request.target_id
            (index_fingerprint c (index_spec request.action))
            request.action
    pub invertible : d.applied_entry.inverse_action ≡ drop_action (inverse_create request.action)
    pub present : verify_applied (state_of adapter c q request.action) request.action ≡ true
    pub recorded : d.applied_entry.after_state ≡ index_state (state_of adapter c q request.action)
    pub hashed :
        d.resulting_state_hash ≡ state_hash c (index_state (state_of adapter c q request.action))

  -- What every deployment satisfies, by its result.
  abbrev pub Leaves : List Entry → DeploymentRequest → Plant W × Deployment → Type 0
  Leaves ledger request (q, deployed d) = Verifies q.ledger × IsDeployed ledger request q d
  Leaves ledger request (q, refused e) =
      Verifies q.ledger
      × ((q.ledger ≡ ledger)
          ⊎ ((first : Entry) × (q.ledger ≡ ledger ++ first ∷ [])
              × (first.forward_action
                  ≡ index_action prepared request.target_id
                      (index_fingerprint c (index_spec request.action)) request.action)))

  finish_deployment-Leaves :
      (p : Plant W) (draws : Draws) (request : DeploymentRequest) (before : TargetState)
      (first : Entry) (ledger : List Entry)
      → p.ledger ≡ ledger ++ first ∷ []
      → first.forward_action
        ≡ index_action prepared request.target_id
            (index_fingerprint c (index_spec request.action))
            request.action
      → Verifies p.ledger
      → Leaves ledger request (finish_deployment adapter c p draws request before first)
  unfolding finish_deployment append
  finish_deployment-Leaves p draws request before first ledger grown intent v =
      let after = state_of adapter c p request.action in
      let written =
        append-verify c.sha256 c.dump_entry p.ledger draws.second_id draws.second_at
          (evidence_of adapter c request applied before after) v in
      let second : Entry =
        (add_entry adapter c p.ledger draws.second_id draws.second_at
          (evidence_of adapter c request applied before after)).1 in
      elim (Bool-cases (verify_applied after request.action)) [
        | inr bad ↦ rw bad (v, inr (first, grown, intent))
        | inl good ↦ rw good (
          written.0,
          record {
            ledgered = ap (λ l. l ++ second ∷ []) grown;
            intended = intent;
            done = refl;
            invertible = refl;
            present = good;
            recorded = refl;
            hashed = refl;
          },
        )
      ]

  apply_change-Leaves :
      (p : Plant W) (draws : Draws) (request : DeploymentRequest) (before : TargetState)
      → Verifies p.ledger
      → Leaves p.ledger request (apply_change adapter c p draws request before)
  unfolding apply_change append
  apply_change-Leaves p draws request before v =
      let evidence = evidence_of adapter c request prepared before before in
      let (ledger, first) = add_entry adapter c p.ledger draws.first_id draws.first_at evidence in
      let written =
        append-verify c.sha256 c.dump_entry p.ledger draws.first_id draws.first_at evidence v in
      let (world, returned) =
        adapter.create_index p.world (record { collection = request.action.collection })
          (index_spec request.action) in
      elim (Bool-cases returned) [
        | inr failed ↦ rw failed (written.0, inr (first, refl, refl))
        | inl created ↦ rw created (
            finish_deployment-Leaves (record p { ledger = ledger; world = world }) draws request
              before first p.ledger refl refl written.0)
      ]

  deploy_approved-Leaves :
      (p : Plant W) (draws : Draws) (request : DeploymentRequest)
      → Verifies p.ledger
      → Leaves p.ledger request (deploy_approved adapter c p draws request)
  unfolding deploy_approved
  deploy_approved-Leaves p draws request v =
      let before = state_of adapter c p request.action in
      let kept : (e : DeploymentError) → Leaves p.ledger request (p, refused e) =
        λ e. (v, inl refl) in
      if_cases (Leaves p.ledger request)
        (not (str_eq (state_hash c (index_state before)) request.expected_state_hash))
        (λ drift. kept state_drift)
        (λ same.
          if_cases (Leaves p.ledger request) (not before.namespace_exists)
            (λ gone. kept namespace_absent)
            (λ there.
              if_cases (Leaves p.ledger request) (index_present before request.action)
                (λ taken. kept index_exists)
                (λ free. apply_change-Leaves p draws request before v)))

  after_approval-Leaves :
      (p : Plant W) (draws : Draws) (request : DeploymentRequest) (r : Result Approval)
      → Verifies p.ledger
      → Leaves p.ledger request (after_approval adapter c p draws request r)
  unfolding after_approval
  after_approval-Leaves p draws request (raise e) v = (v, inl refl)
  after_approval-Leaves p draws request (ok approval) v = deploy_approved-Leaves p draws request v

  -- From a ledger that verifies every deployment leaves one that verifies. If it returns, the ledger
  -- has grown by the intent and the result, the result with the inverse action and the state that the
  -- target is in, and exactly one index has the name, with the keys of the action. If it is refused the
  -- ledger is as it was, or has grown by the intent alone.
  pub deploy-Leaves :
      (p : Plant W) (now : ℕ → ℕ) (draws : Draws) (request : DeploymentRequest)
      → Verifies p.ledger
      → Leaves p.ledger request (deploy adapter c p now draws request)
  unfolding deploy
  deploy-Leaves p now draws request v =
      if_cases (Leaves p.ledger request)
        (not (is_admitted request.admission_status) || not request.production_eligible)
        (λ barred. (v, inl refl))
        (λ eligible.
          if_cases (Leaves p.ledger request)
            (approval_required request.deployment_mode "CREATE_INDEX" false)
            (λ needed. after_approval-Leaves _ draws request _ v)
            (λ waived. deploy_approved-Leaves p draws request v))
