-- ===== src/Production/QuerySettings/Success.antt =====
-- What a hint deployment writes to the ledger, and what one that returns has done.
use ai_driven_autonomous_no.Prelude.{
  ℕ, ◌≡◌, refl, sym, ap, ◌∙◌, ◌⊎◌, inl, inr, String, true, not, Option, none, some, List, [], ◌∷◌,
  ◌++◌, str_eq, if_cases, not-false,
}
use ai_driven_autonomous_no.Actions.{inverse_set_hint}
use ai_driven_autonomous_no.Autonomy.{approval_required}
use ai_driven_autonomous_no.Approvals.{Approval, ApprovalFlow, Result, ok, raise}
use ai_driven_autonomous_no.Ledger.{append, verify}
use ai_driven_autonomous_no.Ledger.Chain.{append-verify}
use ai_driven_autonomous_no.Adapter.{DatabaseAdapter, QuerySettingsIndexHint}
use ai_driven_autonomous_no.Production.{
  Plant, Canonical, Entry, hint_action, restore_action, prepared, applied,
}
use ai_driven_autonomous_no.Production.Executor.{Draws}
use ai_driven_autonomous_no.Production.QuerySettings.{
  QuerySettingsDeploymentRequest, QuerySettingsDeploymentResult, HintDeployment, deployed, refused,
  same_hint, same_optional, allowed_of, hint_of, settings_hash, is_some, current_hint,
  indexes_exist, evidence_of, add_entry, set_hint, finish_hint, apply_hint, hint_approved,
  deploy_hint,
}
use ai_driven_autonomous_no.Production.QuerySettings.Gates.{same_optional-eq}

hint_of-allowed_of : (h : Option QuerySettingsIndexHint) → hint_of (allowed_of h) ≡ h
unfolding hint_of allowed_of
hint_of-allowed_of none = refl
hint_of-allowed_of (some h) = refl

pub same_hint-eq : (x y : Option QuerySettingsIndexHint) → same_hint x y ≡ true → x ≡ y
unfolding same_hint
same_hint-eq x y h =
    sym (hint_of-allowed_of x) ∙ ap hint_of (same_optional-eq _ _ h) ∙ hint_of-allowed_of y

-- The hint that a rollback restores is the one that was read before.
pub prior-hint_of :
    (h : Option QuerySettingsIndexHint) (previous : Option (List String))
    → allowed_of h ≡ previous
    → hint_of previous ≡ h
prior-hint_of h previous e = ap hint_of (sym e) ∙ hint_of-allowed_of h

module _ {W : Type 0} (adapter : DatabaseAdapter W) (c : Canonical) where
  abbrev pub Verifies : List Entry → Type 0
  Verifies ledger = verify c.sha256 c.dump_entry ledger ≡ true

  -- What a deployment from the plant `p` that returned `d` has left in the plant `q`.
  pub record IsDeployed (p : Plant W) (request : QuerySettingsDeploymentRequest) (q : Plant W)
      (d : QuerySettingsDeploymentResult) : Type 0 where
    pub ledgered : q.ledger ≡ (p.ledger ++ d.prepared_entry ∷ []) ++ d.applied_entry ∷ []
    pub intended :
        d.prepared_entry.forward_action ≡ hint_action prepared request.target_id request.action
    pub done : d.applied_entry.forward_action ≡ hint_action applied request.target_id request.action
    pub invertible :
        d.applied_entry.inverse_action ≡ restore_action (inverse_set_hint request.action)
    pub in_place :
        current_hint adapter c q.world request.action
        ≡ hint_of (some request.action.allowed_indexes)
    pub prior :
        hint_of request.action.previous_allowed_indexes
        ≡ current_hint adapter c p.world request.action
    pub hashed :
        d.resulting_state_hash
        ≡ settings_hash c request.action (current_hint adapter c q.world request.action)

  -- What every hint deployment satisfies, by its result.
  abbrev pub Leaves : Plant W → QuerySettingsDeploymentRequest → Plant W × HintDeployment → Type 0
  Leaves p request (q, deployed d) = Verifies q.ledger × IsDeployed p request q d
  Leaves p request (q, refused e) =
      Verifies q.ledger
      × ((q.ledger ≡ p.ledger)
          ⊎ ((first : Entry) × (q.ledger ≡ p.ledger ++ first ∷ [])
              × (first.forward_action ≡ hint_action prepared request.target_id request.action)))

  module _ (p : Plant W) (request : QuerySettingsDeploymentRequest) (draws : Draws)
      (prior : hint_of request.action.previous_allowed_indexes
        ≡ current_hint adapter c p.world request.action) where
    abbrev before : Option QuerySettingsIndexHint
    before = current_hint adapter c p.world request.action

    finish_hint-Leaves :
        (q : Plant W) (first : Entry)
        → q.ledger ≡ p.ledger ++ first ∷ []
        → first.forward_action ≡ hint_action prepared request.target_id request.action
        → Verifies q.ledger
        → Leaves p request (finish_hint adapter c q draws request before first)
    unfolding finish_hint append
    finish_hint-Leaves q first grown intent v =
        let actual = current_hint adapter c q.world request.action in
        let evidence = evidence_of adapter c request applied before actual in
        let written =
          append-verify c.sha256 c.dump_entry q.ledger draws.second_id draws.second_at evidence v in
        let second : Entry =
          (add_entry adapter c q.ledger draws.second_id draws.second_at evidence).1 in
        if_cases (Leaves p request)
          (not (same_hint actual (hint_of (some request.action.allowed_indexes))))
          (λ bad. (v, inr (first, grown, intent)))
          (λ good. (
            written.0,
            record {
              ledgered = ap (λ l. l ++ second ∷ []) grown;
              intended = intent;
              done = refl;
              invertible = refl;
              in_place = same_hint-eq _ _ (not-false _ good);
              prior = prior;
              hashed = refl;
            },
          ))

    apply_hint-Leaves :
        (flow : ApprovalFlow)
        → Verifies p.ledger
        → Leaves p request
            (apply_hint adapter c (record p { approvals = flow }) draws request before)
    unfolding apply_hint append
    apply_hint-Leaves flow v =
        let evidence = evidence_of adapter c request prepared before before in
        let (ledger, first) = add_entry adapter c p.ledger draws.first_id draws.first_at evidence in
        let written =
          append-verify c.sha256 c.dump_entry p.ledger draws.first_id draws.first_at evidence v in
        let (world, returned) =
          set_hint adapter c p.world request.action
            (hint_of (some request.action.allowed_indexes)) in
        if_cases (Leaves p request) (not (indexes_exist adapter c p.world request.action))
          (λ missing. (v, inl refl))
          (λ there.
            if_cases (Leaves p request) returned
              (λ set.
                finish_hint-Leaves (record p { ledger = ledger; world = world; approvals = flow })
                  first refl refl written.0)
              (λ failed. (written.0, inr (first, refl, refl))))

    hint_approved-Leaves :
        (flow : ApprovalFlow) (r : Result Approval)
        → Verifies p.ledger
        → Leaves p request
            (hint_approved adapter c (record p { approvals = flow }) draws request before r)
    hint_approved-Leaves flow (raise e) v = (v, inl refl)
    hint_approved-Leaves flow (ok approval) v = apply_hint-Leaves flow v

  -- From a ledger that verifies every hint deployment leaves one that verifies. If it returns, the
  -- ledger has grown by the intent and the result, the result with the inverse action, the hint that
  -- the action names is in place, and the inverse action's hint is the one that was in place before.
  -- If it is refused the ledger is as it was, or has grown by the intent alone.
  pub deploy_hint-Leaves :
      (p : Plant W) (now : ℕ → ℕ) (draws : Draws) (request : QuerySettingsDeploymentRequest)
      → Verifies p.ledger
      → Leaves p request (deploy_hint adapter c p now draws request)
  unfolding deploy_hint
  deploy_hint-Leaves p now draws request v =
      let before' = current_hint adapter c p.world request.action in
      if_cases (Leaves p request)
        (not (str_eq (settings_hash c request.action before') request.expected_state_hash))
        (λ drift. (v, inl refl))
        (λ same.
          if_cases (Leaves p request)
            (not (same_optional (allowed_of before') request.action.previous_allowed_indexes))
            (λ other. (v, inl refl))
            (λ agreed.
              let prior = prior-hint_of before' _ (same_optional-eq _ _ (not-false _ agreed)) in
              if_cases (Leaves p request)
                (approval_required request.deployment_mode "SET_QUERY_SETTINGS_INDEX_HINT"
                  (is_some before'))
                (λ needed. hint_approved-Leaves p request draws prior _ _ v)
                (λ waived. apply_hint-Leaves p request draws prior p.approvals v)))
