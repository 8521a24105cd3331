-- ===== src/Production/QuerySettings/Gates.antt =====
-- A hint deployment fails closed, and a hint that is there already is never replaced unapproved.
use ai_driven_autonomous_no.Prelude.{
  ℕ, ◌≤◌, ◌<◌, ◌≡◌, refl, ap, ◌⊎◌, inl, inr, String, true, false, not, Option, none, some, List, [],
  ◌∷◌, str_eq, eq_iff, eq_refl, and_true, if_cases, not-false,
}
use ai_driven_autonomous_no.Autonomy.{
  DeploymentMode, approval_controlled, full_autonomous, is_full_autonomous, approval_required,
}
use ai_driven_autonomous_no.Approvals.{
  Approval, ApprovalFlow, Result, ok, raise, approved, require_current_approval,
}
use ai_driven_autonomous_no.Approvals.Currency.{IsKeyed, require_current_approval-IsCurrent}
use ai_driven_autonomous_no.Adapter.{DatabaseAdapter, QuerySettingsIndexHint}
use ai_driven_autonomous_no.Production.{Plant, Canonical}
use ai_driven_autonomous_no.Production.Executor.{Draws}
use ai_driven_autonomous_no.Production.QuerySettings.{
  QuerySettingsDeploymentRequest, HintError, HintDeployment, refused, state_drift, prior_mismatch,
  indexes_missing, approval_refused, same_names, same_optional, allowed_of, settings_hash, is_some,
  current_hint, indexes_exist, apply_hint, hint_approved, deploy_hint,
}

pub same_names-eq : (xs ys : List String) → same_names xs ys ≡ true → xs ≡ ys
unfolding same_names
same_names-eq [] [] h = refl
same_names-eq [] (y ∷ ys) h = cc
same_names-eq (x ∷ xs) [] h = cc
same_names-eq (x ∷ xs) (y ∷ ys) h =
    let (e, rest) = and_true (str_eq x y) _ h in
    let tails = same_names-eq xs ys rest in let heads : x ≡ y = (eq_iff x y).0 e in cc

pub same_names_refl : (xs : List String) → same_names xs xs ≡ true
unfolding same_names
same_names_refl [] = refl
same_names_refl (x ∷ xs) = rw (eq_refl x, same_names_refl xs) refl

pub same_optional-eq : (x y : Option (List String)) → same_optional x y ≡ true → x ≡ y
unfolding same_optional
same_optional-eq none none h = refl
same_optional-eq (some xs) (some ys) h = ap some (same_names-eq xs ys h)
same_optional-eq none (some ys) h = cc
same_optional-eq (some xs) none h = cc

pub same_optional_refl : (x : Option (List String)) → same_optional x x ≡ true
unfolding same_optional
same_optional_refl none = refl
same_optional_refl (some xs) = same_names_refl xs

-- An approval is waived only in the autonomous mode, and only where there is no hint yet.
abbrev pub IsWaived : DeploymentMode → Option QuerySettingsIndexHint → Type 0
IsWaived mode before = (mode ≡ full_autonomous) × (before ≡ none)

IsWaived-of :
    (mode : DeploymentMode) (before : Option QuerySettingsIndexHint)
    → approval_required mode "SET_QUERY_SETTINGS_INDEX_HINT" (is_some before) ≡ false
    → IsWaived mode before
unfolding approval_required is_full_autonomous
IsWaived-of mode (some h) e = cc
IsWaived-of approval_controlled none e = cc
IsWaived-of full_autonomous none e = (refl, refl)

module _ {W : Type 0} (adapter : DatabaseAdapter W) (c : Canonical) where
  -- Neither the target nor the ledger was written, and the request is refused.
  pub record IsUntouched (p : Plant W) (r : Plant W × HintDeployment) : Type 0 where
    pub same_world : r.0.world ≡ p.world
    pub same_ledger : r.0.ledger ≡ p.ledger
    pub error : HintError
    pub is_refused : r.1 ≡ refused error

  abbrev untouched :
      {p : Plant W} (q : Plant W) (e : HintError)
      → q.world ≡ p.world
      → q.ledger ≡ p.ledger
      → IsUntouched p (q, refused e)
  untouched q e w l = record { same_world = w; same_ledger = l; error = e; is_refused = refl }

  abbrev pub IsApproved : QuerySettingsDeploymentRequest → ℕ → Type 0
  IsApproved request since =
      (a : Approval) × (a.action_id ≡ request.action_id)
      × (a.target_id ≡ request.target_id)
      × (a.evidence_hash ≡ request.evidence_hash)
      × (a.status ≡ approved)
      × (since < a.expires_at)

  -- Every gate of a hint deployment. `prior` makes the inverse of the action exact.
  pub record IsCleared (p : Plant W) (since : ℕ) (request : QuerySettingsDeploymentRequest)
      : Type 0 where
    pub verified :
        settings_hash c request.action (current_hint adapter c p.world request.action)
        ≡ request.expected_state_hash
    pub prior :
        allowed_of (current_hint adapter c p.world request.action)
        ≡ request.action.previous_allowed_indexes
    pub exist : indexes_exist adapter c p.world request.action ≡ true
    pub was_approved :
        IsWaived request.deployment_mode (current_hint adapter c p.world request.action)
        ⊎ IsApproved request since

  module _ (p : Plant W) (now : ℕ → ℕ) (draws : Draws) (request : QuerySettingsDeploymentRequest)
      (since : ℕ) (keyed : IsKeyed p.approvals) (later : (i : ℕ) → since ≤ now i) where
    abbrev before : Option QuerySettingsIndexHint
    before = current_hint adapter c p.world request.action

    abbrev granted : Result Approval
    granted =
        (require_current_approval p.approvals now request.action_id request.evidence_hash
          request.target_id).1

    apply_hint_gates :
        (flow : ApprovalFlow)
        → settings_hash c request.action before ≡ request.expected_state_hash
        → allowed_of before ≡ request.action.previous_allowed_indexes
        → IsWaived request.deployment_mode before ⊎ IsApproved request since
        → IsUntouched p (apply_hint adapter c (record p { approvals = flow }) draws request before)
          ⊎ IsCleared p since request
    unfolding apply_hint
    apply_hint_gates flow same prior agreed =
        if_cases (λ r. IsUntouched p r ⊎ IsCleared p since request)
          (not (indexes_exist adapter c p.world request.action))
          (λ missing. inl (untouched _ indexes_missing refl refl))
          (λ there. inr (record {
            verified = same;
            prior = prior;
            exist = not-false _ there;
            was_approved = agreed;
          }))

    hint_approved_gates :
        (flow : ApprovalFlow) (r : Result Approval)
        → granted ≡ r
        → settings_hash c request.action before ≡ request.expected_state_hash
        → allowed_of before ≡ request.action.previous_allowed_indexes
        → IsUntouched p
            (hint_approved adapter c (record p { approvals = flow }) draws request before r)
          ⊎ IsCleared p since request
    hint_approved_gates flow (raise e) h same prior =
        inl (untouched _ (approval_refused e) refl refl)
    hint_approved_gates flow (ok approval) h same prior =
        let (f, t, e, s, v) =
          require_current_approval-IsCurrent p.approvals now since request.action_id
            request.evidence_hash request.target_id approval keyed later h in
        apply_hint_gates flow same prior (inr (approval, f, t, e, s, v))

    -- A hint deployment either is refused and writes neither the target nor the ledger, or every gate
    -- has passed: the state is the verified one, the hint in place is the one that the inverse action
    -- restores, the named indexes exist, and an approval for this action, target and evidence is current
    -- after `since`, unless the mode is the autonomous one and no hint was there. The flow's entries
    -- stand under their ids, and no reading of the clock precedes `since`.
    pub deploy_hint_fails_closed :
        IsUntouched p (deploy_hint adapter c p now draws request) ⊎ IsCleared p since request
    unfolding deploy_hint
    deploy_hint_fails_closed =
        let P = λ (r : Plant W × HintDeployment). IsUntouched p r ⊎ IsCleared p since request in
        if_cases P
          (not (str_eq (settings_hash c request.action before) request.expected_state_hash))
          (λ drift. inl (untouched _ state_drift refl refl))
          (λ same.
            let same' = (eq_iff _ _).0 (not-false _ same) in
            if_cases P
              (not (same_optional (allowed_of before) request.action.previous_allowed_indexes))
              (λ other. inl (untouched _ prior_mismatch refl refl))
              (λ prior.
                let prior' = same_optional-eq _ _ (not-false _ prior) in
                if_cases P
                  (approval_required request.deployment_mode "SET_QUERY_SETTINGS_INDEX_HINT"
                    (is_some before))
                  (λ needed. hint_approved_gates _ granted refl same' prior')
                  (λ waived.
                    apply_hint_gates p.approvals same' prior'
                      (inl (IsWaived-of request.deployment_mode before waived)))))
