-- ===== src/Approvals/Currency.antt =====
-- What `require_current_approval` returns is current: it fits the action, the target and the
-- evidence, it is approved, and it has not expired at any time up to the clock's readings.
use ai_driven_autonomous_no.Prelude.{
  ℕ, suc, ◌≤◌, ◌<◌, ◌≡◌, refl, ap, ◌∙◌, ◌⊎◌, inl, inr, String, Bool, true, false, not, ◌&&◌, Option,
  none, some, List, [], ◌∷◌, leb, str_eq, eq_iff, filter, find, All, All-map, arith, if◌then◌else◌,
  Bool-cases, sym,
}
use ai_driven_autonomous_no.Prelude.Dicts.{Dict, put, values, All-put}
use ai_driven_autonomous_no.Approvals.{
  Approval, ApprovalStatus, ApprovalFlow, approved, stale, expired, is_approved, ok, review,
  review_all, or_required, is_current, require_current_approval,
}

-- Membership by recursion.
abbrev pub In : {A : Type 0} → A → List A → Type 0
In a [] = ⊥
In a (x ∷ xs) = (a ≡ x) ⊎ In a xs

-- Every entry of a flow's dictionary stands under its own id.
abbrev pub IsKeyed : ApprovalFlow → Type 0
IsKeyed flow = All (λ e. e.0 ≡ e.1.approval_id) flow.approvals

pub In-filter :
    (action_id : String) (xs : List Approval) (b : Approval)
    → In b xs
    → str_eq b.action_id action_id ≡ true
    → In b (filter (λ x. str_eq x.action_id action_id) xs)
In-filter action_id [] b m fits = m
In-filter action_id (x ∷ xs) b (inl same) fits =
    rw (ap (λ (y : Approval). str_eq y.action_id action_id) (sym same) ∙ fits) (inl same)
In-filter action_id (x ∷ xs) b (inr later) fits = elim (Bool-cases (str_eq x.action_id action_id)) [
  | inl e ↦ rw e (inr (In-filter action_id xs b later fits))
  | inr e ↦ rw e (In-filter action_id xs b later fits)
]

module _ (since : ℕ) (action_id : String) where
  -- An approved entry for the action is still valid at `since`, or waits for its review.
  IsReviewed : List Approval → String × Approval → Type 0
  IsReviewed todo (k, a) =
      (k ≡ a.approval_id)
      × (str_eq a.action_id action_id ≡ true
          → is_approved a.status ≡ true
          → (since < a.expires_at) ⊎ In a todo)

  module _ (t : ℕ) (evidence_hash : String) (a : Approval) (rest : List Approval)
      (later : since ≤ t) where
    skip_other :
        (j : String) (w : Approval)
        → str_eq j a.approval_id ≡ false
        → IsReviewed (a ∷ rest) (j, w)
        → IsReviewed rest (j, w)
    unfolding IsReviewed
    skip_other j w ne h = (
      h.0,
      λ fits ok'. elim (h.1 fits ok') [
        | inl fresh ↦ inl fresh
        | inr (inl same) ↦ absurd (no_key same)
        | inr (inr waits) ↦ inr waits
      ],
    )
      where
        no_key : w ≡ a → ⊥
        no_key same =
            cc ((eq_iff j a.approval_id).1 (h.0 ∙ ap (λ (x : Approval). x.approval_id) same))

    keep-IsReviewed :
        (is_approved a.status ≡ true → since < a.expires_at)
        → (j : String) (w : Approval) → IsReviewed (a ∷ rest) (j, w)
        → IsReviewed rest (j, w)
    unfolding IsReviewed
    keep-IsReviewed fresh j w h = (
      h.0,
      λ fits live. elim (h.1 fits live) [
        | inl valid ↦ inl valid
        | inr (inl same) ↦ inl (rw same (fresh (rw same at live)))
        | inr (inr waits) ↦ inr waits
      ],
    )

    review-IsReviewed :
        (d : Dict Approval)
        → All (IsReviewed (a ∷ rest)) d
        → All (IsReviewed rest) (review t evidence_hash a d)
    unfolding review IsReviewed
    review-IsReviewed d h = elim (Bool-cases (is_approved a.status && leb a.expires_at t)) [
      | inl late ↦ rw late (written expired refl)
      | inr on_time ↦
          rw on_time
            (elim (Bool-cases
              (is_approved a.status && not (str_eq a.evidence_hash evidence_hash))) [
                | inl drifted ↦ rw drifted (written stale refl)
                | inr same ↦ rw same (
                    All-map (IsReviewed (a ∷ rest)) (IsReviewed rest) d
                      (λ e. keep-IsReviewed (λ live. ground arith) e.0 e.1) h)
              ])
    ]
      where
        written :
            (s : ApprovalStatus)
            → is_approved s ≡ false
            → All (IsReviewed rest) (put d a.approval_id (record a { status = s }))
        written s dead =
            All-put (IsReviewed (a ∷ rest)) (IsReviewed rest) a.approval_id
              (record a { status = s }) d
              (λ j same. ((eq_iff j a.approval_id).0 same, λ fits live. cc)) skip_other h

  review_all-IsReviewed :
      (now : ℕ → ℕ) (later : (i : ℕ) → since ≤ now i) (i : ℕ) (evidence_hash : String)
      (todo : List Approval) (d : Dict Approval)
      → All (IsReviewed todo) d
      → All (IsReviewed []) (review_all now i evidence_hash todo d)
  unfolding review_all
  review_all-IsReviewed now later i evidence_hash [] d h = h
  review_all-IsReviewed now later i evidence_hash (a ∷ rest) d h =
      review_all-IsReviewed now later (if is_approved a.status then suc i else i) evidence_hash rest
        (review (now i) evidence_hash a d)
        (review-IsReviewed (now i) evidence_hash a rest (later i) d h)

  -- At the start every approved entry for the action waits among the matching ones.
  start-IsReviewed :
      (d e : Dict Approval)
      → ((a : Approval) → In a (values e) → In a (values d))
      → All (λ entry. entry.0 ≡ entry.1.approval_id) e
      → All (IsReviewed (filter (λ a. str_eq a.action_id action_id) (values d))) e
  unfolding IsReviewed
  start-IsReviewed d [] sub h = tt
  start-IsReviewed d ((k, a) ∷ e) sub h = (
    (h.0, λ fits live. inr (In-filter action_id (values d) a (sub a (inl refl)) fits)),
    start-IsReviewed d e (λ b m. sub b (inr m)) h.1,
  )

pub find-In :
    (test : Approval → Bool) (xs : List Approval) {a : Approval}
    → find test xs ≡ some a
    → (test a ≡ true) × In a xs
find-In test [] h = cc
find-In test (x ∷ xs) {a} h = elim (Bool-cases (test x)) [
  | inl e ↦ (rw (same e) at e, inl (sym (same e)))
  | inr e ↦ let found = find-In test xs (rw e at h) in (found.0, inr found.1)
]
  where
    same : test x ≡ true → x ≡ a
    same e = ground arith

pub All-In :
    (P : String × Approval → Type 0) (d : Dict Approval) {a : Approval}
    → In a (values d)
    → All P d
    → (k : String) × P (k, a)
All-In P [] m h = elim m [ ]
All-In P ((k, x) ∷ d) (inl same) h = (k, rw same h.0)
All-In P ((k, x) ∷ d) (inr later) h = All-In P d later h.1

pub or_required-ok : (o : Option Approval) {a : Approval} → or_required o ≡ ok a → o ≡ some a
or_required-ok none h = cc
or_required-ok (some b) h = cc

pub is_current_fields :
    (action_id evidence_hash target_id : String) (a : Approval)
    → is_current action_id evidence_hash target_id a ≡ true
    → (a.action_id ≡ action_id)
      × (a.target_id ≡ target_id)
      × (a.evidence_hash ≡ evidence_hash)
      × (a.status ≡ approved)
unfolding is_current
is_current_fields action_id evidence_hash target_id a h = ground (
  arith,
  eq_iff a.action_id action_id,
  eq_iff a.target_id target_id,
  eq_iff a.evidence_hash evidence_hash,
)

-- From a flow whose entries stand under their own ids, an approval that `require_current_approval`
-- returns is for the action, the target and the evidence that were asked for, it is approved, and it
-- expires after every time `since` that no reading of the clock precedes.
pub require_current_approval-IsCurrent :
    (flow : ApprovalFlow) (now : ℕ → ℕ) (since : ℕ) (action_id evidence_hash target_id : String)
    (a : Approval)
    → IsKeyed flow
    → ((i : ℕ) → since ≤ now i)
    → (require_current_approval flow now action_id evidence_hash target_id).1 ≡ ok a
    → (a.action_id ≡ action_id)
      × (a.target_id ≡ target_id)
      × (a.evidence_hash ≡ evidence_hash)
      × (a.status ≡ approved)
      × (since < a.expires_at)
unfolding require_current_approval IsReviewed is_approved
require_current_approval-IsCurrent flow now since action_id evidence_hash target_id a keyed later
      h =
    let d = flow.approvals in
    let todo = filter (λ x. str_eq x.action_id action_id) (values d) in
    let reviewed = review_all now 0 evidence_hash todo d in
    let found =
      find-In (is_current action_id evidence_hash target_id) (values reviewed) (
        or_required-ok (find (is_current action_id evidence_hash target_id) (values reviewed)) h) in
    let fits = is_current_fields action_id evidence_hash target_id a found.0 in
    let entry = All-In (IsReviewed since action_id []) reviewed found.1 (
      review_all-IsReviewed since action_id now later 0 evidence_hash todo d
        (start-IsReviewed since action_id d d (λ b m. m) keyed)) in
    (
      fits.0,
      fits.1,
      fits.2,
      fits.3,
      elim (entry.1.1 ((eq_iff a.action_id action_id).1 fits.0) (ap is_approved fits.3)) [
        | inl valid ↦ valid
        | inr none_left ↦ absurd none_left
      ],
    )
