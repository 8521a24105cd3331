-- ===== src/Monitoring/Decisions.antt =====
-- `_decide` of backend/app/monitoring/post_deployment.py against what a deployment must not do, said of
-- the windows.
use ai_driven_autonomous_no.Prelude.{
  Any, ◌≡◌, refl, sym, subst, ap, ◌∙◌, ◌↔◌, ◌⊎◌, inl, inr, ℕ, ◌≤◌, ◌<◌, Bool, true, false, not,
  ◌&&◌, ◌||◌, Option, some, none, List, All, any, map, length, ltb, and_true, arith,
}
use ai_driven_autonomous_no.Prelude.Options.{◌>>=◌, >>=-eq-some}
use mathlib.Core.Option.{some-injective}
use ai_driven_autonomous_no.Monitoring.Records.{
  MonitorNumbers, MonitoringPolicy, MonitoringWindow, MonitoringDecision, rollback_required,
}
use ai_driven_autonomous_no.Monitoring.Decision.{
  last_items, highest, errors_of, timeouts_of, baseline_p99, reaches, decision_of, last_distance,
  decide_monitoring,
}
use ai_driven_autonomous_no.Monitoring.Windows.{
  any-Any, ltb_iff, or_iff, passes_in_last, highest_below, highest_some,
}

-- The causes of a required rollback.
abbrev IsRequired : MonitoringDecision → Type 0
IsRequired d =
    (d.catastrophic_p99 ≡ true)
    ⊎ ((d.new_errors ≡ true)
        ⊎ ((d.new_timeouts ≡ true)
            ⊎ ((d.replica_unhealthy ≡ true)
                ⊎ ((d.sustained_protected_regression ≡ true) × (d.workload_comparable ≡ true)))))

IsRequired-iff : (d : MonitoringDecision) → (rollback_required d ≡ true) ↔ IsRequired d
unfolding rollback_required
IsRequired-iff d =
    let lasting = d.sustained_protected_regression && d.workload_comparable in
    let fourth = or_iff d.replica_unhealthy lasting in
    let third = or_iff d.new_timeouts (d.replica_unhealthy || lasting) in
    let second = or_iff d.new_errors (d.new_timeouts || (d.replica_unhealthy || lasting)) in
    let first =
      or_iff d.catastrophic_p99
        (d.new_errors || (d.new_timeouts || (d.replica_unhealthy || lasting))) in
    (
      (λ h. elim (first.0 h) [
        | inl c ↦ inl c
        | inr h ↦ inr (elim (second.0 h) [
          | inl c ↦ inl c
          | inr h ↦ inr (elim (third.0 h) [
            | inl c ↦ inl c
            | inr h ↦ inr (elim (fourth.0 h) [ inl c ↦ inl c | inr h ↦ inr (and_true _ _ h) ])
          ])
        ])
      ]),
      elim [
        | inl c ↦ first.1 (inl c)
        | inr (inl c) ↦ first.1 (inr (second.1 (inl c)))
        | inr (inr (inl c)) ↦ first.1 (inr (second.1 (inr (third.1 (inl c)))))
        | inr (inr (inr (inl c))) ↦
            first.1 (inr (second.1 (inr (third.1 (inr (fourth.1 (inl c)))))))
        | inr (inr (inr (inr (c, near)))) ↦
            first.1
              (inr (second.1 (inr (third.1 (inr (fourth.1 (inr (ground (arith, c, near)))))))))
      ],
    )

-- Where the first two calls return, only the last one can raise.
only_last :
    {A B C : Type 0} (first second : Option A) (last : Option B) (make : A → A → B → C)
    → ¬ (first ≡ none)
    → ¬ (second ≡ none)
    → (first >>= λ x. second >>= λ y. last >>= λ z. some (make x y z)) ≡ none
    → last ≡ none
only_last none second last make given given' h = elim (given refl) [ ]
only_last (some x) none last make given given' h = elim (given' refl) [ ]
only_last (some x) (some y) none make given given' h = refl
only_last (some x) (some y) (some z) make given given' h = cc

module _ {F : Type 0} (n : MonitorNumbers F) (p : MonitoringPolicy F)
    (baseline observed : List (MonitoringWindow F)) where
  -- The last workloads are closer than the threshold.
  abbrev pub IsComparable : Type 0
  IsComparable =
      (distance : F) × (last_distance n baseline observed ≡ some distance)
      × (n.lt distance p.workload_tvd_threshold ≡ true)

  abbrev pub Reaches : F → MonitoringWindow F → Type 0
  Reaches limit w = reaches n limit (baseline_p99 n baseline) w ≡ true

  pub data IsUnsafe : Type 0 where
    catastrophic : Any (Reaches p.catastrophic_p99_ratio) observed → IsUnsafe
    more_errors : Any (λ w. All (λ b. errors_of n b < errors_of n w) baseline) observed → IsUnsafe
    more_timeouts :
        Any (λ w. All (λ b. timeouts_of n b < timeouts_of n w) baseline) observed → IsUnsafe
    unhealthy : Any (λ w. w.replica_healthy ≡ false) observed → IsUnsafe
    sustained :
        p.sustained_regression_windows ≤ length observed
        → All
            (Reaches p.protected_p99_regression_ratio)
            (last_items p.sustained_regression_windows observed)
        → IsComparable
        → IsUnsafe

  exceeds_iff :
      (f : MonitoringWindow F → ℕ) (m : ℕ)
      → highest (map f baseline) ≡ some m
      → (any (λ w. ltb m (f w)) observed ≡ true) ↔ Any (λ w. All (λ b. f b < f w) baseline) observed
  exceeds_iff f m top =
      any-Any (λ w. ltb m (f w)) (λ w. All (λ b. f b < f w) baseline)
        (λ w.
          let below = highest_below f m (f w) baseline top in
          let (there, back) = ltb_iff m (f w) in ((λ h. below.0 (there h)), λ h. back (below.1 h)))
        observed

  not_iff : (b : Bool) → (not b ≡ true) ↔ (b ≡ false)
  not_iff b = ((λ h. ground arith), λ h. ground arith)

  same_iff : (b : Bool) → (b ≡ true) ↔ (b ≡ true)
  same_iff b = ((λ h. h), λ h. h)

  decision_unsafe :
      (e t : ℕ) (distance : F)
      → highest (map (errors_of n) baseline) ≡ some e
      → highest (map (timeouts_of n) baseline) ≡ some t
      → last_distance n baseline observed ≡ some distance
      → (rollback_required (decision_of n p baseline observed e t distance) ≡ true) ↔ IsUnsafe
  unfolding rollback_required decision_of
  decision_unsafe e t distance top_errors top_timeouts apart =
      let base = baseline_p99 n baseline in
      let k = p.sustained_regression_windows in
      let d = decision_of n p baseline observed e t distance in
      let reached =
        any-Any (reaches n p.catastrophic_p99_ratio base) (Reaches p.catastrophic_p99_ratio)
          (λ w. same_iff _) observed in
      let erring = exceeds_iff (errors_of n) e top_errors in
      let late = exceeds_iff (timeouts_of n) t top_timeouts in
      let ill =
        any-Any (λ w. not w.replica_healthy) (λ w. w.replica_healthy ≡ false)
          (λ w. not_iff w.replica_healthy) observed in
      let slow = passes_in_last (reaches n p.protected_p99_regression_ratio base) k observed in
      let required = IsRequired-iff d in
      (
        (λ h. elim (required.0 h) [
          | inl c ↦ catastrophic (reached.0 c)
          | inr (inl c) ↦ more_errors (erring.0 c)
          | inr (inr (inl c)) ↦ more_timeouts (late.0 c)
          | inr (inr (inr (inl c))) ↦ unhealthy (ill.0 c)
          | inr (inr (inr (inr (c, near)))) ↦
              let (enough, every) = slow.0 c in sustained enough every (distance, apart, near)
        ]),
        elim [
          | catastrophic c ↦ required.1 (inl (reached.1 c))
          | more_errors c ↦ required.1 (inr (inl (erring.1 c)))
          | more_timeouts c ↦ required.1 (inr (inr (inl (late.1 c))))
          | unhealthy c ↦ required.1 (inr (inr (inr (inl (ill.1 c)))))
          | sustained enough every (other, found, near) ↦ required.1 (
              inr (
                inr (
                  inr (
                    inr (
                      slow.1 (enough, every),
                      subst (λ x. n.lt x p.workload_tvd_threshold ≡ true)
                          (some-injective _ _ (sym found ∙ apart)) near,
                    )))))
        ],
      )

  -- What a decision was made of.
  decided_of :
      (d : MonitoringDecision)
      → decide_monitoring n p baseline observed ≡ some d
      → (e : ℕ) × (t : ℕ) × (distance : F) × (highest (map (errors_of n) baseline) ≡ some e)
        × (highest (map (timeouts_of n) baseline) ≡ some t)
        × (last_distance n baseline observed ≡ some distance)
        × (decision_of n p baseline observed e t distance ≡ d)
  unfolding decide_monitoring
  decided_of d h =
      let (e, top_errors, h₁) = >>=-eq-some _ _ h in
      let (t, top_timeouts, h₂) = >>=-eq-some _ _ h₁ in
      let (distance, apart, h₃) = >>=-eq-some _ _ h₂ in
      (e, t, distance, top_errors, top_timeouts, apart, some-injective _ _ h₃)

  pub decide_unsafe :
      (d : MonitoringDecision)
      → decide_monitoring n p baseline observed ≡ some d
      → (rollback_required d ≡ true) ↔ IsUnsafe
  decide_unsafe d h =
      let (e, t, distance, top_errors, top_timeouts, apart, made) = decided_of d h in
      subst (λ d. (rollback_required d ≡ true) ↔ IsUnsafe) made
        (decision_unsafe e t distance top_errors top_timeouts apart)

  shift_of :
      (e t : ℕ) (distance : F)
      → (decision_of n p baseline observed e t distance).workload_shift
        ≡ not (n.lt distance p.workload_tvd_threshold)
  unfolding decision_of
  shift_of e t distance = refl

  -- The shift that a decision reports is the lack of a comparable workload.
  pub decide_shift :
      (d : MonitoringDecision)
      → decide_monitoring n p baseline observed ≡ some d
      → (d.workload_shift ≡ false → IsComparable) × (d.workload_shift ≡ true → ¬ IsComparable)
  decide_shift d h =
      let (e, t, distance, top_errors, top_timeouts, apart, made) = decided_of d h in
      let shift : d.workload_shift ≡ not (n.lt distance p.workload_tvd_threshold) =
        ap (λ d. d.workload_shift) (sym made) ∙ shift_of e t distance in
      (
        (λ unshifted. (distance, apart, ground (arith, shift, unshifted))),
        λ far (other, found, near).
            let same : other ≡ distance = some-injective _ _ (sym found ∙ apart) in
            let near' = subst (λ x. n.lt x p.workload_tvd_threshold ≡ true) same near in
            ground (arith, shift, far, near'),
      )

  -- Every baseline with a window has highest counts, so that only the workloads can raise.
  pub decide_none :
      1 ≤ length baseline
      → decide_monitoring n p baseline observed ≡ none
      → last_distance n baseline observed ≡ none
  unfolding decide_monitoring
  decide_none some_window h =
      only_last (highest (map (errors_of n) baseline)) (highest (map (timeouts_of n) baseline))
        (last_distance n baseline observed) (decision_of n p baseline observed)
        (highest_some (errors_of n) baseline some_window)
        (highest_some (timeouts_of n) baseline some_window) h
