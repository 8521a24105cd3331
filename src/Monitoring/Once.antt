-- ===== src/Monitoring/Once.antt =====
-- However often a run is monitored, each outcome of its candidate is experienced once.
use mathlib.Core.List.{append-nil, append_assoc}
use ai_driven_autonomous_no.Prelude.{
  ◌≡◌, refl, sym, ap, ◌∙◌, ◌+◌, ◌≤◌, String, Bool, true, false, Option, none, some, List, [], ◌∷◌,
  ◌++◌, any, filter, length, eq_iff, and_true, Bool-cases, inl, inr, arith,
}
use ai_driven_autonomous_no.Production.Rollback.{RollbackRequest, RollbackOutcome}
use ai_driven_autonomous_no.Monitoring.Records.{
  MonitorNumbers, MonitoringPolicy, MonitoringWindow, MonitoringResult, Monitored, monitored,
  monitor_raised,
}
use ai_driven_autonomous_no.Monitoring.Monitor.{monitor}
use ai_driven_autonomous_no.Monitoring.Durable.{
  AuditRow, ExperienceRow, MonitoringRows, outcome_of, is_experience, experience_row,
  with_experience, audit_row, record_result, recorded, durable_request, monitor_for_run,
  monitor_again,
}

-- No candidate has an outcome twice.
abbrev pub IsOnce : List ExperienceRow → Type 0
IsOnce experiences =
    (candidate outcome : String) → length (filter (is_experience candidate outcome) experiences) ≤ 1

module _ {A : Type 0} where
  length-filter-append :
      (test : A → Bool) (xs ys : List A)
      → length (filter test (xs ++ ys)) ≡ length (filter test xs) + length (filter test ys)
  length-filter-append test [] ys = omega arith
  length-filter-append test (x ∷ xs) ys = ground (arith, length-filter-append test xs ys)

  filter_none : (test : A → Bool) (xs : List A) → any test xs ≡ false → length (filter test xs) ≡ 0
  filter_none test [] h = refl
  filter_none test (x ∷ xs) h = ground (arith, filter_none test xs)

same_experience :
    (candidate outcome : String) (e : ExperienceRow)
    → is_experience candidate outcome e ≡ true
    → (e.experience_candidate_id ≡ candidate) × (e.experience_outcome ≡ outcome)
unfolding is_experience
same_experience candidate outcome e h =
    let (c, o) = and_true _ _ h in
    ((eq_iff e.experience_candidate_id candidate).0 c, (eq_iff e.experience_outcome outcome).0 o)

-- A new experience is the first of its candidate and outcome.
appended-IsOnce :
    (experiences : List ExperienceRow) (e : ExperienceRow)
    → any (is_experience e.experience_candidate_id e.experience_outcome) experiences ≡ false
    → IsOnce experiences
    → IsOnce (experiences ++ e ∷ [])
appended-IsOnce experiences e absent once candidate outcome =
    let test = is_experience candidate outcome in
    let sizes = length-filter-append test experiences (e ∷ []) in
    elim (Bool-cases (test e)) [
      | inl same ↦
          let (c, o) = same_experience candidate outcome e same in
          let empty = filter_none test experiences (rw (← c, ← o) absent) in
          ground (arith, sizes, empty, same)
      | inr other ↦ let few = once candidate outcome in ground (arith, sizes, few, other)
    ]

module _ {F : Type 0} where
  -- What calls keep of the rows: no experience is doubled, and nothing that was written is changed.
  pub record IsKept (rows left : MonitoringRows F) : Type 0 where
    pub once : IsOnce left.experiences
    pub candidate : left.artifact_candidate ≡ rows.artifact_candidate
    pub experienced : (more : List ExperienceRow) × (left.experiences ≡ rows.experiences ++ more)
    pub audited : (more : List (AuditRow F)) × (left.audits ≡ rows.audits ++ more)

  unchanged-IsKept : (rows : MonitoringRows F) → IsOnce rows.experiences → IsKept rows rows
  unchanged-IsKept rows once = record {
    once = once;
    candidate = refl;
    experienced = ([], sym (append-nil rows.experiences));
    audited = ([], sym (append-nil rows.audits));
  }

  IsKept-trans : (a b c : MonitoringRows F) → IsKept a b → IsKept b c → IsKept a c
  IsKept-trans a b c h k =
      let (first, was) = h.experienced in
      let (second, is) = k.experienced in
      let (earlier, audits) = h.audited in
      let (later, more) = k.audited in
      record {
        once = k.once;
        candidate = k.candidate ∙ h.candidate;
        experienced = (
          first ++ second,
          is ∙ ap (λ xs. xs ++ second) was ∙ append_assoc a.experiences first second,
        );
        audited = (
          earlier ++ later,
          more ∙ ap (λ xs. xs ++ later) audits ∙ append_assoc a.audits earlier later,
        );
      }

  experience_kept :
      (candidate : Option String) (r : MonitoringResult F) (experiences : List ExperienceRow)
      → IsOnce experiences
      → IsOnce (with_experience candidate r experiences)
        × ((more : List ExperienceRow) × (with_experience candidate r experiences
              ≡ experiences ++ more))
  unfolding with_experience experience_row
  experience_kept none r experiences once = (once, ([], sym (append-nil experiences)))
  experience_kept (some c) r experiences once =
      elim (Bool-cases (any (is_experience c (outcome_of r.status)) experiences)) [
        | inl known ↦ rw known (once, ([], sym (append-nil experiences)))
        | inr new ↦ rw new (
          appended-IsOnce experiences (experience_row c r) new once,
          (experience_row c r ∷ [], refl),
        )
      ]

  record_result-IsKept :
      (rows : MonitoringRows F) (r : MonitoringResult F)
      → IsOnce rows.experiences
      → IsKept rows (record_result rows r)
  unfolding record_result
  record_result-IsKept rows r once =
      let (still, more) = experience_kept rows.artifact_candidate r rows.experiences once in
      record {
        once = still;
        candidate = refl;
        experienced = more;
        audited = (audit_row r ∷ [], refl);
      }

  recorded-IsKept :
      {S : Type 0} (rows : MonitoringRows F) (answer : S × Monitored F)
      → IsOnce rows.experiences
      → IsKept rows (recorded rows answer).0.1
  unfolding recorded
  recorded-IsKept rows (s, monitored r) once = record_result-IsKept rows r once
  recorded-IsKept rows (s, monitor_raised) once = unchanged-IsKept rows once

  module _ {S : Type 0} (n : MonitorNumbers F) (policy : MonitoringPolicy F)
      (coordinate : S → RollbackRequest → S × RollbackOutcome) (run_id : String) where
    monitor_for_run-IsKept :
        (collected : Option (List (MonitoringWindow F) × List (MonitoringWindow F))) (s : S)
        (rows : MonitoringRows F)
        → IsOnce rows.experiences
        → IsKept rows (monitor_for_run n policy coordinate run_id collected (s, rows)).0.1
    unfolding monitor_for_run
    monitor_for_run-IsKept none s rows once = unchanged-IsKept rows once
    monitor_for_run-IsKept (some (baseline, observed)) s rows once =
        recorded-IsKept rows
          (monitor n coordinate none policy s baseline observed (some (durable_request run_id)))
          once

    -- Where no candidate has an outcome twice, any calls of the monitoring of a run leave it so, and
    -- keep the audit rows and the experiences that were written before.
    pub monitor_again-IsKept :
        (calls : List (Option (List (MonitoringWindow F) × List (MonitoringWindow F)))) (s : S)
        (rows : MonitoringRows F)
        → IsOnce rows.experiences
        → IsKept rows (monitor_again n policy coordinate run_id calls (s, rows)).1
    unfolding monitor_again
    monitor_again-IsKept [] s rows once = unchanged-IsKept rows once
    monitor_again-IsKept (collected ∷ more) s rows once =
        let left = (monitor_for_run n policy coordinate run_id collected (s, rows)).0 in
        let kept = monitor_for_run-IsKept collected s rows once in
        IsKept-trans rows left.1 (monitor_again n policy coordinate run_id more left).1 kept
          (monitor_again-IsKept more left.0 left.1 kept.once)
