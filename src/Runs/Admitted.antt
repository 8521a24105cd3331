-- ===== src/Runs/Admitted.antt =====
-- The loop of `decide_for_run` of backend/app/admission/durable.py selects the first candidate of the
-- plan that the engine admits.
use mathlib.Core.List.{append-nil, append_assoc}
use ai_driven_autonomous_no.Prelude.{
  ◌≡◌, refl, sym, ap, ◌∙◌, inl, inr, String, Bool, true, false, ◌||◌, Option, none, some, List, [],
  ◌∷◌, ◌++◌, map, any, all, and_true, find, filter, str_eq, if◌then◌else◌, arith, Bool-cases,
  eq_iff, eq_refl,
}
use ai_driven_autonomous_no.Prelude.Dicts.{Dict, get, put, get-put}
use ai_driven_autonomous_no.Prelude.Options.{>>=-eq-some}
use ai_driven_autonomous_no.Admission.{AdmissionRequest, is_admitted}
use ai_driven_autonomous_no.Admission.Numbers.{Numbers}
use ai_driven_autonomous_no.Admission.Engine.{evaluate_candidate_admission}
use ai_driven_autonomous_no.Runs.{
  RunStore, PlanRow, AdmissionRow, CandidateRow, CandidateStatus, admitted_candidate,
  rejected_candidate, same_set,
}
use ai_driven_autonomous_no.Runs.Selection.{
  new_admission, candidate_ids, Judged, judge, judge_all, is_eligible, with_admission,
  admission_row, decide_admission, set_status,
}
use ai_driven_autonomous_no.Runs.Cover.{covered_by}
use ai_driven_autonomous_no.Runs.Searches.{find_first, all_members, find-test, request_of}

module _ {F : Type 0} (n : Numbers F) (confidence : F) (requests : Dict (AdmissionRequest F)) where
  -- Whether the engine admits the request of a candidate.
  unfoldable pub admits : String → Bool
  admits id = elim (get requests id) [
    | none ↦ false
    | some r ↦ is_admitted (evaluate_candidate_admission n confidence r).status
  ]

  -- What the engine says of the use of a candidate in production.
  unfoldable pub is_eligible_by_request : String → Bool
  is_eligible_by_request id = elim (get requests id) [
    | none ↦ false
    | some r ↦ (evaluate_candidate_admission n confidence r).production_eligible
  ]

  record IsJudged (j k : Judged) (ids : List String) : Type 0 where
    pub admitted : k.admitted_ids ≡ j.admitted_ids ++ filter admits ids
    pub eligible :
        (w : String)
        → get k.eligible_ids w ≡ (
            if any (str_eq w) (filter admits ids)
            then some (is_eligible_by_request w)
            else get j.eligible_ids w)
    pub kept : map (λ c. c.id) k.judged_candidates ≡ map (λ c. c.id) j.judged_candidates

  set_status-id :
      (status : CandidateStatus) (id : String) (cs : List CandidateRow)
      → map (λ c. c.id) (set_status status id cs) ≡ map (λ c. c.id) cs
  unfolding set_status
  set_status-id status id [] = refl
  set_status-id status id (c ∷ cs) =
      rw (set_status-id status id cs)
        (elim (Bool-cases (str_eq c.id id)) [ inl e ↦ rw e refl | inr e ↦ rw e refl ])

  admits_by :
      (id : String) (r : AdmissionRequest F)
      → get requests id ≡ some r
      → (admits id ≡ is_admitted (evaluate_candidate_admission n confidence r).status)
        × (is_eligible_by_request id
            ≡ (evaluate_candidate_admission n confidence r).production_eligible)
  unfolding admits is_eligible_by_request
  admits_by id r e = (rw (admits, e) refl, rw (is_eligible_by_request, e) refl)

  eligible_after :
      (d : Dict Bool) (id w : String) (v : Bool)
      → is_eligible_by_request id ≡ v
      → get (put d id v) w
        ≡ (if any (str_eq w) (id ∷ []) then some (is_eligible_by_request w) else get d w)
  eligible_after d id w v e = rw (get-put d id w v) (elim (Bool-cases (str_eq w id)) [
    | inl same ↦ let p : w ≡ id = (eq_iff w id).0 same in rw (p, eq_refl id, e) refl
    | inr other ↦
        let apart : str_eq id w ≡ false = ground (arith, eq_iff id w, eq_iff w id) in
        rw (other, apart) refl
  ])

  judge-IsJudged :
      (j : Judged) (id : String) (r : AdmissionRequest F)
      → get requests id ≡ some r
      → IsJudged j
          (judge n confidence requests j id (evaluate_candidate_admission n confidence r))
          (id ∷ [])
  unfolding judge
  judge-IsJudged j id r e =
      let (by_status, by_profile) = admits_by id r e in
      elim (Bool-cases (is_admitted (evaluate_candidate_admission n confidence r).status)) [
        | inl admitted ↦ rw admitted (record {
          admitted = rw (by_status, admitted) refl;
          eligible = λ w.
              rw (by_status, admitted)
                (eligible_after j.eligible_ids id w
                  (evaluate_candidate_admission n confidence r).production_eligible by_profile);
          kept = set_status-id admitted_candidate id j.judged_candidates;
        })
        | inr other ↦ rw other (record {
          admitted = rw (by_status, other) (sym (append-nil j.admitted_ids));
          eligible = λ w. rw (by_status, other) refl;
          kept = set_status-id rejected_candidate id j.judged_candidates;
        })
      ]

  filter_after :
      (xs ys : List String) → filter admits (xs ++ ys) ≡ filter admits xs ++ filter admits ys
  filter_after [] ys = refl
  filter_after (x ∷ xs) ys = elim (Bool-cases (admits x)) [
    | inl e ↦ rw e (ap (λ l. x ∷ l) (filter_after xs ys))
    | inr e ↦ rw e (filter_after xs ys)
  ]

  any_after :
      (w : String) (xs ys : List String)
      → any (str_eq w) (xs ++ ys) ≡ (any (str_eq w) xs || any (str_eq w) ys)
  any_after w [] ys = refl
  any_after w (x ∷ xs) ys = ground (arith, any_after w xs ys)

  IsJudged-trans :
      (j k l : Judged) (xs ys : List String)
      → IsJudged j k xs
      → IsJudged k l ys
      → IsJudged j l (xs ++ ys)
  IsJudged-trans j k l xs ys first second = record {
    admitted =
        rw (second.admitted, first.admitted, filter_after xs ys)
          (append_assoc j.admitted_ids (filter admits xs) (filter admits ys));
    eligible = λ w.
        rw
          (
            second.eligible w,
            first.eligible w,
            filter_after xs ys,
            any_after w (filter admits xs) (filter admits ys),
          )
          (ground arith);
    kept = second.kept ∙ first.kept;
  }

  judge_all-IsJudged :
      (j k : Judged) (ids : List String)
      → judge_all n confidence requests j ids ≡ some k
      → IsJudged j k ids
  unfolding judge_all
  judge_all-IsJudged j k [] h =
      let same : j ≡ k = cc in
      rw (← same)
        (record { admitted = sym (append-nil j.admitted_ids); eligible = λ w. refl; kept = refl })
  judge_all-IsJudged j k (id ∷ ids) h =
      let (r, e, rest) =
        >>=-eq-some (get requests id)
          (λ request.
            judge_all n confidence requests
              (judge n confidence requests j id (evaluate_candidate_admission n confidence request))
              ids)
          h in
      let next = judge n confidence requests j id (evaluate_candidate_admission n confidence r) in
      IsJudged-trans j next k (id ∷ []) ids (judge-IsJudged j id r e)
        (judge_all-IsJudged next k ids rest)

  -- The selected candidate is the first of the plan that the engine admits, the admitted ones are all
  -- that it admits, in the order of the plan, and the selection is eligible for production exactly where
  -- the engine says so of the selected candidate.
  pub record IsDecided (store left : RunStore) (ranked : List String) (a : AdmissionRow)
      : Type 0 where
    pub rows : List CandidateRow
    pub stored : left ≡ record store { candidates = rows; admission_artifact = some a }
    pub same_candidates : map (λ c. c.id) rows ≡ candidate_ids store
    pub admitted : a.admitted_candidate_ids ≡ filter admits ranked
    pub selected : a.selected_candidate_id ≡ find admits ranked
    pub eligible :
        a.eligible_for_production
        ≡ elim (find admits ranked) [ none ↦ false | some id ↦ is_eligible_by_request id ]

  eligible_of_found :
      (eligible : Dict Bool) (ranked : List String) (o : Option String)
      → find admits ranked ≡ o
      → find (λ w. any (str_eq w) (filter admits ranked)) ranked ≡ o
      → ((w : String)
          → get eligible w ≡ (
              if any (str_eq w) (filter admits ranked)
              then some (is_eligible_by_request w)
              else none))
      → is_eligible eligible o ≡ elim o [ none ↦ false | some id ↦ is_eligible_by_request id ]
  unfolding is_eligible
  eligible_of_found eligible ranked none e found h = refl
  eligible_of_found eligible ranked (some id) e found h =
      rw (is_eligible, h id, find-test (λ w. any (str_eq w) (filter admits ranked)) ranked id found)
        refl

  judge_all_returns :
      (j : Judged) (ids : List String)
      → all (λ id. any (str_eq id) (map (λ e. e.0) requests)) ids ≡ true
      → (k : Judged) × (judge_all n confidence requests j ids ≡ some k)
  unfolding judge_all
  judge_all_returns j [] h = (j, refl)
  judge_all_returns j (id ∷ ids) h =
      let names = map (λ e. e.0) requests in
      let (present, others) =
        and_true (any (str_eq id) names) (all (λ w. any (str_eq w) names) ids) h in
      let (r, e) = request_of requests id present in
      let (k, done) =
        judge_all_returns
          (judge n confidence requests j id (evaluate_candidate_admission n confidence r)) ids
          others in
      (k, rw e done)

  -- With a plan, no admission and requests for exactly the candidates of the plan, an admission is
  -- stored: it selects the first candidate of the plan that the engine admits, keeps all that it admits
  -- in the order of the plan, is eligible for production exactly where the engine says so of the
  -- selected candidate, and the candidates of the run keep their ids.
  pub decide_admission-IsDecided :
      (store : RunStore) (plan : PlanRow)
      → store.admission_artifact ≡ none
      → store.evaluation_plan ≡ some plan
      → same_set (map (λ e. e.0) requests) plan.planned_candidate_ids ≡ true
      → (left : RunStore) × (decide_admission n confidence requests store ≡ some left)
        × ((a : AdmissionRow) × IsDecided store left plan.planned_candidate_ids a)
  unfolding decide_admission new_admission candidate_ids get admission_row
  decide_admission-IsDecided store plan absent planned matches =
      let ranked = plan.planned_candidate_ids in
      let names = map (λ e. e.0) requests in
      let start : Judged = record {
        judged_candidates = store.candidates;
        admitted_ids = [];
        eligible_ids = [];
      } in
      let (j, done) = judge_all_returns start ranked (covered_by names ranked matches) in
      let judged = judge_all-IsJudged start j ranked done in
      let first =
        find_first admits ranked ranked (all_members ranked ranked (λ w present. present)) in
      let found =
        ap (λ admitted. find (λ w. any (str_eq w) admitted) ranked) judged.admitted ∙ first in
      (
        with_admission store ranked j,
        rw (absent, planned, matches, done) refl,
        (
          admission_row ranked j,
          record {
            rows = j.judged_candidates;
            stored = refl;
            same_candidates = judged.kept;
            admitted = judged.admitted;
            selected = found;
            eligible =
                ap (is_eligible j.eligible_ids) found
                ∙ eligible_of_found j.eligible_ids ranked (find admits ranked) refl first
                    judged.eligible;
          },
        ),
      )
