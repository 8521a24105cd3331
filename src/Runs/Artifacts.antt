-- ===== src/Runs/Artifacts.antt =====
-- The artifacts that candidate generation, ranking, planning, evaluation and admission add to a run keep its evidence.
use ai_driven_autonomous_no.Prelude.{
  ℕ, ◌≡◌, refl, inl, inr, String, true, Option, none, some, List, [], ◌∷◌, ◌++◌, any, all, and_true,
  map, length, eq_refl, arith, Bool-cases, if_cases, if◌then◌else◌,
}
use ai_driven_autonomous_no.Prelude.Options.{when_absent_cases}
use ai_driven_autonomous_no.Runs.{
  RunStore, RankingRow, PlanRow, AdmissionRow, EvaluationRow, CandidateRow,
}
use ai_driven_autonomous_no.Runs.Selection.{
  begin_evaluation, mark_complete, candidate_ids, evaluates,
}
use ai_driven_autonomous_no.Runs.Services.{record_generation}
use ai_driven_autonomous_no.Runs.Attested.{
  Fact, generated, ranked_candidates, planned, measured, selected, Holds, has_completed,
}
use ai_driven_autonomous_no.Runs.Kept.{IsAttested, RankingFits, kept_facts}

with_generation : RunStore → List CandidateRow → RunStore
with_generation store rows = record store {
  candidate_count = some (length rows);
  candidates = rows;
}

with_generation-Holds :
    (store : RunStore) (rows : List CandidateRow) (f : Fact)
    → Holds store f
    → Holds (with_generation store rows) f
unfolding with_generation
with_generation-Holds store rows generated p = (length rows, refl)
with_generation-Holds store rows _ p = p

-- There is no ranking before a generation.
unranked :
    (ids others : List String) (count more : Option ℕ) (r : Option RankingRow)
    → count ≡ none
    → RankingFits r ids count
    → RankingFits r others more
unranked ids others count more none e p = tt
unranked ids others count more (some r) e p = let (perm, (k, q)) = p in cc

pub generated-IsAttested :
    (store : RunStore) (rows : List CandidateRow)
    → IsAttested store
    → IsAttested (record_generation store rows)
unfolding record_generation with_generation
generated-IsAttested store rows h =
    when_absent_cases IsAttested store.candidate_count
      (λ e. record {
        attests =
            kept_facts store (with_generation store rows) store.row.status
              (with_generation-Holds store rows) h.attests;
        ranks =
            unranked (candidate_ids store) (candidate_ids (with_generation store rows))
              store.candidate_count (some (length rows)) store.ranking_artifact e h.ranks;
        plans = h.plans;
        admits = h.admits;
      })
      (λ old e. h)

pub ranked-Holds :
    (store : RunStore) (r : RankingRow) (f : Fact)
    → Holds store f
    → Holds (record store { ranking_artifact = some r }) f
ranked-Holds store r ranked_candidates p = (p.0, (r, refl))
ranked-Holds store r _ p = p

pub planned-Holds :
    (store : RunStore) (p : PlanRow)
    → store.evaluation_plan ≡ none
    → (f : Fact) → Holds store f
    → Holds (record store { evaluation_plan = some p }) f
planned-Holds store p absent planned h = (p, refl)
planned-Holds store p absent measured h = let (q, e, m) = h in cc
planned-Holds store p absent _ h = h

pub admitted-Holds :
    (store : RunStore) (rows : List CandidateRow) (a : AdmissionRow)
    → store.admission_artifact ≡ none
    → (f : Fact) → Holds store f
    → Holds (record store { candidates = rows; admission_artifact = some a }) f
admitted-Holds store rows a absent selected h = let (b, id, e, s) = h in cc
admitted-Holds store rows a absent _ h = h

all_more :
    (rows others : List EvaluationRow) (ids : List String)
    → ((id : String) → has_completed rows id ≡ true → has_completed others id ≡ true)
    → all (has_completed rows) ids ≡ true
    → all (has_completed others) ids ≡ true
all_more rows others [] more h = refl
all_more rows others (id ∷ ids) more h =
    let (here, rest) = and_true (has_completed rows id) (all (has_completed rows) ids) h in
    rw (more id here) (all_more rows others ids more rest)

measured-Holds :
    (store : RunStore) (rows : List EvaluationRow)
    → ((id : String) → has_completed store.evaluation_runs id ≡ true → has_completed rows id ≡ true)
    → (f : Fact) → Holds store f
    → Holds (record store { evaluation_runs = rows }) f
measured-Holds store rows more measured h =
    let (p, e, m) = h in (p, e, all_more store.evaluation_runs rows p.planned_candidate_ids more m)
measured-Holds store rows more _ h = h

measured-IsAttested :
    (store : RunStore) (rows : List EvaluationRow)
    → ((id : String) → has_completed store.evaluation_runs id ≡ true → has_completed rows id ≡ true)
    → IsAttested store
    → IsAttested (record store { evaluation_runs = rows })
unfolding candidate_ids
measured-IsAttested store rows more h = record {
  attests =
      kept_facts store (record store { evaluation_runs = rows }) store.row.status
        (measured-Holds store rows more) h.attests;
  ranks = h.ranks;
  plans = h.plans;
  admits = h.admits;
}

has_completed_append :
    (rows more : List EvaluationRow) (id : String)
    → has_completed rows id ≡ true
    → has_completed (rows ++ more) id ≡ true
has_completed_append [] more id h = cc
has_completed_append (e ∷ rows) more id h = ground (arith, has_completed_append rows more id)

pub begun-IsAttested :
    (store : RunStore) (id fingerprint : String)
    → IsAttested store
    → IsAttested (begin_evaluation store id fingerprint)
unfolding begin_evaluation
begun-IsAttested store id fingerprint h =
    if_cases IsAttested (any (evaluates id) store.evaluation_runs) (λ found. h)
      (λ new. measured-IsAttested store _ (λ w. has_completed_append store.evaluation_runs _ w) h)

has_completed_marked :
    (candidate_id : String) (rows : List EvaluationRow) (id : String)
    → has_completed rows id ≡ true
    → has_completed
        (map
          (λ e.
            if evaluates candidate_id e then record e { evaluation_status = "COMPLETED" } else e)
          rows)
        id
      ≡ true
has_completed_marked candidate_id [] id h = cc
has_completed_marked candidate_id (e ∷ rows) id h = elim (Bool-cases (evaluates candidate_id e)) [
  | inl hit ↦
      rw hit (ground (arith, eq_refl "COMPLETED", has_completed_marked candidate_id rows id))
  | inr miss ↦ rw miss (ground (arith, has_completed_marked candidate_id rows id))
]

pub marked-IsAttested :
    (store : RunStore) (id : String) → IsAttested store → IsAttested (mark_complete store id)
unfolding mark_complete
marked-IsAttested store id h =
    measured-IsAttested store _ (has_completed_marked id store.evaluation_runs) h
