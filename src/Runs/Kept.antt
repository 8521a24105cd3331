-- ===== src/Runs/Kept.antt =====
-- Every operation on the rows of a run keeps what is known of them.
use mathlib.Core.List.{Perm}
use ai_driven_autonomous_no.Prelude.{
  ℕ, ◌≡◌, refl, inl, inr, String, true, not, ◌||◌, Option, none, some, List, All-map, any, take,
  str_eq, Option-cases, if_cases,
}
use ai_driven_autonomous_no.Prelude.Options.{when_absent_cases}
use ai_driven_autonomous_no.Lifecycle.{OptimizationState, same_state, snapshotting, diagnosing}
use ai_driven_autonomous_no.Runs.{
  RunCompletionReason, RunStore, RankingRow, PlanRow, AdmissionRow, is_absent,
}
use ai_driven_autonomous_no.Runs.Transition.{
  SnapshotRow, transition_run, attach_workload_snapshot, moved_row,
}
use ai_driven_autonomous_no.Runs.Evidence.{transition_run_outcomes}
use ai_driven_autonomous_no.Runs.Selection.{candidate_ids}
use ai_driven_autonomous_no.Runs.Services.{record_diagnosis, or_kept}
use ai_driven_autonomous_no.Runs.Attested.{
  Fact, attached, diagnosed, Holds, facts, Attests, edge-Attests,
}

-- A ranking has each candidate of the run once, and there was a generation.
abbrev pub RankingFits : Option RankingRow → List String → Option ℕ → Type 0
RankingFits none ids count = Unit
RankingFits (some r) ids count = Perm r.ordered_candidate_ids ids × ((k : ℕ) × (count ≡ some k))

-- A plan has the first three of the ranking.
abbrev pub PlanFits : Option PlanRow → Option RankingRow → Type 0
PlanFits none ranking = Unit
PlanFits (some p) ranking =
    (r : RankingRow) × (ranking ≡ some r)
    × (p.planned_candidate_ids ≡ take 3 r.ordered_candidate_ids)

abbrev pub IsAmong : Option String → List String → Type 0
IsAmong none ids = Unit
IsAmong (some id) ids = any (str_eq id) ids ≡ true

-- A selected candidate is one of the plan.
abbrev pub AdmissionFits : Option AdmissionRow → Option PlanRow → Type 0
AdmissionFits none plan = Unit
AdmissionFits (some a) plan =
    (p : PlanRow) × (plan ≡ some p) × IsAmong a.selected_candidate_id p.planned_candidate_ids

pub record IsAttested (store : RunStore) : Type 0 where
  pub attests : Attests store store.row.status
  pub ranks : RankingFits store.ranking_artifact (candidate_ids store) store.candidate_count
  pub plans : PlanFits store.evaluation_plan store.ranking_artifact
  pub admits : AdmissionFits store.admission_artifact store.evaluation_plan

pub kept_facts :
    (store left : RunStore) (s : OptimizationState)
    → ((f : Fact) → Holds store f → Holds left f)
    → Attests store s
    → Attests left s
kept_facts store left s keep h = All-map (Holds store) (Holds left) (facts s) keep h

pub moved-IsAttested :
    (store : RunStore) (t : OptimizationState) (reason : Option RunCompletionReason)
    → IsAttested store
    → IsAttested (transition_run store t reason).0
unfolding candidate_ids moved_row
moved-IsAttested store t reason h = elim (transition_run_outcomes store t reason) [
  | inl ((edge, w), e) ↦ rw e (record {
    attests =
        kept_facts store (record store { row = moved_row store.row t reason }) t keep
          (edge-Attests edge store reason w h.attests);
    ranks = h.ranks;
    plans = h.plans;
    admits = h.admits;
  })
  | inr (refused, (error, e)) ↦ rw e h
]
  where
    keep :
        (f : Fact) → Holds store f → Holds (record store { row = moved_row store.row t reason }) f
    keep _ p = p

with_snapshot : RunStore → String → RunStore
with_snapshot store id = record store { row = record store.row { workload_snapshot_id = some id } }

attach-fills :
    (store left : RunStore) (s : Option SnapshotRow)
    → attach_workload_snapshot store s ≡ some left
    → (id : String) × (left ≡ with_snapshot store id)
unfolding attach_workload_snapshot with_snapshot
attach-fills store left none h = cc
attach-fills store left (some s) h =
    let P : Option RunStore → Type 0 =
      λ r. r ≡ some left → (id : String) × (left ≡ with_snapshot store id) in
    if_cases P
      (not (same_state store.row.status snapshotting)
        || not (is_absent store.row.workload_snapshot_id))
      (λ refused e. cc)
      (λ free.
        if_cases P (str_eq s.snapshot_target_id store.row.target_id) (λ same e. (s.snapshot_id, cc))
          (λ other e. cc))
      h

with_snapshot-Holds :
    (store : RunStore) (id : String) (f : Fact) → Holds store f → Holds (with_snapshot store id) f
unfolding with_snapshot
with_snapshot-Holds store id attached p = (id, refl)
with_snapshot-Holds store id _ p = p

pub attached-IsAttested :
    (store : RunStore) (s : Option SnapshotRow)
    → IsAttested store
    → IsAttested (or_kept store (attach_workload_snapshot store s))
unfolding or_kept candidate_ids with_snapshot
attached-IsAttested store s h = elim (Option-cases (attach_workload_snapshot store s)) [
  | inl e ↦ rw e h
  | inr (left, e) ↦
      let (id, same) = attach-fills store left s e in
      rw (e, same)
        (record {
          attests =
              kept_facts store (with_snapshot store id) store.row.status
                (with_snapshot-Holds store id) h.attests;
          ranks = h.ranks;
          plans = h.plans;
          admits = h.admits;
        })
]

diagnosed-Holds :
    (store : RunStore) (id : String) (f : Fact)
    → Holds store f
    → Holds (record store { diagnosis_id = some id }) f
diagnosed-Holds store id diagnosed p = (id, refl)
diagnosed-Holds store id _ p = p

pub diagnosed-IsAttested :
    (store : RunStore) (id : String) → IsAttested store → IsAttested (record_diagnosis store id)
unfolding record_diagnosis candidate_ids
diagnosed-IsAttested store id h =
    when_absent_cases IsAttested store.diagnosis_id
      (λ absent.
        if_cases IsAttested (same_state store.row.status diagnosing)
          (λ open_run. record {
            attests =
                kept_facts store (record store { diagnosis_id = some id }) store.row.status
                  (diagnosed-Holds store id) h.attests;
            ranks = h.ranks;
            plans = h.plans;
            admits = h.admits;
          })
          (λ other. h))
      (λ old e. h)
