-- ===== src/Jobs/Examples.antt =====
-- The theorems about jobs at a table with one leased job and one that waits.
use ai_driven_autonomous_no.Prelude.{
  ℕ, ◌+◌, ◌≡◌, ◌≢◌, refl, inr, inl, String, true, false, not, ◌&&◌, ◌||◌, none, some, List, [], ◌∷◌,
  ◌++◌, All, leb, eq_iff, arith,
}
use ai_driven_autonomous_no.Jobs.{
  JobRow, Job, Repository, pending, running, is_claimable, is_held_by, is_owner, is_running,
  backoff_seconds, claim, complete, fail,
}
use ai_driven_autonomous_no.Jobs.Leases.{
  Call, claims, heartbeats, IsHeld, IsOtherJob, call_all, leases_are_exclusive,
}
use ai_driven_autonomous_no.Jobs.Retries.{fail-is_claimable}

abbrev leased_row : JobRow
leased_row = record {
  id = "j1";
  created_at = 100;
  updated_at = 200;
  queue_tag = none;
  status = running;
  attempts = 2;
  optimization_run_id = some "run";
  kind = "OPTIMIZATION";
  available_at = 100;
  lease_owner = some "w1";
  lease_expires_at = some 230;
  heartbeat_at = some 200;
  completed_at = none;
  failed_at = none;
  last_error_code = none;
}

abbrev waiting_row : JobRow
waiting_row = record {
  id = "j2";
  created_at = 101;
  updated_at = 101;
  queue_tag = none;
  status = pending;
  attempts = 0;
  optimization_run_id = none;
  kind = "OPTIMIZATION";
  available_at = 101;
  lease_owner = none;
  lease_expires_at = none;
  heartbeat_at = none;
  completed_at = none;
  failed_at = none;
  last_error_code = none;
}

abbrev db : Repository
db = record { rows = leased_row ∷ waiting_row ∷ []; lease_duration = 30; max_attempts = 5 }

abbrev calls : List (String × ℕ × Call)
calls = ("w2", 205, claims none) ∷ ("w2", 210, heartbeats "j1") ∷ []

other_job : ◌≢◌ {A = String} "j2" "j1"
other_job e = cc ((eq_iff "j2" "j1").1 e)

other_worker : ◌≢◌ {A = String} "w2" "w1"
other_worker e = cc ((eq_iff "w2" "w1").1 e)

rows-IsHeld : All (IsHeld "j1" "w1" 230) db.rows
rows-IsHeld = (
  inr (record { is_run = refl; owner = refl; expires = 230; lease = refl; lasts = omega arith }),
  (inl other_job, tt),
)

leases_are_exclusive_example :
    All (IsHeld "j1" "w1" 230) (call_all db calls).rows
    × IsOtherJob "j1" "w1" 230 (claim (call_all db calls) "w2" 220 none).1
    × ((complete (call_all db calls) "j1" "w2" 220).1 ≡ false)
leases_are_exclusive_example =
    leases_are_exclusive "j1" "w1" 230 db calls "w2" 220 none rows-IsHeld
      (omega arith, (other_worker, tt)) (omega arith) other_worker

abbrev job : Job
job = record {
  id = "j1";
  optimization_run_id = some "run";
  kind = "OPTIMIZATION";
  queue_tag = none;
  attempts = 2;
}

row_held : is_held_by "j1" "w1" leased_row ≡ true
unfolding is_held_by is_owner is_running
row_held = refl

fail-is_claimable_example :
    (before' : List JobRow) × (r' : JobRow) × (after' : List JobRow) × ((fail db job "w1"
        "TimeoutError" false 210).0.rows
      ≡ before' ++ r' ∷ after')
    × (r'.id ≡ leased_row.id)
    × (r'.lease_owner ≡ none)
    × (is_claimable 212 none r' ≡ (not (false || leb 5 2) && leb (210 + backoff_seconds 2) 212))
fail-is_claimable_example =
    fail-is_claimable db [] (waiting_row ∷ []) leased_row job "w1" "TimeoutError" false 210 212 refl
      row_held
