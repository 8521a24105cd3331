-- ===== src/Jobs.antt =====
-- `JobRepository` of backend/app/worker/durable.py.
-- The table is the list of its rows. Every statement runs in a transaction of its own and takes the
-- rows' locks at once, so a method is one step of the table: no lock is held between methods, and
-- SKIP LOCKED skips nothing. Times are whole seconds of the caller's clock, and a payload is kept as
-- far as the claim reads it, by its `_queue_tag`. A comparison with NULL holds for no row.
pub mod Leases
pub mod Retries
mod Examples
use ai_driven_autonomous_no.Prelude.{
  ℕ, zero, suc, ◌+◌, ◌-◌, ◌^◌, min, String, Bool, true, false, ◌&&◌, ◌||◌, Option, none, some, List,
  [], ◌∷◌, ◌++◌, ltb, leb, ◌==◌, length, filter, map, str_eq, text_le, text_take, if◌then◌else◌,
}

pub data JobStatus : Type 0 where
  pending running completed failed : JobStatus

pub record JobRow : Type 0 where
  pub id : String
  pub created_at : ℕ
  pub updated_at : ℕ
  pub queue_tag : Option String
  pub status : JobStatus
  pub attempts : ℕ
  pub optimization_run_id : Option String
  pub kind : String
  pub available_at : ℕ
  pub lease_owner : Option String
  pub lease_expires_at : Option ℕ
  pub heartbeat_at : Option ℕ
  pub completed_at : Option ℕ
  pub failed_at : Option ℕ
  pub last_error_code : Option String

-- The record that a claim returns.
pub record Job : Type 0 where
  pub id : String
  pub optimization_run_id : Option String
  pub kind : String
  pub queue_tag : Option String
  pub attempts : ℕ

pub record Repository : Type 0 where
  pub rows : List JobRow
  pub lease_duration : ℕ
  pub max_attempts : ℕ

unfoldable pub is_pending : JobStatus → Bool
is_pending pending = true
is_pending _ = false

unfoldable pub is_running : JobStatus → Bool
is_running running = true
is_running _ = false

-- `lease_owner = :worker_id`
unfoldable pub is_owner : Option String → String → Bool
is_owner none worker = false
is_owner (some owner) worker = str_eq owner worker

-- `lease_expires_at <= :now`
unfoldable pub is_over : Option ℕ → ℕ → Bool
is_over none now = false
is_over (some expires) now = leb expires now

-- `lease_expires_at > :now`
unfoldable pub is_ahead : Option ℕ → ℕ → Bool
is_ahead none now = false
is_ahead (some expires) now = ltb now expires

unfoldable pub has_tag : Option String → Option String → Bool
has_tag none tag = true
has_tag (some wanted) none = false
has_tag (some wanted) (some tag) = str_eq tag wanted

-- `available_at` of a new row is the column's default, the time of the insert.
unfoldable pub enqueue :
    Repository → String → ℕ → Option String → Option String → String → Repository
enqueue db job_id now tag run_id kind = record db {
  rows =
      db.rows
      ++ record {
        id = job_id;
        created_at = now;
        updated_at = now;
        queue_tag = tag;
        status = pending;
        attempts = 0;
        optimization_run_id = run_id;
        kind = kind;
        available_at = now;
        lease_owner = none;
        lease_expires_at = none;
        heartbeat_at = none;
        completed_at = none;
        failed_at = none;
        last_error_code = none;
      }
        ∷ [];
}

-- The WHERE clause of a claim.
unfoldable pub is_claimable : ℕ → Option String → JobRow → Bool
unfolding is_pending is_running is_over has_tag
is_claimable now tag r =
    ((is_pending r.status && leb r.available_at now)
      || (is_running r.status && is_over r.lease_expires_at now))
    && has_tag tag r.queue_tag

-- `ORDER BY created_at, id`
unfoldable pub comes_first : JobRow → JobRow → Bool
comes_first r s =
    if ltb r.created_at s.created_at
    then true
    else (r.created_at == s.created_at) && text_le r.id s.id

-- `LIMIT 1` of the ordered rows.
unfoldable pub first_row : List JobRow → Option JobRow
unfolding comes_first
first_row [] = none
first_row (r ∷ rows) = elim (first_row rows) [
  | none ↦ some r
  | some s ↦ if comes_first r s then some r else some s
]

-- UPDATE ... WHERE: every row that passes the test is changed.
unfoldable pub update_where : (JobRow → Bool) → (JobRow → JobRow) → List JobRow → List JobRow
update_where test change rows = map (λ r. if test r then change r else r) rows

unfoldable pub rowcount : (JobRow → Bool) → List JobRow → ℕ
rowcount test rows = length (filter test rows)

unfoldable pub leased_to : String → ℕ → ℕ → JobRow → JobRow
leased_to worker now expires r = record r {
  status = running;
  lease_owner = some worker;
  lease_expires_at = some expires;
  heartbeat_at = some now;
  updated_at = now;
  attempts = suc r.attempts;
}

unfoldable pub job_of : JobRow → Job
job_of r = record {
  id = r.id;
  optimization_run_id = r.optimization_run_id;
  kind = r.kind;
  queue_tag = r.queue_tag;
  attempts = r.attempts;
}

-- The update of the row that was chosen, and the job that it returns.
unfoldable pub claim_row : Repository → String → ℕ → Option JobRow → Repository × Option Job
unfolding update_where leased_to job_of
claim_row db worker now none = (db, none)
claim_row db worker now (some r) =
    let lease = leased_to worker now (now + db.lease_duration) in
    (
      record db { rows = update_where (λ s. str_eq s.id r.id) lease db.rows },
      some (job_of (lease r)),
    )

unfoldable pub claim : Repository → String → ℕ → Option String → Repository × Option Job
unfolding claim_row first_row is_claimable
claim db worker now tag =
    claim_row db worker now (first_row (filter (is_claimable now tag) db.rows))

-- `id = :id AND status = 'RUNNING' AND lease_owner = :worker_id`
unfoldable pub is_held_by : String → String → JobRow → Bool
unfolding is_running is_owner
is_held_by job_id worker r =
    str_eq r.id job_id && (is_running r.status && is_owner r.lease_owner worker)

unfoldable pub heartbeat : Repository → String → String → ℕ → Repository × Bool
unfolding update_where rowcount is_held_by is_ahead
heartbeat db job_id worker now =
    let test = λ (r : JobRow). is_held_by job_id worker r && is_ahead r.lease_expires_at now in
    (
      record db {
        rows =
            update_where test
              (λ r. record r {
                heartbeat_at = some now;
                lease_expires_at = some (now + db.lease_duration);
                updated_at = now;
              })
              db.rows;
      },
      rowcount test db.rows == 1,
    )

unfoldable pub complete : Repository → String → String → ℕ → Repository × Bool
unfolding update_where rowcount is_held_by
complete db job_id worker now = (
  record db {
    rows =
        update_where (is_held_by job_id worker)
          (λ r. record r {
            status = completed;
            completed_at = some now;
            updated_at = now;
            lease_owner = none;
            lease_expires_at = none;
          })
          db.rows;
  },
  rowcount (is_held_by job_id worker) db.rows == 1,
)

-- `int(min(16, 2 ** max(0, attempt - 1)))`
unfoldable pub backoff_seconds : ℕ → ℕ
backoff_seconds attempt = min 16 (2 ^ (attempt - 1))

unfoldable pub is_final : Repository → Job → Bool → Bool
is_final db job permanent = permanent || leb db.max_attempts job.attempts

unfoldable pub failed_row : Bool → String → ℕ → ℕ → JobRow → JobRow
failed_row final error now available r = record r {
  status = if final then failed else pending;
  last_error_code = some error;
  failed_at = if final then some now else none;
  available_at = if final then r.available_at else available;
  lease_owner = none;
  lease_expires_at = none;
  updated_at = now;
}

-- The second component is false where the source raises LeaseLostError.
unfoldable pub fail : Repository → Job → String → String → Bool → ℕ → Repository × Bool
unfolding update_where rowcount is_held_by backoff_seconds is_final failed_row
fail db job worker error permanent now = (
  record db {
    rows =
        update_where (is_held_by job.id worker)
          (failed_row (is_final db job permanent) (text_take 128 error) now
            (now + backoff_seconds job.attempts))
          db.rows;
  },
  rowcount (is_held_by job.id worker) db.rows == 1,
)
