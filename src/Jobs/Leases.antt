-- ===== src/Jobs/Leases.antt =====
-- A lease is exclusive, and a claim takes the oldest of the jobs that may be taken.
use ai_driven_autonomous_no.Prelude.{
  ℕ, ◌≤◌, ◌<◌, ◌≡◌, ◌≢◌, refl, sym, ◌∙◌, subst, ◌⊎◌, inl, inr, String, Bool, true, false, Option,
  none, some, List, [], ◌∷◌, filter, str_eq, eq_iff, All, All-append, arith, if◌then◌else◌,
  Bool-cases, if_cases,
}
use ai_driven_autonomous_no.Jobs.{
  running, JobRow, Job, Repository, is_pending, is_running, is_owner, is_over, enqueue,
  is_claimable, comes_first, first_row, update_where, rowcount, leased_to, job_of, claim_row, claim,
  is_held_by, heartbeat, complete, failed_row, fail,
}

-- What one worker asks of the table, with the time of its clock.
pub data Call : Type 0 where
  enqueues : (job_id : String) (tag run_id : Option String) (kind : String) → Call
  claims : (tag : Option String) → Call
  heartbeats completes : (job_id : String) → Call
  fails : Job → (error : String) (permanent : Bool) → Call

abbrev pub call : Repository → String → ℕ → Call → Repository
call db worker now (enqueues job_id tag run_id kind) = enqueue db job_id now tag run_id kind
call db worker now (claims tag) = (claim db worker now tag).0
call db worker now (heartbeats job_id) = (heartbeat db job_id worker now).0
call db worker now (completes job_id) = (complete db job_id worker now).0
call db worker now (fails job error permanent) = (fail db job worker error permanent now).0

abbrev pub call_all : Repository → List (String × ℕ × Call) → Repository
call_all db [] = db
call_all db ((worker, now, c) ∷ rest) = call_all (call db worker now c) rest

-- A row with the id is leased to the worker until `until` at least.
pub record IsLeased (worker : String) (until : ℕ) (r : JobRow) : Type 0 where
  pub is_run : r.status ≡ running
  pub owner : r.lease_owner ≡ some worker
  pub expires : ℕ
  pub lease : r.lease_expires_at ≡ some expires
  pub lasts : until ≤ expires

abbrev pub IsHeld : String → String → ℕ → JobRow → Type 0
IsHeld job_id worker until r = (r.id ≢ job_id) ⊎ IsLeased worker until r

leased :
    (job_id worker : String) (until : ℕ) (r : JobRow)
    → IsHeld job_id worker until r
    → r.id ≡ job_id
    → IsLeased worker until r
leased job_id worker until r (inl other) same = absurd (other same)
leased job_id worker until r (inr lease) same = lease

not_self : (s t : String) → s ≢ t → str_eq s t ≡ false
not_self s t ne = elim (Bool-cases (str_eq s t)) [
  | inl same ↦ absurd (ne ((eq_iff s t).0 same))
  | inr other ↦ other
]

module _ (job_id owner : String) (until : ℕ) where
  -- An update that misses the held row keeps it.
  update_row-IsHeld :
      (test : JobRow → Bool) (change : JobRow → JobRow) (r : JobRow)
      → (change r).id ≡ r.id
      → (r.id ≡ job_id → IsLeased owner until r → test r ≡ false)
      → IsHeld job_id owner until r
      → IsHeld job_id owner until (if test r then change r else r)
  update_row-IsHeld test change r keeps misses held =
      if_cases (IsHeld job_id owner until) (test r)
        (λ hit. inl (λ same.
          let same' : r.id ≡ job_id = sym keeps ∙ same in
          let missed = misses same' (leased job_id owner until r held same') in cc))
        (λ missed. held)

  update_where-IsHeld :
      (test : JobRow → Bool) (change : JobRow → JobRow)
      → ((r : JobRow) → (change r).id ≡ r.id)
      → ((r : JobRow) → r.id ≡ job_id → IsLeased owner until r → test r ≡ false)
      → (rows : List JobRow) → All (IsHeld job_id owner until) rows
      → All (IsHeld job_id owner until) (update_where test change rows)
  unfolding update_where
  update_where-IsHeld test change keeps misses [] h = tt
  update_where-IsHeld test change keeps misses (r ∷ rows) h = (
    update_row-IsHeld test change r (keeps r) (misses r) h.0,
    update_where-IsHeld test change keeps misses rows h.1,
  )

  All-filter :
      (P : JobRow → Type 0) (test : JobRow → Bool) (rows : List JobRow)
      → All P rows
      → All (λ r. P r × (test r ≡ true)) (filter test rows)
  All-filter P test [] h = tt
  All-filter P test (r ∷ rows) h =
      if_cases (All (λ r. P r × (test r ≡ true))) (test r)
        (λ hit. ((h.0, hit), All-filter P test rows h.1)) (λ missed. All-filter P test rows h.1)

  first_row-All :
      (P : JobRow → Type 0) (rows : List JobRow) (r : JobRow)
      → All P rows
      → first_row rows ≡ some r
      → P r
  unfolding first_row
  first_row-All P [] r h e = cc
  first_row-All P (s ∷ rows) r h e =
      next (first_row rows) (λ t later. first_row-All P rows t h.1 later) e
    where
      next :
          (o : Option JobRow)
          → ((t : JobRow) → o ≡ some t → P t)
          → elim o [ none ↦ some s | some t ↦ if comes_first s t then some s else some t ] ≡ some r
          → P r
      next none later e = let same : s ≡ r = cc in subst P same h.0
      next (some t) later e =
          if_cases (λ (o : Option JobRow). o ≡ some r → P r) (comes_first s t)
            (λ first e. let same : s ≡ r = cc in subst P same h.0)
            (λ second e. let same : t ≡ r = cc in subst P same (later t refl)) e

  -- A call by another worker before the lease ends, which draws no used id.
  abbrev pub Spares : String × ℕ × Call → Type 0
  Spares (worker, now, enqueues new tag run_id kind) = new ≢ job_id
  Spares (worker, now, claims tag) = now < until
  Spares (worker, now, _) = worker ≢ owner

  claimable_not_held :
      (now : ℕ) (tag : Option String) (r : JobRow)
      → now < until
      → IsLeased owner until r
      → is_claimable now tag r ≡ false
  unfolding is_claimable is_pending is_running is_over
  claimable_not_held now tag r early lease =
      let lasts = lease.lasts in rw (lease.is_run, lease.lease) (ground arith)

  held_by_other :
      (id worker : String) (r : JobRow)
      → worker ≢ owner
      → IsLeased owner until r
      → is_held_by id worker r ≡ false
  unfolding is_held_by is_owner is_running
  held_by_other id worker r other lease =
      rw (lease.owner, not_self owner worker (λ e. other (sym e))) (ground arith)

  not_chosen :
      (db : Repository) (now : ℕ) (tag : Option String) (r : JobRow)
      → All (IsHeld job_id owner until) db.rows
      → now < until
      → first_row (filter (is_claimable now tag) db.rows) ≡ some r
      → r.id ≢ job_id
  not_chosen db now tag r h early chosen same =
      let (held, may) =
        first_row-All (λ s. IsHeld job_id owner until s × (is_claimable now tag s ≡ true)) _ r
          (All-filter (IsHeld job_id owner until) (is_claimable now tag) db.rows h) chosen in
      let cannot = claimable_not_held now tag r early (leased job_id owner until r held same) in cc

  claim_row-IsHeld :
      (db : Repository) (worker : String) (now : ℕ) (o : Option JobRow)
      → ((r : JobRow) → o ≡ some r → r.id ≢ job_id)
      → All (IsHeld job_id owner until) db.rows
      → All (IsHeld job_id owner until) (claim_row db worker now o).0.rows
  unfolding claim_row leased_to
  claim_row-IsHeld db worker now none other h = h
  claim_row-IsHeld db worker now (some r) other h =
      update_where-IsHeld (λ s. str_eq s.id r.id) _ (λ s. refl)
        (λ s same lease. not_self s.id r.id (λ e. other r refl (sym e ∙ same))) db.rows h

  call-IsHeld :
      (db : Repository) (worker : String) (now : ℕ) (c : Call)
      → Spares (worker, now, c)
      → All (IsHeld job_id owner until) db.rows
      → All (IsHeld job_id owner until) (call db worker now c).rows
  unfolding enqueue claim heartbeat complete fail failed_row
  call-IsHeld db worker now (enqueues new tag run_id kind) fresh h =
      All-append (IsHeld job_id owner until) db.rows _ h (inl fresh, tt)
  call-IsHeld db worker now (claims tag) early h =
      claim_row-IsHeld db worker now _ (λ r. not_chosen db now tag r h early) h
  call-IsHeld db worker now (heartbeats id) other h =
      update_where-IsHeld _ _ (λ s. refl)
        (λ s same lease. rw (held_by_other id worker s other lease) refl) db.rows h
  call-IsHeld db worker now (completes id) other h =
      update_where-IsHeld _ _ (λ s. refl) (λ s same. held_by_other id worker s other) db.rows h
  call-IsHeld db worker now (fails job error permanent) other h =
      update_where-IsHeld _ _ (λ s. refl) (λ s same. held_by_other job.id worker s other) db.rows h

  call_all-IsHeld :
      (db : Repository) (calls : List (String × ℕ × Call))
      → All Spares calls
      → All (IsHeld job_id owner until) db.rows
      → All (IsHeld job_id owner until) (call_all db calls).rows
  call_all-IsHeld db [] s h = h
  call_all-IsHeld db ((worker, now, c) ∷ rest) s h =
      call_all-IsHeld (call db worker now c) rest s.1 (call-IsHeld db worker now c s.0 h)

  missed_by :
      (thief : String) (r : JobRow)
      → thief ≢ owner
      → IsHeld job_id owner until r
      → is_held_by job_id thief r ≡ false
  unfolding is_held_by
  missed_by thief r other (inl different) = rw (not_self r.id job_id different) refl
  missed_by thief r other (inr lease) = held_by_other job_id thief r other lease

  misses-All :
      (thief : String) (rows : List JobRow)
      → thief ≢ owner
      → All (IsHeld job_id owner until) rows
      → rowcount (is_held_by job_id thief) rows ≡ 0
  unfolding rowcount
  misses-All thief [] other h = refl
  misses-All thief (r ∷ rows) other h =
      let missed : is_held_by job_id thief r ≡ false = missed_by thief r other h.0 in
      rw missed (misses-All thief rows other h.1)

  abbrev pub IsOtherJob : Option Job → Type 0
  IsOtherJob none = Unit
  IsOtherJob (some job) = job.id ≢ job_id

  claim-IsOtherJob :
      (db : Repository) (thief : String) (now : ℕ) (o : Option JobRow)
      → ((r : JobRow) → o ≡ some r → r.id ≢ job_id)
      → IsOtherJob (claim_row db thief now o).1
  unfolding claim_row leased_to job_of
  claim-IsOtherJob db thief now none other = tt
  claim-IsOtherJob db thief now (some r) other = other r refl

  -- Where the rows with an id are leased to `owner` until `until` at least, and calls of other workers
  -- follow, whose new jobs have other ids and whose claims are made before `until`: the rows are still
  -- leased so, no claim before `until` returns the job, and no other worker completes it.
  pub leases_are_exclusive :
      (db : Repository) (calls : List (String × ℕ × Call)) (thief : String) (now : ℕ)
      (tag : Option String)
      → All (IsHeld job_id owner until) db.rows
      → All Spares calls
      → now < until
      → thief ≢ owner
      → All (IsHeld job_id owner until) (call_all db calls).rows
        × IsOtherJob (claim (call_all db calls) thief now tag).1
        × ((complete (call_all db calls) job_id thief now).1 ≡ false)
  unfolding claim complete
  leases_are_exclusive db calls thief now tag h s early other =
      let held = call_all-IsHeld db calls s h in
      (
        held,
        claim-IsOtherJob (call_all db calls) thief now _
            (λ r. not_chosen (call_all db calls) now tag r held early),
        rw (misses-All thief (call_all db calls).rows other held) refl,
      )
