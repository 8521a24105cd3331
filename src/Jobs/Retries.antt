-- ===== src/Jobs/Retries.antt =====
-- What a failure leaves: a job that is never claimed again, or one that waits for a bounded time.
use ai_driven_autonomous_no.Prelude.{
  ℕ, zero, suc, ◌+◌, ◌-◌, ◌*◌, ◌^◌, ◌≤◌, ◌≡◌, refl, ap, ◌∙◌, String, Bool, true, false, not, ◌&&◌,
  ◌||◌, none, List, [], ◌∷◌, ◌++◌, leb, min, arith, text_take, if◌then◌else◌,
}
use ai_driven_autonomous_no.Jobs.{
  JobRow, Job, Repository, is_claimable, is_pending, is_running, is_over, has_tag, update_where,
  is_held_by, backoff_seconds, is_final, failed_row, fail,
}

min_double : (x : ℕ) → 1 ≤ x → min 16 (2 * x) ≡ min 16 (2 * min 16 x)
min_double x h = grind arith

power_pos : (k : ℕ) → 1 ≤ 2 ^ k
power_pos zero = omega arith
power_pos (suc k) = omega (arith, power_pos k)

-- The delay is one second after the first attempt, doubles with each attempt, and is at most sixteen.
backoff_doubles :
    (k : ℕ)
    → (backoff_seconds 1 ≡ 1)
      × (backoff_seconds (suc (suc k)) ≡ min 16 (2 * backoff_seconds (suc k)))
      × (1 ≤ backoff_seconds k)
      × (backoff_seconds k ≤ 16)
unfolding backoff_seconds
backoff_doubles k =
    let p = power_pos k in
    let q = power_pos (k - 1) in
    let one : suc (suc k) - 1 ≡ suc k = omega arith in
    let none_left : suc k - 1 ≡ k = omega arith in
    let twice : 2 ^ suc k ≡ 2 * 2 ^ k = omega arith in
    (refl, rw (one, none_left, twice) (min_double (2 ^ k) p), grind arith, grind arith)

update_where-append :
    (test : JobRow → Bool) (change : JobRow → JobRow) (before : List JobRow) (r : JobRow)
    (after : List JobRow)
    → test r ≡ true
    → update_where test change (before ++ r ∷ after)
      ≡ update_where test change before ++ change r ∷ update_where test change after
unfolding update_where
update_where-append test change [] r after h = rw h refl
update_where-append test change (s ∷ before) r after h =
    ap (λ rest. (if test s then change s else s) ∷ rest)
      (update_where-append test change before r after h)

failed_row-is_claimable :
    (final : Bool) (error : String) (now available t : ℕ) (r : JobRow)
    → is_claimable t none (failed_row final error now available r) ≡ (not final && leb available t)
unfolding is_claimable failed_row is_pending is_running is_over has_tag
failed_row-is_claimable true error now available t r = refl
failed_row-is_claimable false error now available t r = ground arith

kept :
    (final : Bool) (error : String) (now available : ℕ) (r : JobRow)
    → (failed_row final error now available r).id ≡ r.id
unfolding failed_row
kept final error now available r = refl

freed :
    (final : Bool) (error : String) (now available : ℕ) (r : JobRow)
    → (failed_row final error now available r).lease_owner ≡ none
unfolding failed_row
freed final error now available r = refl

-- A worker's failure of a job that it holds releases the job's row: a permanent failure, or one at the
-- attempts' limit, is never claimed again, and any other is claimable from the end of its delay on.
pub fail-is_claimable :
    (db : Repository) (before after : List JobRow) (r : JobRow) (job : Job) (worker error : String)
    (permanent : Bool) (now t : ℕ)
    → db.rows ≡ before ++ r ∷ after
    → is_held_by job.id worker r ≡ true
    → (before' : List JobRow) × (r' : JobRow) × (after' : List JobRow) × ((fail db job worker error
          permanent now).0.rows
        ≡ before' ++ r' ∷ after')
      × (r'.id ≡ r.id)
      × (r'.lease_owner ≡ none)
      × (is_claimable t none r' ≡ (
          not (permanent || leb db.max_attempts job.attempts)
          && leb (now + backoff_seconds job.attempts) t))
unfolding fail is_final
fail-is_claimable db before after r job worker error permanent now t rows held =
    let final = permanent || leb db.max_attempts job.attempts in
    let available = now + backoff_seconds job.attempts in
    let test = is_held_by job.id worker in
    let change = failed_row final (text_take 128 error) now available in
    (
      update_where test change before,
      change r,
      update_where test change after,
      ap (update_where test change) rows ∙ update_where-append test change before r after held,
      kept final (text_take 128 error) now available r,
      freed final (text_take 128 error) now available r,
      failed_row-is_claimable final (text_take 128 error) now available t r,
    )
