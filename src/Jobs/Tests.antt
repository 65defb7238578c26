-- ===== src/Jobs/Tests.antt =====
-- Concrete runs of the job locks.
use sih.Prelude.{arith, false, inl, none, refl, true, ℕ, ◌+◌, ◌≡◌, ◌≢◌, ◌⊎◌}
use sih.Jobs.Free.{IsHonest, IsLocked, guard_job-frees}
use sih.Jobs.Locks.{
  Locks, Meanwhile, at_first, claim_job_lock, claim_job_lock-exclusive, claims, lock_ttl,
  release_job_lock, releases,
}
use sih.Jobs.Runs.{Ended, LockCalls, exception_raised, guard_job}

abbrev no_locks : Locks
no_locks = λ _. none

-- Holder 1 has taken job 4 at instant 10.
abbrev taken : Locks
taken = (claim_job_lock 10 lock_ttl 4 1 no_locks).1

taken_lem : (claim_job_lock 10 lock_ttl 4 1 no_locks).0 ≡ true
unfolding claim_job_lock
taken_lem = refl

two_apart : ℕ.suc 1 ≢ 1
two_apart e = omega arith

-- Holder 2 fails to claim the job, and its release changes nothing.
interrupted :
    Meanwhile
      (10 + lock_ttl)
      4
      1
      taken
      (release_job_lock 4 2 (claim_job_lock 20 lock_ttl 4 2 taken).1)
interrupted = releases (claims at_first 20 lock_ttl 4 2 (omega arith)) 4 2 (inl two_apart)

claim_job_lock-exclusive_example :
    claim_job_lock 30 lock_ttl 4 2 (release_job_lock 4 2 (claim_job_lock 20 lock_ttl 4 2 taken).1)
    ≡ (false, release_job_lock 4 2 (claim_job_lock 20 lock_ttl 4 2 taken).1)
claim_job_lock-exclusive_example =
    claim_job_lock-exclusive 10 lock_ttl 4 1 no_locks taken_lem interrupted 30 lock_ttl 2
      (omega arith)

claim_expired : (claim_job_lock 2_700_000_011 lock_ttl 4 2 taken).0 ≡ true
unfolding claim_job_lock
claim_expired = refl

-- A body that raises, while holder 2 fails to claim its job.
abbrev failing_body : Locks × ℕ → Ended ℕ × Locks × ℕ
failing_body (m, db) = (exception_raised, (claim_job_lock 20 lock_ttl 4 2 m).1, db + 1)

abbrev all_calls : LockCalls
all_calls = record { claim_works = true; release_works = true }

guard_job-frees_example :
    IsLocked all_calls 10 lock_ttl 4 1 failing_body no_locks 7
      (guard_job all_calls 10 lock_ttl 4 1 failing_body (no_locks, 7))
    ⊎ IsHonest all_calls 10 lock_ttl 4 1 failing_body 7
        (guard_job all_calls 10 lock_ttl 4 1 failing_body (no_locks, 7))
guard_job-frees_example =
    guard_job-frees all_calls 10 lock_ttl 4 1 failing_body no_locks 7 refl
      (λ m db. claims at_first 20 lock_ttl 4 2 (omega arith))
