-- ===== src/Jobs/Runs.antt =====
-- The jobs of app/services/jobs.py and forecasting/runner.py and the two triggers of
-- app/routers/admin.py: a claim, the job's body, and a release in `finally`. A call of a lock function
-- that raises is taken not to have changed the locks.
use sih.Prelude.{Bool, Option, false, if◌then◌else◌, none, some, true, ℕ}
use sih.Jobs.Locks.{Locks, claim_job_lock, default_ttl, lock_ttl, release_job_lock}

abbrev pub alert_check : ℕ
alert_check = 0

abbrev pub mark_stale : ℕ
mark_stale = 1

abbrev pub expire_offers_key : ℕ
expire_offers_key = 2

abbrev pub ingestion_key : ℕ
ingestion_key = 3

abbrev pub forecast_key : ℕ
forecast_key = 4

-- The holders.
abbrev pub scheduler : ℕ
scheduler = 0

abbrev pub admin_trigger : ℕ
admin_trigger = 1

-- How the body ends: with a value, an HTTPException or another exception.
pub data Ended (A : Type 0) : Type 0 where
  returned : A → Ended A
  http_raised : ℕ → Ended A
  exception_raised : Ended A

-- Whether the body ran, and how it ended.
pub data Guarded (A : Type 0) : Type 0 where
  claim_raised : Guarded A
  was_locked : Guarded A
  body_ran : Ended A → Guarded A

pub record LockCalls : Type 0 where
  pub claim_works : Bool
  pub release_works : Bool

-- What a job returns or raises.
pub data JobResult (A : Type 0) : Type 0 where
  job_locked : JobResult A
  job_done : A → JobResult A
  job_raised : JobResult A

abbrev pub released : Bool → ℕ → ℕ → Locks → Locks
released works key holder m = if works then release_job_lock key holder m else m

-- In the scheduler's jobs an exception of the release is raised in the place of the body's result.
abbrev pub job_result : {A : Type 0} → Bool → Guarded A → JobResult A
job_result works claim_raised = job_raised
job_result works was_locked = job_locked
job_result works (body_ran (returned a)) = if works then job_done a else job_raised
job_result works (body_ran (http_raised code)) = job_raised
job_result works (body_ran exception_raised) = job_raised

-- In the admin's triggers the exceptions of the body become a 503 and those of the release are only
-- logged; one of the claim is not caught.
abbrev pub trigger_result : {A : Type 0} → Guarded A → Ended (Option A)
trigger_result claim_raised = exception_raised
trigger_result was_locked = returned none
trigger_result (body_ran (returned a)) = returned (some a)
trigger_result (body_ran (http_raised code)) = http_raised code
trigger_result (body_ran exception_raised) = http_raised 503

module _ {Db A : Type 0} where
  unfoldable pub run_body :
      LockCalls
      → ℕ
      → ℕ
      → (Locks × Db → Ended A × Locks × Db)
      → Bool × Locks
      → Db
      → Guarded A × Locks × Db
  run_body calls key holder body (false, m) db = (was_locked, m, db)
  run_body calls key holder body (true, m) db =
      let (e, after, db') = body (m, db) in
      (body_ran e, released calls.release_works key holder after, db')

  unfoldable pub guard_job :
      LockCalls
      → (now ttl key holder : ℕ) → (Locks × Db → Ended A × Locks × Db)
      → Locks × Db
      → Guarded A × Locks × Db
  unfolding run_body
  guard_job calls now ttl key holder body (m, db) =
      if calls.claim_works
      then run_body calls key holder body (claim_job_lock now ttl key holder m) db
      else (claim_raised, m, db)

  unfoldable pub run_job :
      LockCalls
      → (now ttl key : ℕ) → (Locks × Db → Ended A × Locks × Db)
      → Locks × Db
      → JobResult A × Locks × Db
  unfolding guard_job
  run_job calls now ttl key body w =
      let (g, m', db') = guard_job calls now ttl key scheduler body w in
      (job_result calls.release_works g, m', db')

  unfoldable pub trigger_job :
      LockCalls
      → (now key : ℕ) → (Locks × Db → Ended A × Locks × Db)
      → Locks × Db
      → Ended (Option A) × Locks × Db
  unfolding guard_job
  trigger_job calls now key body w =
      let (g, m', db') = guard_job calls now lock_ttl key admin_trigger body w in
      (trigger_result g, m', db')

  abbrev pub run_alert_job :
      LockCalls → ℕ → (Locks × Db → Ended A × Locks × Db) → Locks × Db → JobResult A × Locks × Db
  run_alert_job calls now checker w = run_job calls now lock_ttl alert_check checker w

  abbrev pub run_stale_forecasts_job :
      LockCalls → ℕ → (Locks × Db → Ended A × Locks × Db) → Locks × Db → JobResult A × Locks × Db
  run_stale_forecasts_job calls now mark w = run_job calls now lock_ttl mark_stale mark w

  abbrev pub run_expire_offers_job :
      LockCalls → ℕ → (Locks × Db → Ended A × Locks × Db) → Locks × Db → JobResult A × Locks × Db
  run_expire_offers_job calls now expire w = run_job calls now lock_ttl expire_offers_key expire w

  -- forecasting/runner.py names no time for its claim.
  abbrev pub run_forecast_job :
      LockCalls → ℕ → (Locks × Db → Ended A × Locks × Db) → Locks × Db → JobResult A × Locks × Db
  run_forecast_job calls now engine w = run_job calls now default_ttl forecast_key engine w

  abbrev pub trigger_forecast :
      LockCalls
      → ℕ
      → (Locks × Db → Ended A × Locks × Db)
      → Locks × Db
      → Ended (Option A) × Locks × Db
  trigger_forecast calls now engine w = trigger_job calls now forecast_key engine w

  abbrev pub trigger_alert_check :
      LockCalls
      → ℕ
      → (Locks × Db → Ended A × Locks × Db)
      → Locks × Db
      → Ended (Option A) × Locks × Db
  trigger_alert_check calls now checker w = trigger_job calls now alert_check checker w
