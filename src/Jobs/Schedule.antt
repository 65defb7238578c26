-- ===== src/Jobs/Schedule.antt =====
-- app/services/jobs.py: the ingestion job, the catch-up at start-up and the scheduler. Instants and
-- durations are in microseconds.
use sih.Prelude.{
  Bool, List, Option, [], false, if◌then◌else◌, ltb, none, not, some, true, ℕ, ◌&&◌, ◌*◌, ◌+◌, ◌∷◌,
}
use sih.Jobs.Locks.{Locks, lock_ttl}
use sih.Jobs.Runs.{
  Ended, JobResult, LockCalls, alert_check, expire_offers_key, forecast_key, ingestion_key,
  job_done, job_locked, job_raised, mark_stale, returned, run_job,
}
use sih.Market.Offers.{hour}

abbrev pub minute : ℕ
minute = 60_000_000

pub data AdapterName : Type 0 where
  data_gov_in_adapter agmarknet_adapter : AdapterName

pub record Settings : Type 0 where
  -- Whether the key is set, and whether it is still the placeholder of the sample file.
  pub has_api_key : Bool
  pub is_placeholder : Bool
  pub enable_agmarknet : Bool
  pub run_scheduler : Bool
  pub ingestion_interval_hours : ℕ
  pub forecast_interval_hours : ℕ
  pub alert_check_interval_minutes : ℕ

-- The adapters that the settings name; agmarknet's is left out when its module cannot be imported.
abbrev pub configured_adapters : Settings → Bool → List AdapterName
configured_adapters s importable =
    let agmarknet_part = if s.enable_agmarknet && importable then agmarknet_adapter ∷ [] else [] in
    if s.has_api_key && not s.is_placeholder
    then data_gov_in_adapter ∷ agmarknet_part
    else agmarknet_part

module _ {Db : Type 0} (runner : List AdapterName → Locks × Db → Ended Unit × Locks × Db) where
  unfoldable pub ingest : List AdapterName → Locks × Db → Ended Unit × Locks × Db
  ingest [] (m, db) = (returned tt, m, db)
  ingest (a ∷ others) w = runner (a ∷ others) w

  unfoldable pub run_ingestion_job :
      LockCalls → Settings → Bool → ℕ → Locks × Db → JobResult Unit × Locks × Db
  unfolding ingest run_job
  run_ingestion_job calls s importable now w =
      run_job calls now lock_ttl ingestion_key (ingest (configured_adapters s importable)) w

-- How the catch-up ends: an exception is only logged.
pub data CatchUp : Type 0 where
  catch_up_skipped catch_up_done catch_up_failed : CatchUp

-- `_run_catchup_task`, with the answer of the query for the last success: none when it or the parse of
-- its time raises.
module _ {A B W : Type 0} (ingestion : W → JobResult A × W) (forecast : W → JobResult B × W) where
  abbrev pub is_raised : {R : Type 0} → JobResult R → Bool
  is_raised job_locked = false
  is_raised (job_done a) = false
  is_raised job_raised = true

  abbrev pub ended_well : Bool × W → CatchUp × W
  ended_well (raised_b, w) = (if raised_b then catch_up_failed else catch_up_done, w)

  unfoldable pub catch_up : W → CatchUp × W
  catch_up w =
      let (a, w') = ingestion w in
      let (b, w'') = forecast w' in
      if is_raised a then (catch_up_failed, w') else ended_well (is_raised b, w'')

  unfoldable pub run_catchup_task : Option (Option ℕ) → Settings → ℕ → W → CatchUp × W
  unfolding catch_up
  run_catchup_task none s now w = (catch_up_failed, w)
  run_catchup_task (some none) s now w = catch_up w
  run_catchup_task (some (some last_run)) s now w =
      if ltb now (last_run + s.ingestion_interval_hours * hour)
      then (catch_up_skipped, w)
      else catch_up w

pub record ScheduledJob : Type 0 where
  pub key : ℕ
  pub interval : ℕ
  pub start_date : ℕ

-- `setup_scheduler`
unfoldable pub setup_scheduler : Settings → ℕ → Option (List ScheduledJob)
setup_scheduler s now =
    if s.run_scheduler
    then some (
        record {
          key = ingestion_key;
          interval = s.ingestion_interval_hours * hour;
          start_date = now;
        }
        ∷ record {
          key = forecast_key;
          interval = s.forecast_interval_hours * hour;
          start_date = now + 5 * minute;
        }
        ∷ record {
          key = alert_check;
          interval = s.alert_check_interval_minutes * minute;
          start_date = now + 10 * minute;
        }
        ∷ record {
          key = mark_stale;
          interval = s.forecast_interval_hours * hour;
          start_date = now + 15 * minute;
        }
        ∷ record { key = expire_offers_key; interval = hour; start_date = now + 20 * minute }
        ∷ [])
    else none
