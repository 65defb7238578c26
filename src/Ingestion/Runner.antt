-- ===== src/Ingestion/Runner.antt =====
-- ingestion/runner.py: `IngestionRunner.run` from the reference data on. What an adapter fetches for a
-- key is an argument, and so is the upsert of rows, where none is an exception. Texts of errors are
-- values; the row of the log is what is written, also where the insert is refused.
pub mod Counts
pub mod Chunks
pub mod Strict
pub mod Success
use sih.Prelude.{
  Bool, List, Option, [], false, if◌then◌else◌, length, none, not, some, suc, take, true, zero, ℕ,
  ◌&&◌, ◌++◌, ◌+◌, ◌==◌, ◌∷◌,
}
use sih.Prelude.Sort.{drop}
use sih.Store.{rejected}
use sih.Ingestion.Metadata.{Metadata, PriceEntry, entry_of, fetch_keys}
use sih.Ingestion.Pages.{Fetched, fetch_error, fetched, raised}
use sih.Prices.Names.{Text}
use sih.Prices.Validator.{Floats, RawPriceRecord}

pub data RunStatus : Type 0 where
  success partial failed : RunStatus

pub data Problem : Type 0 where
  no_aliases key_failed adapter_failed metadata_failed : Problem
  chunks_failed : ℕ → Problem

-- A row of ingestion_log: none for the source "system".
pub record LogEntry : Type 0 where
  pub source : Option ℕ
  pub status : RunStatus
  pub records_seen : ℕ
  pub records_written : ℕ
  pub records_rejected : ℕ
  pub problems : List Problem

pub record Adapter (F : Floats) : Type 0 where
  pub source_name : ℕ
  pub fetch_prices : Text → Fetched (List (RawPriceRecord F))

abbrev pub is_empty_list : List Problem → Bool
is_empty_list [] = true
is_empty_list (p ∷ ps) = false

abbrev pub status_of : ℕ → ℕ → List Problem → RunStatus
status_of in_all turned_down problems =
    if not (is_empty_list problems) && in_all == 0
    then failed
    else if turned_down == 0 && is_empty_list problems
    then success
    else partial

-- The failed chunks are one more problem.
abbrev pub with_errors : ℕ → List Problem → List Problem
with_errors errors problems =
    if errors == 0 then problems else problems ++ chunks_failed errors ∷ []

abbrev pub upsert_chunk : ℕ
upsert_chunk = 200

-- The slices of at most 200 rows; the length of the list is fuel enough.
unfoldable pub chunks : {A : Type 0} → ℕ → List A → List (List A)
chunks zero l = []
chunks (suc fuel) [] = []
chunks (suc fuel) (x ∷ xs) = take upsert_chunk (x ∷ xs) ∷ chunks fuel (drop upsert_chunk (x ∷ xs))

module _ (F : Floats) (is_space : ℕ → Bool) (lower : Text → Text) where
  -- What the loop over the keys has counted and kept.
  pub record Tally : Type 0 where
    pub seen : ℕ
    pub rejected : ℕ
    pub entries : List (PriceEntry F)
    pub problems : List Problem

  abbrev pub start_tally : Tally
  start_tally = record { seen = 0; rejected = 0; entries = []; problems = [] }

  module _ (meta : Metadata F) where
    -- A record that gives no row is rejected.
    unfoldable pub tally_entry : Option (PriceEntry F) → Tally → Tally
    tally_entry none t = record t { rejected = t.rejected + 1 }
    tally_entry (some e) t = record t { entries = t.entries ++ e ∷ [] }

    -- The loop over the records of a key.
    unfoldable pub tally_records : List (RawPriceRecord F) → Tally → Tally
    unfolding tally_entry
    tally_records [] t = t
    tally_records (r ∷ rs) t = tally_records rs (tally_entry (entry_of F is_space lower meta r) t)

    -- What is fetched for a key, and how the loop goes on: false when an exception ends it.
    unfoldable pub tally_key :
        Fetched (List (RawPriceRecord F)) → Tally → (Tally → Tally × Bool) → Tally × Bool
    unfolding tally_records
    tally_key fetch_error t next = next (record t { problems = t.problems ++ key_failed ∷ [] })
    tally_key raised t next = (t, false)
    tally_key (fetched found) t next =
        next (tally_records found (record t { seen = t.seen + length found }))

    -- The loop over the keys.
    unfoldable pub tally_keys :
        (Text → Fetched (List (RawPriceRecord F))) → List Text → Tally → Tally × Bool
    unfolding tally_key
    tally_keys fetch [] t = (t, true)
    tally_keys fetch (k ∷ ks) t = tally_key (fetch k) t (λ t'. tally_keys fetch ks t')

    module _ {Db : Type 0} (upsert : List (PriceEntry F) → Db → Option Db) where
      -- A chunk that fails changes nothing and is counted.
      unfoldable pub count_chunk : ℕ → Option Db → Db → (Db → ℕ × ℕ × Db) → ℕ × ℕ × Db
      count_chunk size none db next =
          let (written, errors, db') = next db in (written, errors + 1, db')
      count_chunk size (some after) db next =
          let (written, errors, db') = next after in (size + written, errors, db')

      -- The loop over the chunks: the rows written, the chunks that failed, and the tables.
      unfoldable pub write_chunks : List (List (PriceEntry F)) → Db → ℕ × ℕ × Db
      unfolding count_chunk
      write_chunks [] db = (0, 0, db)
      write_chunks (c ∷ cs) db = count_chunk (length c) (upsert c db) db (λ d. write_chunks cs d)

      -- From the upserts on.
      unfoldable pub store_tally : ℕ → Tally → Db → LogEntry × Db
      unfolding write_chunks chunks
      store_tally source t db =
          let (written, errors, db') = write_chunks (chunks (length t.entries) t.entries) db in
          let problems = with_errors errors t.problems in
          (
            record {
              source = some source;
              status = status_of t.seen t.rejected problems;
              records_seen = t.seen;
              records_written = written;
              records_rejected = t.rejected;
              problems = problems;
            },
            db',
          )

      abbrev pub finish_adapter : ℕ → Tally × Bool → Db → LogEntry × Db
      finish_adapter source (t, true) db = store_tally source t db
      finish_adapter source (t, false) db = (
        record {
          source = some source;
          status = failed;
          records_seen = t.seen;
          records_written = 0;
          records_rejected = t.rejected;
          problems = adapter_failed ∷ [];
        },
        db,
      )

      unfoldable pub run_keys :
          ℕ → (Text → Fetched (List (RawPriceRecord F))) → List Text → Db → LogEntry × Db
      unfolding tally_keys store_tally
      run_keys source fetch [] db = (
        record {
          source = some source;
          status = failed;
          records_seen = 0;
          records_written = 0;
          records_rejected = 0;
          problems = no_aliases ∷ [];
        },
        db,
      )
      run_keys source fetch (k ∷ ks) db =
          finish_adapter source (tally_keys fetch (k ∷ ks) start_tally) db

      unfoldable pub run_adapter : Adapter F → Db → LogEntry × Db
      unfolding run_keys fetch_keys
      run_adapter a db =
          run_keys a.source_name a.fetch_prices (fetch_keys a.source_name [] meta.aliases) db

      unfoldable pub run_adapters : List (Adapter F) → Db → List LogEntry × Db
      unfolding run_adapter
      run_adapters [] db = ([], db)
      run_adapters (a ∷ rest) db =
          let (entry, after) = run_adapter a db in
          let (log, db') = run_adapters rest after in (entry ∷ log, db')

  -- Without the reference data one row says that the run failed.
  unfoldable pub run :
      {Db : Type 0}
      → (List (PriceEntry F) → Db → Option Db)
      → Option (Metadata F)
      → List (Adapter F)
      → Db
      → List LogEntry × Db
  unfolding run_adapters
  run upsert none adapters db = (
    record {
      source = none;
      status = failed;
      records_seen = 0;
      records_written = 0;
      records_rejected = 0;
      problems = metadata_failed ∷ [];
    }
        ∷ [],
    db,
  )
  run upsert (some meta) adapters db = run_adapters meta upsert adapters db
