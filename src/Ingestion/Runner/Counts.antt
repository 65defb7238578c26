-- ===== src/Ingestion/Runner/Counts.antt =====
-- The counts of an adapter's run.
use sih.Prelude.{
  All, Bool, List, Option, [], ap, arith, false, length, length-append, map, none, refl, some, suc,
  take, true, zero, ℕ, ◌+◌, ◌-◌, ◌∙◌, ◌∷◌, ◌≡◌, ◌≤◌,
}
use sih.Prelude.Sort.{drop, take-append-drop}
use sih.Ingestion.Metadata.{Metadata, PriceEntry, entry_of}
use sih.Ingestion.Pages.{Fetched, fetch_error, fetched, raised}
use sih.Ingestion.Runner.{
  Adapter, LogEntry, Problem, Tally, chunks, count_chunk, finish_adapter, run, run_adapter,
  run_adapters, run_keys, start_tally, status_of, store_tally, success, tally_entry, tally_key,
  tally_keys, tally_records, upsert_chunk, with_errors, write_chunks,
}
use sih.Prices.Names.{Text}
use sih.Prices.Validator.{Floats, RawPriceRecord}

-- How many rows the chunks hold.
abbrev pub total_length : {A : Type 0} → List (List A) → ℕ
total_length [] = 0
total_length (c ∷ cs) = length c + total_length cs

pub length-drop : {A : Type 0} (n : ℕ) (l : List A) → length (drop n l) ≡ length l - n
length-drop zero l = omega arith
length-drop (suc n) [] = omega arith
length-drop (suc n) (x ∷ xs) = omega (arith, length-drop n xs)

length-take-drop :
    {A : Type 0} (n : ℕ) (l : List A) → length (take n l) + length (drop n l) ≡ length l
length-take-drop n l =
    omega (arith, length-append (take n l) (drop n l), ap length (take-append-drop n l))

pub total_length-chunks :
    {A : Type 0} (fuel : ℕ) (l : List A) → length l ≤ fuel → total_length (chunks fuel l) ≡ length l
unfolding chunks
total_length-chunks zero [] h = refl
total_length-chunks zero (x ∷ xs) h = elim h [ ]
total_length-chunks (suc fuel) [] h = refl
total_length-chunks (suc fuel) (x ∷ xs) h = omega (
  arith,
  total_length-chunks fuel (drop upsert_chunk (x ∷ xs))
      (omega (arith, h, length-drop upsert_chunk (x ∷ xs))),
  length-take-drop upsert_chunk (x ∷ xs),
)

pub status_of-success :
    (in_all turned_down : ℕ) (problems : List Problem)
    → status_of in_all turned_down problems ≡ success
    → (turned_down ≡ 0) × (problems ≡ [])
status_of-success in_all turned_down [] h = (ground (arith, h), refl)
status_of-success in_all turned_down (p ∷ ps) h = ground (arith, h)

pub with_errors-empty :
    (errors : ℕ) (problems : List Problem)
    → with_errors errors problems ≡ []
    → (errors ≡ 0) × (problems ≡ [])
with_errors-empty zero problems h = (refl, h)
with_errors-empty (suc e) [] h = ground (arith, h)
with_errors-empty (suc e) (p ∷ ps) h = ground (arith, h)

cong_cons : {A : Type 0} {a b : A} {k l : List A} → a ≡ b → k ≡ l → a ∷ k ≡ b ∷ l
cong_cons e e' = cc

module _ (F : Floats) (is_space : ℕ → Bool) (lower : Text → Text) (meta : Metadata F) where
  -- Every record seen is kept or rejected.
  abbrev pub Balanced : Tally F is_space lower → Type 0
  Balanced t = t.rejected + length t.entries ≡ t.seen

  tally_entry_lem :
      (o : Option (PriceEntry F)) (t : Tally F is_space lower)
      → let t' = tally_entry F is_space lower meta o t in
        (t'.seen ≡ t.seen) × (t'.rejected + length t'.entries ≡ t.rejected + length t.entries + 1)
  unfolding tally_entry
  tally_entry_lem none t = (refl, omega arith)
  tally_entry_lem (some e) t = (refl, omega (arith, length-append t.entries (e ∷ [])))

  tally_records_lem :
      (rs : List (RawPriceRecord F)) (t : Tally F is_space lower)
      → let t' = tally_records F is_space lower meta rs t in
        (t'.seen ≡ t.seen)
        × (t'.rejected + length t'.entries ≡ t.rejected + length t.entries + length rs)
  unfolding tally_records
  tally_records_lem [] t = (refl, omega arith)
  tally_records_lem (r ∷ rs) t =
      let o = entry_of F is_space lower meta r in
      let (same, one) = tally_entry_lem o t in
      let (seen, more) = tally_records_lem rs (tally_entry F is_space lower meta o t) in
      (seen ∙ same, omega (arith, one, more))

  tally_key-Balanced :
      (f : Fetched (List (RawPriceRecord F))) (t : Tally F is_space lower)
      (next : Tally F is_space lower → Tally F is_space lower × Bool)
      → ((t' : Tally F is_space lower) → Balanced t' → Balanced (next t').0)
      → Balanced t
      → Balanced (tally_key F is_space lower meta f t next).0
  unfolding tally_key
  tally_key-Balanced fetch_error t next k h = k _ h
  tally_key-Balanced raised t next k h = h
  tally_key-Balanced (fetched found) t next k h =
      let (seen, all_counted) =
        tally_records_lem found (record t { seen = t.seen + length found }) in
      k _ (omega (arith, seen, all_counted, h))

  tally_keys-Balanced :
      (fetch : Text → Fetched (List (RawPriceRecord F))) (ks : List Text)
      (t : Tally F is_space lower)
      → Balanced t
      → Balanced (tally_keys F is_space lower meta fetch ks t).0
  unfolding tally_keys
  tally_keys-Balanced fetch [] t h = h
  tally_keys-Balanced fetch (k ∷ ks) t h =
      tally_key-Balanced (fetch k) t _ (λ t' b. tally_keys-Balanced fetch ks t' b) h

  module _ {Db : Type 0} (upsert : List (PriceEntry F) → Db → Option Db) where
    -- No more rows are written than there are, and all if no chunk fails.
    count_chunk_lem :
        (size rest : ℕ) (o : Option Db) (db : Db) (next : Db → ℕ × ℕ × Db)
        → ((d : Db) → ((next d).0 ≤ rest) × ((next d).1 ≡ 0 → (next d).0 ≡ rest))
        → let out = count_chunk F is_space lower meta upsert size o db next in
          (out.0 ≤ size + rest) × (out.1 ≡ 0 → out.0 ≡ size + rest)
    unfolding count_chunk
    count_chunk_lem size rest none db next h =
        (omega (arith, (h db).0), (λ e. absurd (omega (arith, e))))
    count_chunk_lem size rest (some after) db next h =
        (omega (arith, (h after).0), (λ e. ap (λ n. size + n) ((h after).1 e)))

    pub write_chunks_lem :
        (cs : List (List (PriceEntry F))) (db : Db)
        → let out = write_chunks F is_space lower meta upsert cs db in
          (out.0 ≤ total_length cs) × (out.1 ≡ 0 → out.0 ≡ total_length cs)
    unfolding write_chunks
    write_chunks_lem [] db = (omega arith, (λ e. refl))
    write_chunks_lem (c ∷ cs) db =
        count_chunk_lem (length c) (total_length cs) (upsert c db) db _ (λ d. write_chunks_lem cs d)

    -- The counts of a row of the log agree.
    abbrev pub IsAccount : LogEntry → Type 0
    IsAccount e =
        (e.records_written + e.records_rejected ≤ e.records_seen)
        × (e.status ≡ success
            → (e.records_written ≡ e.records_seen) × (e.records_rejected ≡ 0) × (e.problems ≡ []))

    store_tally-IsAccount :
        (source : ℕ) (t : Tally F is_space lower) (db : Db)
        → Balanced t
        → IsAccount (store_tally F is_space lower meta upsert source t db).0
    unfolding store_tally
    store_tally-IsAccount source t db h =
        let cs = chunks (length t.entries) t.entries in
        let (most, all_written) = write_chunks_lem cs db in
        let whole = total_length-chunks (length t.entries) t.entries (omega arith) in
        (
          omega (arith, most, whole, h),
          λ e.
              let (none_rejected, no_problem) = status_of-success _ _ _ e in
              let (no_error, none_before) = with_errors-empty _ t.problems no_problem in
              (
                omega (arith, all_written no_error, whole, h, none_rejected),
                none_rejected,
                no_problem,
              ),
        )

    finish_adapter-IsAccount :
        (source : ℕ) (end : Tally F is_space lower × Bool) (db : Db)
        → Balanced end.0
        → IsAccount (finish_adapter F is_space lower meta upsert source end db).0
    finish_adapter-IsAccount source (t, true) db h = store_tally-IsAccount source t db h
    finish_adapter-IsAccount source (t, false) db h = (omega (arith, h), (λ e. cc))

    run_keys-IsAccount :
        (source : ℕ) (fetch : Text → Fetched (List (RawPriceRecord F))) (ks : List Text) (db : Db)
        → IsAccount (run_keys F is_space lower meta upsert source fetch ks db).0
    unfolding run_keys
    run_keys-IsAccount source fetch [] db = (omega arith, (λ e. cc))
    run_keys-IsAccount source fetch (k ∷ ks) db =
        finish_adapter-IsAccount source
          (tally_keys F is_space lower meta fetch (k ∷ ks) (start_tally F is_space lower)) db
          (tally_keys-Balanced fetch (k ∷ ks) (start_tally F is_space lower) refl)

    run_adapters-All :
        (adapters : List (Adapter F)) (db : Db)
        → All IsAccount (run_adapters F is_space lower meta upsert adapters db).0
    unfolding run_adapters run_adapter
    run_adapters-All [] db = tt
    run_adapters-All (a ∷ rest) db = (
      run_keys-IsAccount a.source_name a.fetch_prices _ db,
      run_adapters-All rest (run_adapter F is_space lower meta upsert a db).1,
    )

    finish_adapter-source :
        (source : ℕ) (end : Tally F is_space lower × Bool) (db : Db)
        → (finish_adapter F is_space lower meta upsert source end db).0.source ≡ some source
    unfolding store_tally
    finish_adapter-source source (t, true) db = refl
    finish_adapter-source source (t, false) db = refl

    run_keys-source :
        (source : ℕ) (fetch : Text → Fetched (List (RawPriceRecord F))) (ks : List Text) (db : Db)
        → (run_keys F is_space lower meta upsert source fetch ks db).0.source ≡ some source
    unfolding run_keys
    run_keys-source source fetch [] db = refl
    run_keys-source source fetch (k ∷ ks) db =
        finish_adapter-source source
          (tally_keys F is_space lower meta fetch (k ∷ ks) (start_tally F is_space lower)) db

    run_adapters-sources :
        (adapters : List (Adapter F)) (db : Db)
        → map (λ (e : LogEntry). e.source) (run_adapters F is_space lower meta upsert adapters db).0
          ≡ map (λ (a : Adapter F). some a.source_name) adapters
    unfolding run_adapters run_adapter
    run_adapters-sources [] db = refl
    run_adapters-sources (a ∷ rest) db =
        cong_cons (run_keys-source a.source_name a.fetch_prices _ db)
          (run_adapters-sources rest (run_adapter F is_space lower meta upsert a db).1)

    -- A run that has its reference data logs one row for each adapter, in their order, whatever the
    -- adapters and the upserts do. No row counts more records as written and rejected than as seen,
    -- and one with status success says that all seen were written and that there was no problem.
    pub run_lem :
        (adapters : List (Adapter F)) (db : Db)
        → let log = (run F is_space lower upsert (some meta) adapters db).0 in
          (map (λ (e : LogEntry). e.source) log
            ≡ map (λ (a : Adapter F). some a.source_name) adapters)
          × All IsAccount log
    unfolding run
    run_lem adapters db = (run_adapters-sources adapters db, run_adapters-All adapters db)
