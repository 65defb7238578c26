-- ===== src/Ingestion/Runner/Success.antt =====
-- An adapter's run is a success exactly when the run that stops at the first problem ends.
use mathlib.Core.Path.{subst}
use mathlib.Core.Option.{some-injective}
use sih.Prelude.{
  Bool, List, Option, Option-cases, [], ap, arith, false, inl, inr, length, none, refl, some, true,
  ℕ, ◌+◌, ◌<◌, ◌↔◌, ◌∙◌, ◌∷◌, ◌≡◌, ◌≢◌,
}
use sih.Ingestion.Metadata.{Metadata, PriceEntry}
use sih.Ingestion.Pages.{Fetched}
use sih.Ingestion.Runner.{
  LogEntry, Tally, chunks, count_chunk, finish_adapter, run_keys, start_tally, store_tally, success,
  tally_keys, with_errors, write_chunks,
}
use sih.Ingestion.Runner.Counts.{
  status_of-success, total_length, total_length-chunks, with_errors-empty,
}
use sih.Ingestion.Runner.Strict.{Troubled, grown, keys_none, keys_some, strict_keys}
use sih.Prices.Names.{Text}
use sih.Prices.Validator.{Floats, RawPriceRecord}

module _ (F : Floats) (is_space : ℕ → Bool) (lower : Text → Text) (meta : Metadata F) {Db : Type 0}
    (upsert : List (PriceEntry F) → Db → Option Db) where
  -- All chunks, or none where an upsert raises.
  abbrev pub strict_chunks : List (List (PriceEntry F)) → Db → Option Db
  strict_chunks [] db = some db
  strict_chunks (c ∷ cs) db = elim (upsert c db) [
    | none ↦ none
    | some after ↦ strict_chunks cs after
  ]

  chunks_some :
      (cs : List (List (PriceEntry F))) (db after : Db)
      → strict_chunks cs db ≡ some after
      → write_chunks F is_space lower meta upsert cs db ≡ (total_length cs, 0, after)
  unfolding write_chunks count_chunk
  chunks_some [] db after h = ap (λ d. (0, 0, d)) (some-injective _ _ h)
  chunks_some (c ∷ cs) db after h = elim (Option-cases (upsert c db)) [
    | inl e ↦ let clash : none ≡ some after = ground (arith, e, h) in cc
    | inr (d, e) ↦
        let rest : strict_chunks cs d ≡ some after = ground (arith, e, h) in
        rw (e, count_chunk, chunks_some cs d after rest) refl
  ]

  chunks_none :
      (cs : List (List (PriceEntry F))) (db : Db)
      → strict_chunks cs db ≡ none
      → 0 < (write_chunks F is_space lower meta upsert cs db).1
  unfolding write_chunks count_chunk
  chunks_none [] db h = cc
  chunks_none (c ∷ cs) db h = elim (Option-cases (upsert c db)) [
    | inl e ↦ rw (e, count_chunk) (omega arith)
    | inr (d, e) ↦
        let rest : strict_chunks cs d ≡ none = ground (arith, e, h) in
        rw (e, count_chunk) (chunks_none cs d rest)
  ]

  -- What the run stores that stops at the first problem.
  abbrev pub StrictRun :
      (Text → Fetched (List (RawPriceRecord F)))
      → List Text
      → Db
      → List (PriceEntry F)
      → Db
      → Type 0
  StrictRun fetch ks db es after =
      (strict_keys F is_space lower meta fetch ks ≡ some es)
      × (strict_chunks (chunks (length es) es) db ≡ some after)

  abbrev pub success_row : ℕ → ℕ → LogEntry
  success_row source n = record {
    source = some source;
    status = success;
    records_seen = n;
    records_written = n;
    records_rejected = 0;
    problems = [];
  }

  success_of :
      (source : ℕ) (fetch : Text → Fetched (List (RawPriceRecord F))) (k : Text) (ks : List Text)
      (db : Db) (es : List (PriceEntry F)) (after : Db)
      → StrictRun fetch (k ∷ ks) db es after
      → run_keys F is_space lower meta upsert source fetch (k ∷ ks) db
        ≡ (success_row source (length es), after)
  unfolding run_keys store_tally
  success_of source fetch k ks db es after (fetched_all, stored_all) =
      let row : ℕ → ℕ → LogEntry × Db = λ (n w : ℕ). (
        record {
          source = some source;
          status = success;
          records_seen = n;
          records_written = w;
          records_rejected = 0;
          problems = [];
        },
        after,
      ) in
      let whole : total_length (chunks (length es) es) ≡ length es =
        total_length-chunks (length es) es (omega arith) in
      let same : 0 + length es ≡ length es = omega arith in
      rw
        (
          keys_some F is_space lower meta fetch (k ∷ ks) es (start_tally F is_space lower)
              fetched_all,
          chunks_some _ db after stored_all,
        )
        (ap (row (0 + length es)) whole ∙ ap (λ n. row n (length es)) same)

  -- Success leaves no record rejected, no problem and no chunk that failed.
  store_success :
      (source : ℕ) (t : Tally F is_space lower) (db : Db)
      → (store_tally F is_space lower meta upsert source t db).0.status ≡ success
      → (t.rejected ≡ 0)
        × (t.problems ≡ [])
        × ((write_chunks F is_space lower meta upsert (chunks (length t.entries) t.entries) db).1
            ≡ 0)
  unfolding store_tally
  store_success source t db e =
      let errors =
        (write_chunks F is_space lower meta upsert (chunks (length t.entries) t.entries) db).1 in
      let (none_rejected, no_problem) =
        status_of-success t.seen t.rejected (with_errors errors t.problems) e in
      let (no_error, none_before) = with_errors-empty errors t.problems no_problem in
      (none_rejected, none_before, no_error)

  Troubled-status :
      (source : ℕ) (end : Tally F is_space lower × Bool) (db : Db)
      → Troubled F is_space lower meta end
      → (finish_adapter F is_space lower meta upsert source end db).0.status ≢ success
  Troubled-status source (t, false) db h e = cc
  Troubled-status source (t, true) db (inl h) e = cc
  Troubled-status source (t, true) db (inr (inl some_rejected)) e =
      absurd (omega (arith, some_rejected, (store_success source t db e).0))
  Troubled-status source (t, true) db (inr (inr problems)) e =
      problems (store_success source t db e).1

  chunk_status :
      (source : ℕ) (t : Tally F is_space lower) (db : Db)
      → strict_chunks (chunks (length t.entries) t.entries) db ≡ none
      → (store_tally F is_space lower meta upsert source t db).0.status ≢ success
  chunk_status source t db h e = absurd (
      omega (
        arith,
        chunks_none (chunks (length t.entries) t.entries) db h,
        (store_success source t db e).2,
      ))

  success_only :
      (source : ℕ) (fetch : Text → Fetched (List (RawPriceRecord F))) (k : Text) (ks : List Text)
      (db : Db)
      → (run_keys F is_space lower meta upsert source fetch (k ∷ ks) db).0.status ≡ success
      → (es : List (PriceEntry F)) × (after : Db) × StrictRun fetch (k ∷ ks) db es after
  unfolding run_keys
  success_only source fetch k ks db h =
      let t = start_tally F is_space lower in
      let keys = k ∷ ks in
      elim (Option-cases (strict_keys F is_space lower meta fetch keys)) [
        | inl e ↦ absurd (
            Troubled-status source (tally_keys F is_space lower meta fetch keys t) db
              (keys_none F is_space lower meta fetch keys t e) h)
        | inr (es, e) ↦ elim (Option-cases (strict_chunks (chunks (length es) es) db)) [
          | inl e' ↦
              let h' : (store_tally F is_space lower meta upsert source
                    (grown F is_space lower meta t es) db).0.status
                  ≡ success =
                subst
                  (λ end.
                    (finish_adapter F is_space lower meta upsert source end db).0.status ≡ success)
                  (keys_some F is_space lower meta fetch keys es t e) h in
              absurd (chunk_status source (grown F is_space lower meta t es) db e' h')
          | inr (after, e') ↦ (es, after, (e, e'))
        ]
      ]

  -- The row of an adapter says success exactly when the adapter has keys, every key was fetched, every
  -- record fetched gave a row, and every chunk of rows was stored. The tables are then those of the
  -- run that would stop at the first problem, and the row counts all rows as seen and as written.
  pub run_keys_iff :
      (source : ℕ) (fetch : Text → Fetched (List (RawPriceRecord F))) (ks : List Text) (db : Db)
      → let out = run_keys F is_space lower meta upsert source fetch ks db in
        (out.0.status ≡ success) ↔ (
          (es : List (PriceEntry F)) × (after : Db) × (ks ≢ [])
          × StrictRun fetch ks db es after
          × (out ≡ (success_row source (length es), after)))
  unfolding run_keys
  run_keys_iff source fetch [] db =
      ((λ e. cc), (λ (es, after, listed, strict, e). absurd (listed refl)))
  run_keys_iff source fetch (k ∷ ks) db = (
    λ e.
        let (es, after, strict) = success_only source fetch k ks db e in
        (es, after, (λ e. cc), strict, success_of source fetch k ks db es after strict),
    λ (es, after, listed, strict, e). ap (λ o. o.0.status) e,
  )
