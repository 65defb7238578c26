-- ===== src/Forecast/Engine/Counts.antt =====
-- The counts that a run of the forecasts reports.
use mathlib.Core.Path.{subst}
use sih.Prelude.{
  Bool-cases, List, Option, [], arith, inl, inr, length, ltb, ltb→lt, none, refl, some, sym, ℕ, ◌*◌,
  ◌+◌, ◌∷◌, ◌≡◌, ◌⊎◌,
}
use sih.Forecast.Engine.{
  BandRow, Summary, no_pairs, pair_rows, run_pair, run_pairs, sanity_band, series_of, store_pair,
}
use sih.Forecast.Models.{Numbers}
use sih.Forecast.Rows.{
  Confidence, ForecastRow, Method, insufficient_data, make_forecast_rows, min_observations,
  ok_status,
}
use sih.Forecast.Rows.Tiers.{IsRun, make_forecast_rows_lem}
use sih.Ingestion.Runner.{run}
use sih.Market.Logistics.{counted}
use sih.Prices.Series.{Observation}

module _ (N : Numbers) {Db : Type 0} (fetch_history : ℕ × ℕ → Option (List Observation))
    (upsert : ℕ × ℕ → List (ForecastRow N) → Db → Option Db) (bands : List BandRow)
    (as_of : ℕ) where
  -- Seven rows for a pair that went well, one for a pair with too few days.
  abbrev pub Counts : ℕ → Summary → Type 0
  Counts n s =
      (s.pairs_ok + s.pairs_insufficient + s.pairs_skipped ≡ n)
      × (s.rows_written ≡ 7 * s.pairs_ok + s.pairs_insufficient)

  -- The rows of a pair are none, one that is marked insufficient, or seven that are not.
  abbrev IsPairRows : List (ForecastRow N) → Type 0
  IsPairRows [] = Unit
  IsPairRows (r ∷ rs) =
      ((r.status ≡ insufficient_data) × (length (r ∷ rs) ≡ 1))
      ⊎ ((r.status ≡ ok_status) × (length (r ∷ rs) ≡ 7))

  run-IsPairRows :
      (day i n : ℕ) (confidence : Confidence) (how : Method) (rows : List (ForecastRow N))
      → length rows ≡ 7
      → IsRun N day i n confidence how rows
      → IsPairRows rows
  run-IsPairRows day i n confidence how [] seven run = tt
  run-IsPairRows day i n confidence how (r ∷ rs) seven (d, p, c, m, o, went_well, later) =
      inr (went_well, seven)

  forecast_rows-IsPairRows :
      (series : List (ℕ × N.Num)) (sanity : Option (N.Num × N.Num))
      → IsPairRows (make_forecast_rows N series sanity as_of)
  forecast_rows-IsPairRows series sanity = elim (make_forecast_rows_lem N series sanity as_of) [
    | inl (bare, no_rows) ↦ subst IsPairRows (sym no_rows) tt
    | inr (d, day, last, later, today, which, marks) ↦
        let (few, enough) = marks in
        elim (Bool-cases (ltb (length series) min_observations)) [
          | inl short ↦ subst IsPairRows (sym (few (ltb→lt _ _ short))) (inl (refl, refl))
          | inr long ↦
              let (as_many, days) = enough (ground (arith, long)) in
              run-IsPairRows day 0 (length series) _ _ _ as_many days
        ]
  ]

  store_pair-Counts :
      (rows : List (ForecastRow N)) (o : Option Db) (n : ℕ) (s : Summary) (db : Db)
      → IsPairRows rows
      → Counts n s
      → Counts (n + 1) (store_pair N fetch_history upsert bands as_of rows o s db).0
  unfolding store_pair
  store_pair-Counts [] o n s db k h = (omega (arith, h.0), h.1)
  store_pair-Counts (r ∷ rs) none n s db k h = (omega (arith, h.0), h.1)
  store_pair-Counts (r ∷ rs) (some after) n s db (inl (few, one)) h =
      rw few (omega (arith, h.0), omega (arith, h.1, one))
  store_pair-Counts (r ∷ rs) (some after) n s db (inr (enough, seven)) h =
      rw enough (omega (arith, h.0), omega (arith, h.1, seven))

  run_pair-Counts :
      (p : ℕ × ℕ) (o : Option (List Observation)) (n : ℕ) (s : Summary) (db : Db)
      → Counts n s
      → Counts (n + 1) (run_pair N fetch_history upsert bands as_of p o s db).0
  unfolding run_pair pair_rows
  run_pair-Counts p none n s db h = (omega (arith, h.0), h.1)
  run_pair-Counts p (some history) n s db h =
      store_pair-Counts _ _ n s db
        (forecast_rows-IsPairRows (series_of N history) (sanity_band N bands p.1)) h

  run_pairs-Counts :
      (ps : List (ℕ × ℕ)) (n : ℕ) (s : Summary) (db : Db)
      → Counts n s
      → Counts (n + length ps) (run_pairs N fetch_history upsert bands as_of ps s db).0
  unfolding run_pairs
  run_pairs-Counts [] n s db h = (omega (arith, h.0), h.1)
  run_pairs-Counts (p ∷ ps) n s db h =
      let (s', after) = run_pair N fetch_history upsert bands as_of p (fetch_history p) s db in
      let (all_counted, written) =
        run_pairs-Counts ps (n + 1) s' after (run_pair-Counts p (fetch_history p) n s db h) in
      (omega (arith, all_counted), written)

  -- Every pair is counted once, as well done, as having too few days or as skipped, whatever queries and
  -- upserts fail; and the rows written are seven for each pair well done and one for each with too few
  -- days.
  pub run_pairs_lem :
      (ps : List (ℕ × ℕ)) (db : Db)
      → Counts
          (length ps)
          (run_pairs N fetch_history upsert bands as_of ps
            (no_pairs N fetch_history upsert bands as_of)
            db).0
  run_pairs_lem ps db =
      let (counted, written) =
        run_pairs-Counts ps 0 (no_pairs N fetch_history upsert bands as_of) db (refl, refl) in
      (omega (arith, counted), written)
