-- ===== src/Forecast/Engine.antt =====
-- forecasting/engine.py: `ForecastEngine`. The answers of the data service are arguments; none is an
-- exception.
pub mod Pairs
pub mod Counts
pub mod Run
use sih.Prelude.{
  Bool, List, Option, [], false, if◌then◌else◌, length, ltb, map, none, some, suc, zero, ℕ, ◌&&◌,
  ◌+◌, ◌==◌, ◌||◌, ◌∷◌,
}
use sih.Forecast.Models.{Numbers}
use sih.Forecast.Rows.{ForecastRow, insufficient_data, make_forecast_rows, ok_status}
use sih.Prices.Series.{Observation, build_daily_series}

abbrev pub engine_page_size : ℕ
engine_page_size = 500

abbrev pub same_pair : ℕ × ℕ → ℕ × ℕ → Bool
same_pair (a, b) (c, d) = a == c && b == d

abbrev pub has_pair : ℕ × ℕ → List (ℕ × ℕ) → Bool
has_pair p [] = false
has_pair p (q ∷ qs) = same_pair p q || has_pair p qs

-- `pairs.add`
abbrev pub add_pair : List (ℕ × ℕ) → ℕ × ℕ → List (ℕ × ℕ)
add_pair known p = if has_pair p known then known else p ∷ known

unfoldable pub add_pairs : List (ℕ × ℕ) → List (ℕ × ℕ) → List (ℕ × ℕ)
add_pairs known [] = known
add_pairs known (p ∷ ps) = add_pairs (add_pair known p) ps

pub data Scan : Type 0 where
  scanned : List (ℕ × ℕ) → Scan
  scan_raised : Scan
  no_fuel : Scan

-- `_distinct_pairs`: a short page is the last one.
module _ (page : ℕ → Option (List (ℕ × ℕ))) where
  unfoldable pub scan_page : List (ℕ × ℕ) → Option (List (ℕ × ℕ)) → (List (ℕ × ℕ) → Scan) → Scan
  unfolding add_pairs
  scan_page known none next = scan_raised
  scan_page known (some []) next = scanned known
  scan_page known (some (p ∷ ps)) next =
      let more = add_pairs known (p ∷ ps) in
      if ltb (length (p ∷ ps)) engine_page_size then scanned more else next more

  unfoldable pub distinct_pairs : ℕ → ℕ → List (ℕ × ℕ) → Scan
  unfolding scan_page
  distinct_pairs zero offset known = no_fuel
  distinct_pairs (suc fuel) offset known =
      scan_page known (page offset) (λ more. distinct_pairs fuel (offset + engine_page_size) more)

pub record BandRow : Type 0 where
  pub id : ℕ
  pub sanity_min : Option ℕ
  pub sanity_max : Option ℕ

pub record Summary : Type 0 where
  pub pairs_ok : ℕ
  pub pairs_insufficient : ℕ
  pub pairs_skipped : ℕ
  pub rows_written : ℕ

module _ (N : Numbers) where
  abbrev pub both_ends : Option ℕ → Option ℕ → Option (N.Num × N.Num)
  both_ends (some a) (some b) = some (N.of_cents a, N.of_cents b)
  both_ends _ _ = none

  -- `_load_sanity_bands`, looked up for a crop: ids are unique.
  unfoldable pub sanity_band : List BandRow → ℕ → Option (N.Num × N.Num)
  sanity_band [] k = none
  sanity_band (r ∷ rs) k =
      let rest = sanity_band rs k in if r.id == k then both_ends r.sanity_min r.sanity_max else rest

  abbrev pub series_of : List Observation → List (ℕ × N.Num)
  series_of history = map (λ (e : ℕ × ℕ). (e.0, N.of_cents e.1)) (build_daily_series history)

  module _ {Db : Type 0} (fetch_history : ℕ × ℕ → Option (List Observation))
      (upsert : ℕ × ℕ → List (ForecastRow N) → Db → Option Db) (bands : List BandRow)
      (as_of : ℕ) where
    -- The rows of a pair, from its history.
    unfoldable pub pair_rows : ℕ × ℕ → List Observation → List (ForecastRow N)
    unfolding sanity_band make_forecast_rows
    pair_rows (market, crop) history =
        make_forecast_rows N (series_of history) (sanity_band bands crop) as_of

    abbrev pub skipped_pair : Summary × Db → Summary × Db
    skipped_pair (s, db) = (record s { pairs_skipped = s.pairs_skipped + 1 }, db)

    -- After the upsert: the status of the first row decides.
    abbrev pub stored_pair : ForecastRow N → ℕ → Summary → Summary
    stored_pair r n s = elim r.status [
      | insufficient_data ↦ record s {
        pairs_insufficient = s.pairs_insufficient + 1;
        rows_written = s.rows_written + n;
      }
      | ok_status ↦ record s { pairs_ok = s.pairs_ok + 1; rows_written = s.rows_written + n }
    ]

    unfoldable pub store_pair : List (ForecastRow N) → Option Db → Summary → Db → Summary × Db
    store_pair [] after s db = skipped_pair (s, db)
    store_pair (r ∷ rs) none s db = skipped_pair (s, db)
    store_pair (r ∷ rs) (some after) s db = (stored_pair r (length (r ∷ rs)) s, after)

    -- The body of the loop over the pairs.
    unfoldable pub run_pair : ℕ × ℕ → Option (List Observation) → Summary → Db → Summary × Db
    unfolding pair_rows store_pair
    run_pair p none s db = skipped_pair (s, db)
    run_pair p (some history) s db =
        let rows = pair_rows p history in store_pair rows (upsert p rows db) s db

    unfoldable pub run_pairs : List (ℕ × ℕ) → Summary → Db → Summary × Db
    unfolding run_pair
    run_pairs [] s db = (s, db)
    run_pairs (p ∷ ps) s db =
        let (s', after) = run_pair p (fetch_history p) s db in run_pairs ps s' after

    abbrev pub no_pairs : Summary
    no_pairs = record { pairs_ok = 0; pairs_insufficient = 0; pairs_skipped = 0; rows_written = 0 }

    -- `run`: an exception of the first queries is raised, before anything is written. The pairs are
    -- listed in the order of their set, which is an argument.
    unfoldable pub run_found : (List (ℕ × ℕ) → List (ℕ × ℕ)) → Scan → Db → Option (Summary × Db)
    unfolding run_pairs
    run_found listed (scanned ps) db = some (run_pairs (listed ps) no_pairs db)
    run_found listed scan_raised db = none
    run_found listed no_fuel db = none

  unfoldable pub run_forecasts :
      {Db : Type 0}
      → (ℕ × ℕ → Option (List Observation))
      → (ℕ × ℕ → List (ForecastRow N) → Db → Option Db)
      → Option (List BandRow)
      → (ℕ → Option (List (ℕ × ℕ)))
      → (List (ℕ × ℕ) → List (ℕ × ℕ))
      → (fuel as_of : ℕ) → Db
      → Option (Summary × Db)
  unfolding run_found distinct_pairs
  run_forecasts fetch_history upsert none page listed fuel as_of db = none
  run_forecasts fetch_history upsert (some bands) page listed fuel as_of db =
      run_found fetch_history upsert bands as_of listed (distinct_pairs page fuel 0 []) db
