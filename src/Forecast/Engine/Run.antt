-- ===== src/Forecast/Engine/Run.antt =====
-- A whole run of the forecasts.
use mathlib.Core.List.{Perm}
use sih.Prelude.{List, Option, length, refl, some, suc, ℕ, ◌≡◌}
use sih.Forecast.Engine.{BandRow, Summary, has_pair, no_pairs, run_forecasts, run_found, run_pairs}
use sih.Forecast.Engine.Counts.{Counts, run_pairs_lem}
use sih.Forecast.Engine.Pairs.{AreRead, EndsBy, IsDistinct, distinct_pairs_lem, joined}
use sih.Forecast.Models.{Numbers}
use sih.Forecast.Rows.{ForecastRow}
use sih.Prices.Series.{Observation}

module _ (N : Numbers) {Db : Type 0} (fetch_history : ℕ × ℕ → Option (List Observation))
    (upsert : ℕ × ℕ → List (ForecastRow N) → Db → Option Db) (bands : List BandRow)
    (page : ℕ → Option (List (ℕ × ℕ))) (listed : List (ℕ × ℕ) → List (ℕ × ℕ)) where
  -- A run ends, with one round of fuel more than there can be rows of prices, when the bands and the
  -- pages of the rows are read; the pages may see the rows in any orders. It goes through the pairs of
  -- the rows that the pages have, each pair once, in the order in which their set is listed, and counts
  -- each as well done, as having too few days or as skipped, whatever histories and upserts fail; and
  -- the rows it has written are seven for each pair well done and one for each with too few days.
  pub run_forecasts_lem :
      (as_of total : ℕ) (db : Db)
      → EndsBy page total
      → ((ps : List (ℕ × ℕ)) → Perm (listed ps) ps)
      → (pages : List (List (ℕ × ℕ))) × (ps : List (ℕ × ℕ)) × (s : Summary) × (after : Db)
        × (run_forecasts N fetch_history upsert (some bands) page listed (suc total) as_of db
            ≡ some (s, after))
        × ((s, after)
            ≡ run_pairs N fetch_history upsert bands as_of
                (listed ps)
                (no_pairs N fetch_history upsert bands as_of)
                db)
        × AreRead page 0 pages
        × Perm (listed ps) ps
        × ((p : ℕ × ℕ) → has_pair p ps ≡ has_pair p (joined pages))
        × IsDistinct ps
        × Counts N fetch_history upsert bands as_of (length (listed ps)) s
  unfolding run_forecasts run_found
  run_forecasts_lem as_of total db ends each =
      let (pages, ps, read, found, same, distinct) = distinct_pairs_lem page total ends in
      let none_yet = no_pairs N fetch_history upsert bands as_of in
      let (s, after) = run_pairs N fetch_history upsert bands as_of (listed ps) none_yet db in
      (
        pages,
        ps,
        s,
        after,
        rw found refl,
        refl,
        read,
        each ps,
        same,
        distinct,
        run_pairs_lem N fetch_history upsert bands as_of (listed ps) db,
      )
