-- ===== src/Forecast/Served.antt =====
-- app/routers/forecasts.py: the forecasts that are served. Days and instants are numbers; the names of
-- the market and of the crop, which are joined to a row, are left out.
pub mod Firsts
pub mod Latest
use sih.Prelude.{
  Bool, List, [], false, filter, if◌then◌else◌, leb, not, take, true, ℕ, ◌&&◌, ◌+◌, ◌-◌, ◌∷◌,
}
use sih.Prelude.Sort.{sort_by}
use sih.Store.Memory.{table}
use sih.Forecast.Engine.{has_pair, same_pair}
use sih.Ingestion.Pages.Honest.{skipped}
use sih.Matching.{kept}

-- The column status of the table of forecasts.
pub data StoredStatus : Type 0 where
  ok_row few_days stale : StoredStatus

-- `generated_at` is the instant at which the engine makes the row: the rows of one run differ in it.
pub record StoredForecast : Type 0 where
  pub market_id : ℕ
  pub commodity_id : ℕ
  pub forecast_date : ℕ
  pub generated_at : ℕ
  pub status : StoredStatus

abbrev pub is_ok : StoredStatus → Bool
is_ok ok_row = true
is_ok few_days = false
is_ok stale = false

abbrev pub is_stale : StoredStatus → Bool
is_stale ok_row = false
is_stale few_days = false
is_stale stale = true

abbrev pub pair_of : StoredForecast → ℕ × ℕ
pair_of r = (r.market_id, r.commodity_id)

-- `get_forecasts`, for 1 to 7 days.
unfoldable pub get_forecasts :
    (market crop days today : ℕ) → List StoredForecast → List StoredForecast
unfolding sort_by
get_forecasts market crop days today table =
    sort_by (λ a b. leb a.forecast_date b.forecast_date)
      (filter
        (λ r.
          same_pair (pair_of r) (market, crop)
          && is_ok r.status
          && leb today r.forecast_date
          && leb r.forecast_date (today + (days - 1)))
        table)

abbrev pub summary_limit : ℕ
summary_limit = 2000

abbrev pub earlier_day : StoredForecast → StoredForecast → Bool
earlier_day a b = leb a.forecast_date b.forecast_date

abbrev pub later_stamp : StoredForecast → StoredForecast → Bool
later_stamp a b = leb b.generated_at a.generated_at

-- The loop that keeps the first row of each pair.
unfoldable pub first_rows : List (ℕ × ℕ) → List StoredForecast → List StoredForecast
first_rows seen_pairs [] = []
first_rows seen_pairs (r ∷ rs) =
    let skipped = first_rows seen_pairs rs in
    let kept = first_rows (pair_of r ∷ seen_pairs) rs in
    if has_pair (pair_of r) seen_pairs then skipped else r ∷ kept

-- The rows that are not stale, of the last two days.
abbrev pub recent_rows : ℕ → List StoredForecast → List StoredForecast
recent_rows cutoff table =
    take summary_limit (filter (λ r. not (is_stale r.status) && leb cutoff r.generated_at) table)

unfoldable pub get_forecasts_summary : ℕ → List StoredForecast → List StoredForecast
unfolding first_rows sort_by
get_forecasts_summary cutoff table =
    first_rows [] (sort_by later_stamp (sort_by earlier_day (recent_rows cutoff table)))
