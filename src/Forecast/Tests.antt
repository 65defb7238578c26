-- ===== src/Forecast/Tests.antt =====
-- The forecasts of concrete series, with whole rupees for floats.
use mathlib.Core.List.{Perm}
use mathlib.Core.List.Perm
use sih.Prelude.{
  All, Elem, List, Option, [], arith, if◌then◌else◌, length, ltb, map, none, refl, some, suc, zero,
  ℕ, ◌*◌, ◌+◌, ◌-◌, ◌/◌, ◌==◌, ◌∷◌, ◌≡◌, ◌≤◌, ◌⊎◌,
}
use sih.Prelude.Sort.{insert_by, sort_by}
use sih.Forecast.Engine.{BandRow, Summary, has_pair, no_pairs, run_forecasts, run_pairs}
use sih.Forecast.Engine.Counts.{Counts}
use sih.Forecast.Engine.Pairs.{AreRead, EndsBy, IsDistinct, joined}
use sih.Forecast.Engine.Run.{run_forecasts_lem}
use sih.Forecast.Models.{Numbers, range_from}
use sih.Forecast.Rows.{ForecastRow, last_day, make_forecast_rows}
use sih.Forecast.Rows.Bounds.{IsBand, IsBounded, IsOrdered, make_forecast_rows-All}
use sih.Forecast.Rows.Tiers.{IsForecast, make_forecast_rows_lem}
use sih.Forecast.Served.{
  StoredForecast, first_rows, get_forecasts_summary, ok_row, pair_of, recent_rows,
}
use sih.Forecast.Served.Latest.{IsLatest, get_forecasts_summary_lem}
use sih.Prices.Series.{Observation, manual}

abbrev rupees : Numbers
rupees = record {
  Num = ℕ;
  plus = λ a b. a + b;
  minus = λ a b. a - b;
  times = λ a b. a * b;
  over = λ a b. a / b;
  lt = λ a b. ltb a b;
  of_nat = λ n. n;
  of_cents = λ n. n / 100;
  round2 = λ a. a;
  root = λ n. n;
  pstdev = λ prices. 1;
  confidence_z = 1;
  ma_weight = 0;
  lr_weight = 1;
}

rupees_order : IsOrdered rupees
rupees_order = record {
  asym = λ a b h. ground (arith, h);
  le_trans = λ a b c h k. ground (arith, h, k);
  irrefl = λ a. ground arith;
  round2_mono = λ a b h. h;
  round2-round2 = λ a. refl;
}

-- Ten days with the same price, above the crop's band.
abbrev ten_days : List (ℕ × ℕ)
ten_days = map (λ i. (i, 900)) (range_from 1 10)

band_lem : IsBand rupees rupees_order 100 800
band_lem = record { low_high = refl; from_zero = refl; low_rounded = refl; high_rounded = refl }

make_forecast_rows-All_example :
    All
      (IsBounded rupees rupees_order 100 800)
      (make_forecast_rows rupees ten_days (some (100, 800)) 4)
make_forecast_rows-All_example =
    make_forecast_rows-All rupees rupees_order ten_days 100 800 4 band_lem

make_forecast_rows_lem_example :
    let rows = make_forecast_rows rupees ten_days (some (100, 800)) 4 in
    ((ten_days ≡ []) × (rows ≡ []))
    ⊎ ((d : ℕ) × (start_x : ℕ) × (last_day rupees ten_days ≡ some d)
        × (d ≤ start_x)
        × (4 ≤ start_x)
        × ((start_x ≡ d) ⊎ (start_x ≡ 4))
        × IsForecast rupees start_x 10 rows)
make_forecast_rows_lem_example = make_forecast_rows_lem rupees ten_days (some (100, 800)) 4

-- Two pairs, one of which stands twice; the history of the first cannot be read.
abbrev three_rows : List (ℕ × ℕ)
three_rows = (1, 2) ∷ (3, 4) ∷ (1, 2) ∷ []

abbrev histories : ℕ × ℕ → Option (List Observation)
histories (a, b) =
    if a == 1
    then none
    else some (record { day = 8; source = manual; variety = none; modal = 170_000 } ∷ [])

abbrev count_upsert : ℕ × ℕ → List (ForecastRow rupees) → ℕ → Option ℕ
count_upsert p rows db = some (db + length rows)

abbrev no_bands : List BandRow
no_bands = []

abbrev three_pages : ℕ → Option (List (ℕ × ℕ))
three_pages zero = some three_rows
three_pages (suc o) = some []

three_pages-EndsBy : EndsBy three_pages 3
three_pages-EndsBy zero = (three_rows, refl, (λ h. absurd (omega (arith, h))))
three_pages-EndsBy (suc o) = ([], refl, (λ h. refl))

run_forecasts_lem_example :
    (pages : List (List (ℕ × ℕ))) × (ps : List (ℕ × ℕ)) × (s : Summary) × (after : ℕ)
    × (run_forecasts rupees histories count_upsert (some no_bands) three_pages (λ l. l) 4 9 0
        ≡ some (s, after))
    × ((s, after)
        ≡ run_pairs rupees histories count_upsert no_bands 9 ps
            (no_pairs rupees histories count_upsert no_bands 9)
            0)
    × AreRead three_pages 0 pages
    × Perm ps ps
    × ((p : ℕ × ℕ) → has_pair p ps ≡ has_pair p (joined pages))
    × IsDistinct ps
    × Counts rupees histories count_upsert no_bands 9 (length ps) s
run_forecasts_lem_example =
    run_forecasts_lem rupees histories count_upsert no_bands three_pages (λ l. l) 9 3 0
      three_pages-EndsBy (λ ps. Perm.rfl)

-- Rows of one pair of three days, of which two are made at one instant, and a row of another pair.
abbrev stored_at : ℕ → ℕ → ℕ → StoredForecast
stored_at crop day run_at = record {
  market_id = 1;
  commodity_id = crop;
  forecast_date = day;
  generated_at = run_at;
  status = ok_row;
}

abbrev stored_rows : List StoredForecast
stored_rows = stored_at 2 9 50 ∷ stored_at 2 11 60 ∷ stored_at 2 10 60 ∷ stored_at 3 10 60 ∷ []

summary_now : get_forecasts_summary 40 stored_rows ≡ stored_at 2 10 60 ∷ stored_at 3 10 60 ∷ []
unfolding get_forecasts_summary first_rows sort_by insert_by
summary_now = refl

-- The days of one run, made one after the other: the last day is served.
last_day_served :
    get_forecasts_summary 40 (stored_at 2 10 60 ∷ stored_at 2 11 61 ∷ stored_at 2 12 62 ∷ [])
    ≡ stored_at 2 12 62 ∷ []
unfolding get_forecasts_summary first_rows sort_by insert_by
last_day_served = refl

get_forecasts_summary_lem_example :
    let rows = recent_rows 40 stored_rows in
    let summary = get_forecasts_summary 40 stored_rows in
    All (λ r. Elem r rows × IsLatest rows r) summary
    × IsDistinct (map pair_of summary)
    × ((p : ℕ × ℕ) → has_pair p (map pair_of summary) ≡ has_pair p (map pair_of rows))
get_forecasts_summary_lem_example = get_forecasts_summary_lem 40 stored_rows
