-- ===== src/Forecast/Rows.antt =====
-- forecasting/engine.py: `_clamp` and `_make_forecast_rows`. Days are numbers; the ids of the market and
-- of the crop, and the time of the run, are left out of a row.
pub mod Bounds
pub mod Tiers
use sih.Prelude.{List, Option, [], if◌then◌else◌, leb, length, ltb, map, none, some, ℕ, ◌+◌, ◌∷◌}
use sih.Forecast.Models.{
  Numbers, Prediction, blend_predictions, linear_regression, max_of, min_of, moving_average,
  predict_flat, zero_n,
}

abbrev pub min_observations : ℕ
min_observations = 10

abbrev pub blend_threshold : ℕ
blend_threshold = 15

abbrev pub high_confidence_threshold : ℕ
high_confidence_threshold = 20

pub data Confidence : Type 0 where
  high_confidence medium_confidence : Confidence

pub data Method : Type 0 where
  no_method moving_avg blend : Method

pub data ForecastStatus : Type 0 where
  insufficient_data ok_status : ForecastStatus

module _ (N : Numbers) where
  pub record ForecastRow : Type 0 where
    pub forecast_date : ℕ
    pub prediction : Option (Prediction N)
    pub confidence : Option Confidence
    pub method : Method
    pub observations : ℕ
    pub status : ForecastStatus

  -- A band whose ends are reversed is not used.
  unfoldable pub clamp : N.Num → N.Num → N.Num → N.Num
  clamp value least most =
      if N.lt most least then N.round2 value else N.round2 (max_of N least (min_of N most value))

  -- The bounds around the price that the band allows, and never across it.
  unfoldable pub within_band : N.Num → N.Num → N.Num → N.Num → Prediction N
  unfolding clamp
  within_band least most centre margin =
      let p = clamp centre least most in
      let low_end = clamp (max_of N (zero_n N) (N.minus p margin)) least most in
      let high_end = clamp (N.plus p margin) least most in
      record {
        predicted = p;
        lower = if N.lt p low_end then p else low_end;
        upper = if N.lt high_end p then p else high_end;
      }

  abbrev pub with_band : Option (N.Num × N.Num) → N.Num → N.Num → Prediction N
  with_band none centre margin = record {
    predicted = centre;
    lower = N.minus centre margin;
    upper = N.plus centre margin;
  }
  with_band (some (least, most)) centre margin = within_band least most centre margin

  -- The body of the loop over the predictions: the band grows with the square root of the day.
  unfoldable pub widen : Option (N.Num × N.Num) → ℕ → Prediction N → Prediction N
  unfolding within_band
  widen sanity i p =
      let margin = N.times (N.minus p.upper p.predicted) (N.root (i + 1)) in
      let q = with_band sanity p.predicted margin in
      record {
        predicted = q.predicted;
        lower = N.round2 (max_of N (zero_n N) q.lower);
        upper = N.round2 q.upper;
      }

  unfoldable pub rows_from :
      Option (N.Num × N.Num)
      → ℕ
      → ℕ
      → ℕ
      → Confidence
      → Method
      → List (Prediction N)
      → List ForecastRow
  unfolding widen
  rows_from sanity day i n confidence how [] = []
  rows_from sanity day i n confidence how (p ∷ ps) =
      record {
        forecast_date = day + (i + 1);
        prediction = some (widen sanity i p);
        confidence = some confidence;
        method = how;
        observations = n;
        status = ok_status;
      }
      ∷ rows_from sanity day (i + 1) n confidence how ps

  abbrev pub one_row : ℕ → ℕ → List ForecastRow
  one_row day n =
      record {
        forecast_date = day + 1;
        prediction = none;
        confidence = none;
        method = no_method;
        observations = n;
        status = insufficient_data;
      }
      ∷ []

  unfoldable pub last_day : List (ℕ × N.Num) → Option ℕ
  last_day [] = none
  last_day ((d, p) ∷ []) = some d
  last_day ((d, p) ∷ e ∷ es) = last_day (e ∷ es)

  -- From the day on at which the forecast starts.
  unfoldable pub tiers : Option (N.Num × N.Num) → ℕ → ℕ → List N.Num → List ForecastRow
  unfolding rows_from moving_average predict_flat linear_regression blend_predictions
  tiers sanity day n prices =
      if ltb n min_observations
      then one_row day n
      else if leb blend_threshold n
      then rows_from sanity day 0 n
          (if leb high_confidence_threshold n then high_confidence else medium_confidence) blend
          (blend_predictions N (moving_average N prices) (linear_regression N prices))
      else rows_from sanity day 0 n medium_confidence moving_avg
          (predict_flat N (moving_average N prices))

  -- The forecast starts after the last day of the series, or after the day of the run.
  unfoldable pub rows_after :
      Option ℕ → Option (N.Num × N.Num) → ℕ → ℕ → List N.Num → List ForecastRow
  unfolding tiers
  rows_after none sanity as_of n prices = []
  rows_after (some d) sanity as_of n prices =
      tiers sanity (if ltb d as_of then as_of else d) n prices

  unfoldable pub make_forecast_rows :
      List (ℕ × N.Num) → Option (N.Num × N.Num) → ℕ → List ForecastRow
  unfolding last_day rows_after
  make_forecast_rows series sanity as_of =
      rows_after (last_day series) sanity as_of (length series)
        (map (λ (e : ℕ × N.Num). e.1) series)
