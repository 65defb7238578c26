-- ===== src/Forecast/Rows/Tiers.antt =====
-- How many rows a series gets, for which days, and how they are marked.
use sih.Prelude.{
  Bool-cases, List, Option, Option-cases, [], ap, arith, false, if◌then◌else◌, inl, inr, leb,
  length, ltb, ltb→lt, map, none, refl, some, suc, ℕ, ◌+◌, ◌<◌, ◌∷◌, ◌≡◌, ◌≢◌, ◌≤◌, ◌⊎◌,
}
use sih.Forecast.Models.{
  Numbers, Prediction, blend_predictions, horizon_days, linear_regression, moving_average,
  predict_flat,
}
use sih.Forecast.Rows.{
  Confidence, ForecastRow, Method, blend, blend_threshold, high_confidence,
  high_confidence_threshold, last_day, make_forecast_rows, medium_confidence, min_observations,
  moving_avg, ok_status, one_row, rows_after, rows_from, tiers,
}

module _ (N : Numbers) where
  -- The marks of a row by the number of observations.
  abbrev pub confidence_of : ℕ → Confidence
  confidence_of n = if leb high_confidence_threshold n then high_confidence else medium_confidence

  abbrev pub method_of : ℕ → Method
  method_of n = if leb blend_threshold n then blend else moving_avg

  -- Day after day from the one after the start, with a price.
  abbrev pub IsRun : ℕ → ℕ → ℕ → Confidence → Method → List (ForecastRow N) → Type 0
  IsRun day i n confidence how [] = Unit
  IsRun day i n confidence how (r ∷ rs) =
      (r.forecast_date ≡ day + (i + 1))
      × (r.prediction ≢ none)
      × (r.confidence ≡ some confidence)
      × (r.method ≡ how)
      × (r.observations ≡ n)
      × (r.status ≡ ok_status)
      × IsRun day (i + 1) n confidence how rs

  rows_from-IsRun :
      (sanity : Option (N.Num × N.Num)) (day i n : ℕ) (confidence : Confidence) (how : Method)
      (ps : List (Prediction N))
      → let rows = rows_from N sanity day i n confidence how ps in
        IsRun day i n confidence how rows × (length rows ≡ length ps)
  unfolding rows_from
  rows_from-IsRun sanity day i n confidence how [] = (tt, refl)
  rows_from-IsRun sanity day i n confidence how (p ∷ ps) =
      let (run, as_many) = rows_from-IsRun sanity day (i + 1) n confidence how ps in
      ((refl, (λ e. cc), refl, refl, refl, refl, run), ap suc as_many)

  -- What a series of n days gets, when the forecast starts after the day.
  abbrev pub IsForecast : ℕ → ℕ → List (ForecastRow N) → Type 0
  IsForecast day n rows =
      (n < min_observations → rows ≡ one_row N day n)
      × (min_observations ≤ n
          → (length rows ≡ horizon_days) × IsRun day 0 n (confidence_of n) (method_of n) rows)

  tiers-IsForecast :
      (sanity : Option (N.Num × N.Num)) (day n : ℕ) (prices : List N.Num)
      → IsForecast day n (tiers N sanity day n prices)
  unfolding tiers predict_flat blend_predictions
  tiers-IsForecast sanity day n prices = elim (Bool-cases (ltb n min_observations)) [
    | inl few ↦ rw few ((λ h. refl), (λ h. absurd (omega (arith, ltb→lt _ _ few))))
    | inr enough ↦ elim (Bool-cases (leb blend_threshold n)) [
      | inl many ↦
          let (run, as_many) =
            rows_from-IsRun sanity day 0 n (confidence_of n) blend
              (blend_predictions N (moving_average N prices) (linear_regression N prices)) in
          rw (enough, many) ((λ h. absurd (ground (arith, h, enough))), (λ h. (as_many, run)))
      | inr some_days ↦
          let (run, as_many) =
            rows_from-IsRun sanity day 0 n medium_confidence moving_avg
              (predict_flat N (moving_average N prices)) in
          let medium : leb high_confidence_threshold n ≡ false = ground (arith, some_days) in
          rw (enough, some_days, medium)
            ((λ h. absurd (ground (arith, h, enough))), (λ h. (as_many, run)))
    ]
  ]

  no_days : {e : ℕ × N.Num} {es : List (ℕ × N.Num)} → e ∷ es ≢ []
  no_days h = cc

  last_day-none : (series : List (ℕ × N.Num)) → last_day N series ≡ none → series ≡ []
  unfolding last_day
  last_day-none [] h = refl
  last_day-none ((d, p) ∷ []) h = cc
  last_day-none ((d, p) ∷ e ∷ es) h = absurd (no_days (last_day-none (e ∷ es) h))

  -- A series without days gets no row. One of fewer than ten days gets a single row, without a price,
  -- for the day after its last day or after today, whichever is later. One of ten or more gets a row
  -- with a price for each of the seven days after that: by the moving average up to 14 days and by the
  -- blend from 15 on, with high confidence from 20 on and medium below.
  pub make_forecast_rows_lem :
      (series : List (ℕ × N.Num)) (sanity : Option (N.Num × N.Num)) (as_of : ℕ)
      → let rows = make_forecast_rows N series sanity as_of in
        ((series ≡ []) × (rows ≡ []))
        ⊎ ((d : ℕ) × (start : ℕ) × (last_day N series ≡ some d)
            × (d ≤ start)
            × (as_of ≤ start)
            × ((start ≡ d) ⊎ (start ≡ as_of))
            × IsForecast start (length series) rows)
  unfolding make_forecast_rows rows_after
  make_forecast_rows_lem series sanity as_of = elim (Option-cases (last_day N series)) [
    | inl bare ↦ rw bare (inl (last_day-none series bare, refl))
    | inr (d, last) ↦
        let day = if ltb d as_of then as_of else d in
        rw last (
          inr (
            d,
            day,
            refl,
            ground arith,
            ground arith,
            ground arith,
            tiers-IsForecast sanity day (length series) (map (λ (e : ℕ × N.Num). e.1) series),
          ))
  ]
