-- ===== src/Forecast/Rows/Bounds.antt =====
-- The prices of a forecast lie in the band, and between their bounds.
use mathlib.Core.Path.{subst}
use sih.Prelude.{
  All, Bool, Bool-cases, List, Option, [], false, if◌then◌else◌, inl, inr, leb, length, ltb, map,
  none, some, true, ℕ, ◌+◌, ◌∷◌, ◌≡◌,
}
use sih.Forecast.Models.{
  Numbers, Prediction, blend_predictions, linear_regression, max_of, min_of, moving_average,
  predict_flat, zero_n,
}
use sih.Forecast.Rows.{
  Confidence, ForecastRow, Method, blend, blend_threshold, clamp, high_confidence,
  high_confidence_threshold, last_day, make_forecast_rows, medium_confidence, min_observations,
  moving_avg, rows_after, rows_from, tiers, widen, within_band,
}
use sih.Prices.Validator.{above, below}

-- What is relied on of finite floats: their order is total, and rounding keeps it and does nothing
-- twice.
pub record IsOrdered (N : Numbers) : Type 0 where
  pub asym : (a b : N.Num) → N.lt a b ≡ true → N.lt b a ≡ false
  pub le_trans : (a b c : N.Num) → N.lt b a ≡ false → N.lt c b ≡ false → N.lt c a ≡ false
  pub irrefl : (a : N.Num) → N.lt a a ≡ false
  pub round2_mono : (a b : N.Num) → N.lt b a ≡ false → N.lt (N.round2 b) (N.round2 a) ≡ false
  pub round2-round2 : (a : N.Num) → N.round2 (N.round2 a) ≡ N.round2 a

module _ (N : Numbers) (order : IsOrdered N) where
  abbrev pub Leq : N.Num → N.Num → Type 0
  Leq a b = N.lt b a ≡ false

  max_of_bounds :
      (a b most : N.Num)
      → Leq a most
      → Leq b most
      → Leq a (max_of N a b) × Leq b (max_of N a b) × Leq (max_of N a b) most
  max_of_bounds a b most h k = elim (Bool-cases (N.lt a b)) [
    | inl t ↦ rw t (order.asym a b t, order.irrefl b, k)
    | inr f ↦ rw f (order.irrefl a, f, h)
  ]

  -- A band of two prices with two decimals, from 0 on and not reversed.
  pub record IsBand (least most : N.Num) : Type 0 where
    pub low_high : Leq least most
    pub from_zero : Leq (zero_n N) least
    pub low_rounded : N.round2 least ≡ least
    pub high_rounded : N.round2 most ≡ most

  -- In the band, and rounded.
  abbrev pub InBand : N.Num → N.Num → N.Num → Type 0
  InBand least most x = Leq least x × Leq x most × (N.round2 x ≡ x)

  round2-InBand :
      (least most x : N.Num)
      → IsBand least most
      → Leq least x
      → Leq x most
      → InBand least most (N.round2 x)
  round2-InBand least most x band h k = (
    subst (λ l. Leq l (N.round2 x)) band.low_rounded (order.round2_mono least x h),
    subst (λ m. Leq (N.round2 x) m) band.high_rounded (order.round2_mono x most k),
    order.round2-round2 x,
  )

  clamp-InBand :
      (least most value : N.Num) → IsBand least most → InBand least most (clamp N value least most)
  unfolding clamp
  clamp-InBand least most value band =
      let m = min_of N most value in
      let below : Leq m most = elim (Bool-cases (N.lt value most)) [
        | inl t ↦ rw t (order.asym value most t)
        | inr f ↦ rw f (order.irrefl most)
      ] in
      let (above, x, within) = max_of_bounds least m most band.low_high below in
      rw (band.low_high) (round2-InBand least most (max_of N least m) band above within)

  -- Either of two values in the band, whichever a test takes.
  either-InBand :
      (least most x y : N.Num) (b : Bool)
      → InBand least most x
      → InBand least most y
      → InBand least most (if b then x else y)
  either-InBand least most x y true h k = h
  either-InBand least most x y false h k = k

  -- The bounds enclose the price, and all lie in the band.
  abbrev pub Encloses : N.Num → N.Num → Prediction N → Type 0
  Encloses least most q =
      Leq (zero_n N) least
      × Leq least q.lower
      × Leq q.lower q.predicted
      × Leq q.predicted q.upper
      × Leq q.upper most

  lower_lem : (p end : N.Num) → Leq (if N.lt p end then p else end) p
  lower_lem p end = elim (Bool-cases (N.lt p end)) [
    | inl t ↦ rw t (order.irrefl p)
    | inr f ↦ rw f f
  ]

  upper_lem : (p end : N.Num) → Leq p (if N.lt end p then p else end)
  upper_lem p end = elim (Bool-cases (N.lt end p)) [
    | inl t ↦ rw t (order.irrefl p)
    | inr f ↦ rw f f
  ]

  round2-between :
      (a x b : N.Num)
      → N.round2 a ≡ a
      → N.round2 b ≡ b
      → Leq a x
      → Leq x b
      → Leq a (N.round2 x) × Leq (N.round2 x) b
  round2-between a x b ra rb h k = (
    subst (λ l. Leq l (N.round2 x)) ra (order.round2_mono a x h),
    subst (λ m. Leq (N.round2 x) m) rb (order.round2_mono x b k),
  )

  widen-Encloses :
      (least most : N.Num) (i : ℕ) (p : Prediction N)
      → IsBand least most
      → Encloses least most (widen N (some (least, most)) i p)
  unfolding widen within_band
  widen-Encloses least most i p band =
      let margin = N.times (N.minus p.upper p.predicted) (N.root (i + 1)) in
      let q = within_band N least most p.predicted margin in
      let (p_low, p_high, p_round) = clamp-InBand least most p.predicted band in
      let low_end = clamp N (max_of N (zero_n N) (N.minus q.predicted margin)) least most in
      let high_end = clamp N (N.plus q.predicted margin) least most in
      let (l_low, l_high, l_round) =
        either-InBand least most q.predicted low_end (N.lt q.predicted low_end)
          (clamp-InBand least most p.predicted band)
          (clamp-InBand least most (max_of N (zero_n N) (N.minus q.predicted margin)) band) in
      let (u_low, u_high, u_round) =
        either-InBand least most q.predicted high_end (N.lt high_end q.predicted)
          (clamp-InBand least most p.predicted band)
          (clamp-InBand least most (N.plus q.predicted margin) band) in
      let zero_p = order.le_trans (zero_n N) least q.predicted band.from_zero p_low in
      let (x, over_lower, under_p) =
        max_of_bounds (zero_n N) q.lower q.predicted zero_p (lower_lem q.predicted low_end) in
      let (above, below) =
        round2-between least (max_of N (zero_n N) q.lower) q.predicted band.low_rounded p_round
          (order.le_trans least q.lower _ l_low over_lower) under_p in
      (band.from_zero, above, below, rw u_round (upper_lem q.predicted high_end), rw u_round u_high)

  -- A row has no price, or one whose bounds enclose it inside the band.
  abbrev pub IsBounded : N.Num → N.Num → ForecastRow N → Type 0
  IsBounded least most r = elim r.prediction [ none ↦ Unit {0} | some q ↦ Encloses least most q ]

  rows_from-All :
      (least most : N.Num) (day i n : ℕ) (confidence : Confidence) (how : Method)
      (ps : List (Prediction N))
      → IsBand least most
      → All (IsBounded least most) (rows_from N (some (least, most)) day i n confidence how ps)
  unfolding rows_from
  rows_from-All least most day i n confidence how [] band = tt
  rows_from-All least most day i n confidence how (p ∷ ps) band = (
    widen-Encloses least most i p band,
    rows_from-All least most day (i + 1) n confidence how ps band,
  )

  tiers-All :
      (least most : N.Num) (day n : ℕ) (prices : List N.Num)
      → IsBand least most
      → All (IsBounded least most) (tiers N (some (least, most)) day n prices)
  unfolding tiers
  tiers-All least most day n prices band = elim (Bool-cases (ltb n min_observations)) [
    | inl few ↦ rw few (tt, tt)
    | inr enough ↦ elim (Bool-cases (leb blend_threshold n)) [
      | inl many ↦
          let confidence =
            if leb high_confidence_threshold n then high_confidence else medium_confidence in
          rw (enough, many)
            (rows_from-All least most day 0 n confidence blend
              (blend_predictions N (moving_average N prices) (linear_regression N prices)) band)
      | inr some_days ↦
          rw (enough, some_days)
            (rows_from-All least most day 0 n medium_confidence moving_avg
              (predict_flat N (moving_average N prices)) band)
    ]
  ]

  rows_after-All :
      (least most : N.Num) (as_of n : ℕ) (prices : List N.Num)
      → IsBand least most
      → (d : Option ℕ)
      → All (IsBounded least most) (rows_after N d (some (least, most)) as_of n prices)
  unfolding rows_after
  rows_after-All least most as_of n prices band none = tt
  rows_after-All least most as_of n prices band (some d) =
      tiers-All least most (if ltb d as_of then as_of else d) n prices band

  -- Whatever the models predict, every price forecast for a crop with a sanity band lies in the band,
  -- its lower bound is at most it and at least the band's lowest price, which is not negative, and its
  -- upper bound is at least it and at most the band's highest price: for a band of two prices with two
  -- decimals, and for floats with a total order that rounding keeps, where rounding twice is rounding.
  pub make_forecast_rows-All :
      (series : List (ℕ × N.Num)) (least most : N.Num) (as_of : ℕ)
      → IsBand least most
      → All (IsBounded least most) (make_forecast_rows N series (some (least, most)) as_of)
  unfolding make_forecast_rows
  make_forecast_rows-All series least most as_of band =
      rows_after-All least most as_of (length series) (map (λ (e : ℕ × N.Num). e.1) series) band
        (last_day N series)
