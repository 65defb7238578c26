-- ===== src/Forecast/Models.antt =====
-- forecasting/engine.py: `MovingAverageModel`, `LinearRegressionModel` and `_blend_predictions`. Floats
-- are a parameter with the operations that the code uses, with `statistics.pstdev`, `round(x, 2)` and
-- the square root of a whole number.
use sih.Prelude.{
  Bool, List, [], if◌then◌else◌, length, map, suc, sum_of, zero, ℕ, ◌*◌, ◌+◌, ◌-◌, ◌==◌, ◌∷◌,
}
use sih.Prelude.Sort.{drop}

pub record Numbers : Type 1 where
  pub Num : Type 0
  pub plus : Num → Num → Num
  pub minus : Num → Num → Num
  pub times : Num → Num → Num
  pub over : Num → Num → Num
  pub lt : Num → Num → Bool
  pub of_nat : ℕ → Num
  -- A price of the table, which has two decimals.
  pub of_cents : ℕ → Num
  pub round2 : Num → Num
  pub root : ℕ → Num
  pub pstdev : List Num → Num
  -- CONFIDENCE_Z, and the weights of the blend.
  pub confidence_z : Num
  pub ma_weight : Num
  pub lr_weight : Num

abbrev pub ma_window : ℕ
ma_window = 7

abbrev pub ols_fit_window : ℕ
ols_fit_window = 30

abbrev pub horizon_days : ℕ
horizon_days = 7

-- `l[-n:]`
abbrev pub last_n : {A : Type 0} → ℕ → List A → List A
last_n n l = drop (length l - n) l

-- 0, 1, … below a number, from a start on.
abbrev pub range_from : ℕ → ℕ → List ℕ
range_from from_x zero = []
range_from from_x (suc n) = from_x ∷ range_from (from_x + 1) n

module _ (N : Numbers) where
  abbrev pub zero_n : N.Num
  zero_n = N.of_nat 0

  -- `max(a, b)` and `min(a, b)`
  abbrev pub max_of : N.Num → N.Num → N.Num
  max_of a b = if N.lt a b then b else a

  abbrev pub min_of : N.Num → N.Num → N.Num
  min_of a b = if N.lt b a then b else a

  -- `sum`, from the left.
  abbrev pub total_from : N.Num → List N.Num → N.Num
  total_from so_far [] = so_far
  total_from so_far (x ∷ xs) = total_from (N.plus so_far x) xs

  abbrev pub total_of : List N.Num → N.Num
  total_of xs = total_from zero_n xs

  abbrev pub spread : List N.Num → N.Num
  spread [] = zero_n
  spread (x ∷ []) = zero_n
  spread (x ∷ y ∷ ys) = N.pstdev (x ∷ y ∷ ys)

  -- The predicted price with its bounds.
  pub record Prediction : Type 0 where
    pub predicted : N.Num
    pub lower : N.Num
    pub upper : N.Num

  pub record MovingAverage : Type 0 where
    pub level : N.Num
    pub sigma : N.Num

  unfoldable pub moving_average : List N.Num → MovingAverage
  moving_average prices =
      let window = last_n ma_window prices in
      record { level = N.over (total_of window) (N.of_nat (length window)); sigma = spread window }

  abbrev pub bounded : N.Num → N.Num → N.Num → Prediction
  bounded predicted centre margin = record {
    predicted = predicted;
    lower = N.round2 (max_of zero_n (N.minus centre margin));
    upper = N.round2 (N.plus centre margin);
  }

  unfoldable pub predict_flat : MovingAverage → List Prediction
  predict_flat m =
      map (λ i. bounded (N.round2 m.level) m.level (N.times N.confidence_z m.sigma))
        (range_from 0 horizon_days)

  pub record LinearRegression : Type 0 where
    pub slope : N.Num
    pub intercept : N.Num
    pub sigma : N.Num
    pub next_x : ℕ

  abbrev pub products : ℕ → List N.Num → List N.Num
  products x [] = []
  products x (y ∷ ys) = N.times (N.of_nat x) y ∷ products (x + 1) ys

  abbrev pub residuals : N.Num → N.Num → ℕ → List N.Num → List N.Num
  residuals slope intercept x [] = []
  residuals slope intercept x (y ∷ ys) =
      N.minus y (N.plus intercept (N.times slope (N.of_nat x)))
      ∷ residuals slope intercept (x + 1) ys

  -- The line through the window: flat where `n·Σx² - (Σx)²` is 0. That number is never negative.
  unfoldable pub fit_line : List N.Num → N.Num × N.Num
  fit_line window =
      let n = length window in
      let xs = range_from 0 n in
      let sum_x = sum_of (λ x. x) xs in
      let sum_x2 = sum_of (λ x. x * x) xs in
      let sum_y = total_of window in
      let denom = n * sum_x2 - sum_x * sum_x in
      let slope =
        N.over
          (N.minus (N.times (N.of_nat n) (total_of (products 0 window)))
            (N.times (N.of_nat sum_x) sum_y))
          (N.of_nat denom) in
      if denom == 0
      then (zero_n, (if n == 0 then zero_n else N.over sum_y (N.of_nat n)))
      else (slope, N.over (N.minus sum_y (N.times slope (N.of_nat sum_x))) (N.of_nat n))

  unfoldable pub linear_regression : List N.Num → LinearRegression
  unfolding fit_line
  linear_regression prices =
      let window = last_n ols_fit_window prices in
      let (slope, intercept) = fit_line window in
      record {
        slope = slope;
        intercept = intercept;
        sigma = spread (residuals slope intercept 0 window);
        next_x = length window;
      }

  unfoldable pub blend_predictions : MovingAverage → LinearRegression → List Prediction
  blend_predictions ma lr =
      let margin = N.times N.confidence_z (max_of ma.sigma lr.sigma) in
      map
        (λ i.
          let ahead = N.plus lr.intercept (N.times lr.slope (N.of_nat (lr.next_x + i))) in
          let p = N.round2 (N.plus (N.times N.ma_weight ma.level) (N.times N.lr_weight ahead)) in
          bounded p p margin)
        (range_from 0 horizon_days)
