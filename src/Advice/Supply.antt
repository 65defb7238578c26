-- ===== src/Advice/Supply.antt =====
-- notifications/sale_window.py: the pressure of supply, and the decision. Quantities and prices are
-- in hundredths, and products with the factors 1.3, 0.6, 1.03, 0.97 and 1.05 are compared exactly.
use sih.Prelude.{
  Bool, List, Option, [], arith, false, if◌then◌else◌, leb, length, ltb, none, not, some, suc, true,
  zero, ℕ, ◌&&◌, ◌*◌, ◌+◌, ◌-◌, ◌/◌, ◌<◌, ◌==◌, ◌||◌, ◌↔◌, ◌∷◌, ◌≡◌, ◌≤◌,
}
use sih.Prelude.Sort.{sort_by}
use sih.Market.Logistics.{SaleAction, hold, sell_now, wait}
use sih.Matching.{kept}

pub data Supply : Type 0 where
  high_supply low_supply normal_supply unknown_supply : Supply

-- 1000, 2500 and 200 quintals.
abbrev pub high_arrival : ℕ
high_arrival = 100_000

abbrev pub high_district_arrival : ℕ
high_district_arrival = 250_000

abbrev pub low_arrival : ℕ
low_arrival = 20_000

abbrev pub over : ℕ → Option ℕ → Bool
over limit none = false
over limit (some a) = ltb limit a

abbrev leq : ℕ → ℕ → Bool
leq a b = leb a b

abbrev item_or_0 : ℕ → List ℕ → ℕ
item_or_0 i [] = 0
item_or_0 zero (x ∷ xs) = x
item_or_0 (suc i) (x ∷ xs) = item_or_0 i xs

-- Twice `statistics.median` of a list that is not empty.
unfoldable pub median_twice : List ℕ → ℕ
median_twice l =
    let s = sort_by leq l in let n = length l in item_or_0 ((n - 1) / 2) s + item_or_0 (n / 2) s

-- The comparison with the median: none when it decides nothing.
unfoldable pub against_median : ℕ → ℕ → Option Supply
against_median a twice =
    if not (twice == 0) && ltb (13 * twice) (20 * a)
    then some high_supply
    else if ltb (10 * a) (3 * twice)
    then some low_supply
    else none

abbrev pub against_sample : ℕ → List ℕ → Option Supply
against_sample a sample =
    if leb 3 (length sample) then against_median a (median_twice sample) else none

-- `_supply_pressure` once neither the market's nor the district's arrivals are over their limits.
unfoldable pub below_limits : Option ℕ → List ℕ → Supply
unfolding against_median median_twice
below_limits none sample = unknown_supply
below_limits (some a) sample = elim (against_sample a sample) [
  | some s ↦ s
  | none ↦ if ltb a low_arrival then low_supply else normal_supply
]

unfoldable pub supply_pressure : Option ℕ → List (Option ℕ) → Option ℕ → Supply
unfolding below_limits
supply_pressure arrivals recent district =
    if over high_arrival arrivals
    then high_supply
    else if over high_district_arrival district
    then high_supply
    else below_limits arrivals (kept recent)

pub data Trend : Type 0 where
  up down flat : Trend

abbrev pub is_down : Option Trend → Bool
is_down (some down) = true
is_down _ = false

unfoldable pub trend_of : Option ℕ → Option ℕ → Option Trend
trend_of none last = none
trend_of (some first) none = none
trend_of (some first) (some last) =
    if ltb (103 * first) (100 * last)
    then some up
    else if ltb (100 * last) (97 * first)
    then some down
    else some flat

-- `day1 >= latest_price * 1.05 and trend != "down"`
unfoldable pub forecast_up : ℕ → Option ℕ → Option Trend → Bool
forecast_up latest none t = false
forecast_up latest (some d) t = leb (105 * latest) (100 * d) && not (is_down t)

-- `day1 <= latest_price * 0.97 or trend == "down"`
unfoldable pub forecast_down : ℕ → Option ℕ → Option Trend → Bool
forecast_down latest none t = false
forecast_down latest (some d) t = leb (100 * d) (97 * latest) || is_down t

pub data ReasonCode : Type 0 where
  sell_no_storage hold_stored sell_arrivals sell_forecast wait_normal : ReasonCode

abbrev pub is_high : Supply → Bool
is_high high_supply = true
is_high _ = false

-- The cascade of the recommendation, its four inputs given.
unfoldable pub decide : Supply → Bool → Bool → Bool → SaleAction × ReasonCode
decide supply near rises falls =
    if is_high supply && not near
    then (sell_now, sell_no_storage)
    else if is_high supply && (near && rises)
    then (hold, hold_stored)
    else if is_high supply
    then (sell_now, sell_arrivals)
    else if near && rises
    then (hold, hold_stored)
    else if falls
    then (sell_now, sell_forecast)
    else if not near && rises
    then (sell_now, sell_no_storage)
    else (wait, wait_normal)

-- Holding is advised exactly when there is nearby storage and the forecast rises, whatever the
-- supply; waiting exactly when supply is not high and the forecast neither rises nor falls.
pub decide_iff :
    (s : Supply) (near rises falls : Bool)
    → let action = (decide s near rises falls).0 in
      ((action ≡ hold) ↔ ((near ≡ true) × (rises ≡ true)))
      × ((action ≡ wait) ↔ ((is_high s ≡ false) × (rises ≡ false) × (falls ≡ false)))
unfolding decide
decide_iff s near rises falls = ground arith

-- Arrivals of the market over 1000 quintals are high supply, whatever the past; without arrivals of
-- the market the district's alone decide; otherwise a small sample leaves the fixed limits.
pub supply_pressure_lem :
    (a : ℕ) (recent : List (Option ℕ)) (district : Option ℕ)
    → (high_arrival < a → supply_pressure (some a) recent district ≡ high_supply)
      × (supply_pressure none recent district
          ≡ (if over high_district_arrival district then high_supply else unknown_supply))
      × (over high_district_arrival district ≡ false
          → length (kept recent) < 3
          → a ≤ high_arrival
          → supply_pressure (some a) recent district
            ≡ (if ltb a low_arrival then low_supply else normal_supply))
unfolding supply_pressure below_limits
supply_pressure_lem a recent district = ground arith
