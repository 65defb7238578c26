-- ===== src/Advice/Window.antt =====
-- notifications/sale_window.py: `compute_sale_window`, from the rows that its queries return.
-- Distances are in tenths of a kilometre; a place is a latitude with a longitude.
use sih.Prelude.{
  Bool, List, Option, [], false, filter, if◌then◌else◌, is_value, leb, ltb, map, none, not, or_else,
  some, suc, sum_of, take, true, zero, ℕ, ◌*◌, ◌||◌, ◌∷◌,
}
pub mod Compared
pub mod Promises
use sih.Prelude.Sort.{sort_by}
use sih.Advice.Supply.{
  ReasonCode, Supply, Trend, decide, forecast_down, forecast_up, supply_pressure, trend_of,
}
use sih.Market.Logistics.{SaleAction}
use sih.Market.Reliability.{mem}
use sih.Matching.{distance, kept, nashik}

pub record MarketRow : Type 0 where
  pub district : Option ℕ
  pub place : Option (ℕ × ℕ)

pub record PriceRow : Type 0 where
  pub market_id : ℕ
  pub modal_price : ℕ
  pub arrival_qty : Option ℕ
  pub markets : Option MarketRow

pub record StorageRow : Type 0 where
  pub id : ℕ
  pub district : Option ℕ
  pub place : Option (ℕ × ℕ)

-- What the queries return: the prices of 15 days, newest first, the row of the market asked for,
-- the predictions of the coming days, the prices elsewhere, and the active storage options.
pub record Fetched : Type 0 where
  pub prices : List PriceRow
  pub market_rows : List MarketRow
  pub forecasts : List (Option ℕ)
  pub others : List PriceRow
  pub storage_rows : List StorageRow

-- The first row of each market.
unfoldable pub latest_by_market : List ℕ → List PriceRow → List PriceRow
latest_by_market seen [] = []
latest_by_market seen (r ∷ rs) =
    let skipped = latest_by_market seen rs in
    let taken = latest_by_market (r.market_id ∷ seen) rs in
    if mem r.market_id seen then skipped else r ∷ taken

-- The sum of the arrivals that are known, if any is.
abbrev pub known_sum : List ℕ → Option ℕ
known_sum [] = none
known_sum (a ∷ rest) = some (sum_of (λ x. x) (a ∷ rest))

unfoldable pub district_arrivals : List PriceRow → Option ℕ
unfolding latest_by_market
district_arrivals prices =
    known_sum (kept (map (λ (r : PriceRow). r.arrival_qty) (latest_by_market [] prices)))

abbrev pub first_forecast : List (Option ℕ) → Option ℕ
first_forecast [] = none
first_forecast (f ∷ fs) = f

abbrev pub last_forecast : List (Option ℕ) → Option ℕ
last_forecast [] = none
last_forecast (f ∷ []) = f
last_forecast (f ∷ g ∷ fs) = last_forecast (g ∷ fs)

-- Up to `room` other markets, each by its first row.
unfoldable pub nearby_markets : Option ℕ → ℕ → List ℕ → List PriceRow → List PriceRow
nearby_markets market zero seen rs = []
nearby_markets market (suc room) seen [] = []
nearby_markets market (suc room) seen (r ∷ rs) =
    let skipped = nearby_markets market (suc room) seen rs in
    let taken = nearby_markets market room (r.market_id ∷ seen) rs in
    if mem r.market_id seen || is_value market r.market_id then skipped else r ∷ taken

-- 40 km.
abbrev pub nearby_storage : ℕ
nearby_storage = 400

-- A storage option with its distance.
pub record Godown : Type 0 where
  pub row : StorageRow
  pub distance_km : Option ℕ

unfoldable pub is_near : ℕ → Godown → Bool
is_near district g = elim g.distance_km [
  | none ↦ is_value g.row.district district
  | some d ↦ leb d nearby_storage || is_value g.row.district district
]

abbrev pub storage_key : Option ℕ → ℕ
storage_key none = 10_000_000_000
storage_key (some d) = d

abbrev pub storage_ahead : Godown → Godown → Bool
storage_ahead a b = leb (storage_key a.distance_km) (storage_key b.distance_km)

-- The other market with the highest price, from 5 % above on: the first one of equals.
unfoldable pub better_market : ℕ → Option PriceRow → List PriceRow → Option PriceRow
better_market latest best [] = best
better_market latest best (n ∷ ns) =
    let kept_best = better_market latest best ns in
    let new_best = better_market latest (some n) ns in
    if ltb (100 * n.modal_price) (105 * latest) then kept_best else elim best [
      | none ↦ new_best
      | some b ↦ if ltb b.modal_price n.modal_price then new_best else kept_best
    ]

pub record SaleWindow : Type 0 where
  pub recommendation : SaleAction
  pub reason_code : ReasonCode
  pub latest_price : ℕ
  pub forecast_day1 : Option ℕ
  pub forecast_trend : Option Trend
  pub arrivals_qty : Option ℕ
  pub district_arrivals_qty : Option ℕ
  pub supply_pressure : Supply
  pub nearby : List PriceRow
  pub storage_options : List Godown
  pub better : Option PriceRow

abbrev pub nested : PriceRow → MarketRow
nested r = elim r.markets [ none ↦ record { district = none; place = none } | some m ↦ m ]

abbrev or_place : Option (ℕ × ℕ) → Option (ℕ × ℕ) → Option (ℕ × ℕ)
or_place none b = b
or_place (some a) b = some a

-- The market's own row replaces what the price row says of it, when one market is asked for.
unfoldable pub place_and_district :
    Option ℕ → Option (ℕ × ℕ) → MarketRow → List MarketRow → Option (ℕ × ℕ) × ℕ
place_and_district none origin m rows = (or_place origin m.place, or_else m.district nashik)
place_and_district (some i) origin m [] = (or_place origin m.place, or_else m.district nashik)
place_and_district (some i) origin m (r ∷ _) =
    (or_place origin r.place, or_else r.district (or_else m.district nashik))

abbrev pub is_empty : {A : Type 0} → List A → Bool
is_empty [] = true
is_empty (x ∷ xs) = false

module _ (haversine_km : ℕ × ℕ → ℕ × ℕ → ℕ) where
  unfoldable pub near_storage : Option (ℕ × ℕ) → ℕ → List StorageRow → List Godown
  unfolding is_near
  near_storage place district rows =
      let all_options =
        map
          (λ (s : StorageRow). record {
            row = s;
            distance_km = distance haversine_km place s.place;
          })
          rows in
      take 5 (sort_by storage_ahead (filter (is_near district) all_options))

  -- `compute_sale_window` from the latest price on.
  unfoldable pub window_from : Option ℕ → Option (ℕ × ℕ) → Fetched → PriceRow → SaleWindow
  unfolding near_storage place_and_district nearby_markets better_market district_arrivals
  window_from market origin f latest =
      let (place, district) = place_and_district market origin (nested latest) f.market_rows in
      let arrivals = district_arrivals f.prices in
      let supply =
        supply_pressure latest.arrival_qty (map (λ (r : PriceRow). r.arrival_qty) f.prices)
          arrivals in
      let day1 = first_forecast f.forecasts in
      let trend = trend_of day1 (last_forecast f.forecasts) in
      let near = near_storage place district f.storage_rows in
      let others = nearby_markets market 4 [] f.others in
      let (action, code) =
        decide supply (not (is_empty near)) (forecast_up latest.modal_price day1 trend)
          (forecast_down latest.modal_price day1 trend) in
      record {
        recommendation = action;
        reason_code = code;
        latest_price = latest.modal_price;
        forecast_day1 = day1;
        forecast_trend = trend;
        arrivals_qty = latest.arrival_qty;
        district_arrivals_qty = arrivals;
        supply_pressure = supply;
        nearby = others;
        storage_options = near;
        better = better_market latest.modal_price none others;
      }

  unfoldable pub compute_sale_window : Option ℕ → Option (ℕ × ℕ) → Fetched → Option SaleWindow
  unfolding window_from
  compute_sale_window market origin f = elim f.prices [
    | [] ↦ none
    | latest ∷ _ ↦ some (window_from market origin f latest)
  ]
