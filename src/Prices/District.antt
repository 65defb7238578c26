-- ===== src/Prices/District.antt =====
-- forecasting/engine.py: `build_district_daily_series`; and notifications/prices.py:
-- `latest_price_for_user`, from the rows that its queries return. An average is a fraction: the sum
-- of the prices with their number. Distances are in tenths of a kilometre.
use sih.Prelude.{
  Bool, List, Option, [], false, filter, if◌then◌else◌, is_value, leb, length, map, none, some,
  sum_of, ℕ, ◌++◌, ◌==◌, ◌∷◌,
}
use sih.Prelude.Sort.{sort_by}
use sih.Market.Reliability.{mem}
use sih.Matching.{kept}
use sih.Prices.Series.{Observation, build_daily_series}

-- A row of the prices of one crop in the last 15 days. `market_id` is never null in the table.
pub record HistoryRow : Type 0 where
  pub observation : Observation
  pub market_id : ℕ
  pub market_name : Option ℕ

unfoldable pub last_point : {A : Type 0} → List A → Option A
last_point [] = none
last_point (x ∷ []) = some x
last_point (x ∷ y ∷ ys) = last_point (y ∷ ys)

-- A null column compares with nothing.
abbrev pub same_district : Option ℕ → Option ℕ → Bool
same_district none d = false
same_district (some a) d = is_value d a

-- The keys of a dict, in their order.
unfoldable pub keys_of : List ℕ → List ℕ → List ℕ
keys_of seen [] = []
keys_of seen (k ∷ ks) =
    let skipped = keys_of seen ks in
    let taken = keys_of (k ∷ seen) ks in if mem k seen then skipped else k ∷ taken

abbrev pub of_market : ℕ → HistoryRow → Bool
of_market m r = r.market_id == m

-- The series of each market, one after the other.
unfoldable pub market_points : List HistoryRow → List ℕ → List (ℕ × ℕ)
market_points rows [] = []
market_points rows (m ∷ ms) =
    build_daily_series (map (λ (r : HistoryRow). r.observation) (filter (of_market m) rows))
    ++ market_points rows ms

abbrev pub prices_on : ℕ → List (ℕ × ℕ) → List ℕ
prices_on d points = map (λ (p : ℕ × ℕ). p.1) (filter (λ (p : ℕ × ℕ). p.0 == d) points)

-- The average is `total / count`.
pub record DayAverage : Type 0 where
  pub day : ℕ
  pub total : ℕ
  pub count : ℕ

abbrev pub average_on : List (ℕ × ℕ) → ℕ → DayAverage
average_on points d =
    let values = prices_on d points in
    record { day = d; total = sum_of (λ x. x) values; count = length values }

abbrev pub no_later : DayAverage → DayAverage → Bool
no_later a b = leb a.day b.day

-- `sorted` compares the days, which differ, and never the averages.
unfoldable pub build_district_daily_series : List HistoryRow → List DayAverage
unfolding keys_of market_points
build_district_daily_series rows =
    let markets = keys_of [] (map (λ (r : HistoryRow). r.market_id) rows) in
    let points = market_points rows markets in
    let days = keys_of [] (map (λ (p : ℕ × ℕ). p.0) points) in
    sort_by no_later (map (average_on points) days)

-- 50 km.
abbrev pub nearest_market_radius : ℕ
nearest_market_radius = 500

-- A row that the SQL function nearest_market returns.
pub record NearestRow : Type 0 where
  pub id : ℕ
  pub name : ℕ
  pub distance_km : ℕ

pub record ActiveMarket : Type 0 where
  pub id : ℕ
  pub district : Option ℕ

-- What the queries return. `nearest` is empty where the call raises.
pub record Quotes : Type 0 where
  pub nearest : List NearestRow
  pub markets : List ActiveMarket
  pub history : List HistoryRow

pub data MarketName : Type 0 where
  named : ℕ → MarketName
  average_of : Option ℕ → MarketName

-- The nearest market within the radius, of a user whose place is known.
unfoldable pub near_market : Option (ℕ × ℕ) → List NearestRow → Option NearestRow
near_market none rows = none
near_market (some p) [] = none
near_market (some p) (r ∷ _) = if leb r.distance_km nearest_market_radius then some r else none

unfoldable pub market_price : NearestRow → List HistoryRow → Option ((ℕ × ℕ) × MarketName)
market_price m history =
    let series =
      build_daily_series
        (map (λ (r : HistoryRow). r.observation) (filter (of_market m.id) history)) in
    elim (last_point series) [ none ↦ none | some p ↦ some ((p.1, 1), named m.name) ]

-- The one name, or that of the district.
abbrev pub name_of : Option ℕ → List ℕ → MarketName
name_of district (n ∷ []) = named n
name_of district _ = average_of district

unfoldable pub district_price :
    Option ℕ → List ActiveMarket → List HistoryRow → Option ((ℕ × ℕ) × MarketName)
unfolding keys_of build_district_daily_series
district_price district markets history =
    let ids =
      map (λ (m : ActiveMarket). m.id)
        (filter (λ (m : ActiveMarket). same_district district m.district) markets) in
    let rows = filter (λ (r : HistoryRow). mem r.market_id ids) history in
    let names = keys_of [] (kept (map (λ (r : HistoryRow). r.market_name) rows)) in
    elim (last_point (build_district_daily_series rows)) [
      | none ↦ none
      | some p ↦ some ((p.total, p.count), name_of district names)
    ]

unfoldable pub latest_price_for_user :
    Quotes → Option (ℕ × ℕ) → Option ℕ → Option ((ℕ × ℕ) × MarketName)
unfolding near_market market_price district_price
latest_price_for_user q place district = elim (near_market place q.nearest) [
  | some m ↦ market_price m q.history
  | none ↦ district_price district q.markets q.history
]
