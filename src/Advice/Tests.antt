-- ===== src/Advice/Tests.antt =====
-- The advice on a concrete market.
use sih.Prelude.{
  All, [], false, filter, length, none, refl, some, true, ℕ, ◌+◌, ◌-◌, ◌==◌, ◌↔◌, ◌∷◌, ◌≡◌, ◌≤◌,
  ◌⊎◌,
}
use sih.Prelude.Sort.{IsSorted, insert_by, sort_by}
use sih.Store.{Lot, err, ok, open_lot}
use sih.Store.Laws.{Tables}
use sih.Store.Memory.{memory, memory_laws}
use sih.Advice.Lot.{LotAdvice, lot_advice}
use sih.Advice.Lot.Next.{IsAdvice, IsRefused, IsServed, lot_advice_lem}
use sih.Advice.Supply.{decide, forecast_down, forecast_up, supply_pressure, trend_of}
use sih.Advice.Window.{
  Fetched, PriceRow, better_market, district_arrivals, is_empty, is_near, latest_by_market,
  near_storage, nearby_markets, nested, place_and_district, storage_ahead, window_from,
}
use sih.Advice.Window.Compared.{AreCompared}
use sih.Advice.Window.Promises.{IsBest, window_from_lem}
use sih.Market.Logistics.{hold}
use sih.Market.Samples.{maize_lot, mill}

abbrev on_a_line : ℕ × ℕ → ℕ × ℕ → ℕ
on_a_line a b = (a.0 - b.0) + (b.0 - a.0)

abbrev price_at : ℕ → ℕ → ℕ → PriceRow
price_at market price arrivals = record {
  market_id = market;
  modal_price = price;
  arrival_qty = some arrivals;
  markets = some (record { district = some 2; place = some (100, 0) });
}

-- High arrivals, a rising forecast, a godown at 30 km and a better market.
abbrev glut : Fetched
glut = record {
  prices = price_at 1 200_000 150_000 ∷ price_at 1 190_000 90_000 ∷ [];
  market_rows = [];
  forecasts = some 215_000 ∷ some 220_000 ∷ [];
  others = price_at 1 200_000 150_000 ∷ price_at 4 230_000 10_000 ∷ price_at 5 212_000 10_000 ∷ [];
  storage_rows =
      record { id = 8; district = some 3; place = some (400, 0) }
      ∷ record { id = 9; district = some 3; place = some (900, 0) }
      ∷ [];
}

abbrev latest : PriceRow
latest = price_at 1 200_000 150_000

held :
    let w = window_from on_a_line (some 1) none glut latest in
    (w.recommendation ≡ hold)
    × (w.better ≡ some (price_at 4 230_000 10_000))
    × (length w.storage_options ≡ 1)
unfolding window_from near_storage sort_by insert_by is_near place_and_district nearby_markets
    better_market district_arrivals latest_by_market supply_pressure trend_of forecast_up
    forecast_down decide
held = (refl, refl, refl)

window_from_lem_example :
    let w = window_from on_a_line (some 1) none glut latest in
    let district = (place_and_district (some 1) none (nested latest) glut.market_rows).1 in
    ((w.recommendation ≡ hold) ↔ (
      (is_empty w.storage_options ≡ false)
      × (forecast_up w.latest_price w.forecast_day1 w.forecast_trend ≡ true)))
    × IsBest latest.modal_price w.nearby w.better
    × (length w.storage_options ≤ 5)
    × All (λ g. is_near district g ≡ true) w.storage_options
    × IsSorted storage_ahead w.storage_options
    × AreCompared (some 1) glut.others w.nearby
window_from_lem_example = window_from_lem on_a_line (some 1) none glut latest

-- A lot of user 7 in a glut, with no storage booked.
abbrev held_tables : Tables
held_tables = record {
  lots = record (maize_lot open_lot) { market_id = some 1 } ∷ [];
  offers = [];
  payments = [];
  buyers = mill ∷ [];
  grievances = [];
  bookings = [];
  options = [];
  profiles = [];
}

lot_advice_lem_example :
    let end = lot_advice memory on_a_line (λ k. glut) [] 1 7 held_tables in
    let rows = filter (λ (l : Lot). l.id == 1) held_tables.lots in
    (IsRefused 7 rows × (end ≡ (err 404, held_tables)))
    ⊎ (IsServed 7 rows
        × ((a : LotAdvice) × (end ≡ (ok a, held_tables))
            × IsAdvice memory memory_laws on_a_line [] a))
lot_advice_lem_example = lot_advice_lem memory memory_laws on_a_line (λ k. glut) [] 1 7 held_tables
