-- ===== src/Advice/Lot.antt =====
-- app/routers/matching.py with logistics_next_step of app/services/marketplace.py: the buyers for a
-- lot, and what to do with it. What the queries of the sale window and of the transport of the
-- district answer are arguments; the texts of the answers are left out.
pub mod Next
use sih.Prelude.{
  Bool, List, Option, [], any, false, head?, if◌then◌else◌, none, not, some, take, true, ℕ, ◌&&◌,
  ◌==◌, ◌∷◌,
}
use sih.Store.{
  Action, Booking, Client, Kind, LogisticsOption, Lot, Profile, pure, select, storage, transport,
  ◌>>=◌, ◌>>◌,
}
use sih.Advice.Window.{Fetched, Godown, SaleWindow, compute_sale_window}
use sih.Market.Logistics.{SaleAction, hold, is_active_status, sell_now, wait}
use sih.Market.Logistics.Capacity.{booked}
use sih.Market.Lots.{get_lot}
use sih.Matching.{MatchRow, place_of, rank_buyers}
use sih.Sms.Inbound.{best_buyer}

abbrev pub is_storage : Kind → Bool
is_storage storage = true
is_storage transport = false

-- What the farmer is told to do next: the godown or the truck is none where no row names one.
pub data NextStep : Type 0 where
  book_storage : Option ℕ → NextStep
  book_transport : Option ℕ → NextStep
  storage_booked : NextStep
  transport_booked : NextStep

abbrev pub has_storage : List Booking → Bool
has_storage bookings =
    any (λ (b : Booking). is_active_status b.status && is_storage b.kind) bookings

abbrev pub has_transport : List Booking → Bool
has_transport bookings =
    any (λ (b : Booking). is_active_status b.status && not (is_storage b.kind)) bookings

abbrev pub storage_of : Option SaleWindow → List Godown
storage_of none = []
storage_of (some w) = w.storage_options

abbrev pub godown_id : List Godown → Option ℕ
godown_id [] = none
godown_id (g ∷ gs) = some g.row.id

abbrev pub transport_id : List LogisticsOption → Option ℕ
transport_id [] = none
transport_id (o ∷ os) = some o.id

unfoldable pub logistics_next_step :
    SaleAction → Option SaleWindow → List Booking → List LogisticsOption → Option NextStep
logistics_next_step hold window bookings options =
    some (
      if has_storage bookings then storage_booked else book_storage (godown_id (storage_of window)))
logistics_next_step sell_now window bookings options =
    some
      (if has_transport bookings then transport_booked else book_transport (transport_id options))
logistics_next_step wait window bookings options = none

abbrev pub action_of : Option SaleWindow → SaleAction
action_of none = wait
action_of (some w) = w.recommendation

pub record LotMatches : Type 0 where
  pub best_buyer : Option MatchRow
  pub matches : List MatchRow

pub record LotAdvice : Type 0 where
  pub action : SaleAction
  pub next_step : Option NextStep
  pub sale_window : Option SaleWindow
  pub best_buyer : Option MatchRow
  pub matches : List MatchRow
  pub bookings : List Booking
  pub suggested_transport : List LogisticsOption

module _ {Db : Type 0} (c : Client Db) (haversine_km : ℕ × ℕ → ℕ × ℕ → ℕ) where
  -- `_load_lot_and_profile`
  unfoldable pub load_lot_and_profile : ℕ → ℕ → Action Db (Lot × Option Profile)
  unfolding get_lot
  load_lot_and_profile lot_id user_id = do
    lot ← get_lot c lot_id user_id
    profiles ← select c.profiles (λ p. p.id == user_id)
    pure (lot, head? profiles)

  unfoldable pub ranked_for : Lot × Option Profile → Action Db (List MatchRow)
  ranked_for (lot, profile) = do
    verified ← select c.buyers (λ b. b.verified)
    pure (rank_buyers haversine_km lot profile verified 10)

  unfoldable pub match_buyers : ℕ → ℕ → Action Db LotMatches
  unfolding load_lot_and_profile ranked_for
  match_buyers lot_id user_id = do
    mine ← load_lot_and_profile lot_id user_id
    ranked ← ranked_for mine
    pure (record { best_buyer = head? ranked; matches = take 10 ranked })

  abbrev pub window_of : (ℕ → Fetched) → Lot × Option Profile → Option SaleWindow
  window_of market_data (lot, profile) =
      compute_sale_window haversine_km lot.market_id (place_of profile)
        (market_data lot.commodity_id)

  -- The answer, from what was read.
  unfoldable pub lot_advice_for :
      Option SaleWindow → List MatchRow → List Booking → List LogisticsOption → LotAdvice
  unfolding logistics_next_step
  lot_advice_for window ranked booked options = record {
    action = action_of window;
    next_step = logistics_next_step (action_of window) window booked options;
    sale_window = window;
    best_buyer = head? ranked;
    matches = take 5 ranked;
    bookings = booked;
    suggested_transport = take 3 options;
  }

  unfoldable pub lot_advice : (ℕ → Fetched) → List LogisticsOption → ℕ → ℕ → Action Db LotAdvice
  unfolding load_lot_and_profile ranked_for compute_sale_window lot_advice_for
  lot_advice market_data options lot_id user_id = do
    mine ← load_lot_and_profile lot_id user_id
    ranked ← ranked_for mine
    booked ← select c.bookings (λ b. b.lot_id == lot_id)
    pure (lot_advice_for (window_of market_data mine) ranked booked options)
