-- ===== src/Market/Samples.antt =====
-- The tables that the examples of the market run on: one lot, one offer, one payment, one buyer,
-- one transport option and one booking.
use sih.Prelude.{List, [], none, some, true, ◌∷◌}
use sih.Store.{
  Booking, BookingStatus, Buyer, LogisticsOption, Lot, LotStatus, Offer, OfferStatus, Payment,
  PaymentStatus, accepted, faq, matched, offered, pending, requested, transport, unpaid,
}
use sih.Store.Laws.{Tables}

abbrev pub maize_lot : LotStatus → Lot
maize_lot s = record {
  id = 1;
  user_id = 7;
  fpo_id = none;
  commodity_id = 3;
  market_id = none;
  quantity_qtl = 5000;
  grade = faq;
  asking_price = some 210_000;
  status = s;
}

abbrev pub maize_offer : OfferStatus → Offer
maize_offer s = record {
  id = 11;
  lot_id = 1;
  buyer_id = 21;
  user_id = 7;
  price_per_qtl = 220_000;
  quantity_qtl = 4000;
  status = s;
  created_at = some 1000;
}

abbrev pub maize_payment : PaymentStatus → Payment
maize_payment s = record {
  id = 31;
  offer_id = 11;
  user_id = 7;
  amount = 880_000;
  status = s;
  reference = some 5;
  paid_at = none;
}

abbrev pub mill : Buyer
mill = record {
  id = 21;
  verified = true;
  district = some 2;
  commodity_id = some 3;
  demand_qty_qtl = some 5000;
  max_price = some 230_000;
  quality_requirements = none;
  payment_reliability = none;
  place = none;
}

abbrev pub truck_booking : BookingStatus → Booking
truck_booking s = record {
  id = 41;
  user_id = 7;
  lot_id = 1;
  logistics_id = 51;
  kind = transport;
  quantity_qtl = 3000;
  status = s;
}

abbrev pub truck : LogisticsOption
truck = record { id = 51; kind = transport; capacity_qtl = some 6000; is_active = true }

abbrev pub tables : LotStatus → OfferStatus → List Payment → Tables
tables l o ps = record {
  lots = maize_lot l ∷ [];
  offers = maize_offer o ∷ [];
  payments = ps;
  buyers = mill ∷ [];
  grievances = [];
  bookings = truck_booking requested ∷ [];
  options = truck ∷ [];
  profiles = [];
}

abbrev pub matched_tables : Tables
matched_tables = tables matched accepted (maize_payment unpaid ∷ [])

abbrev pub offered_tables : Tables
offered_tables = tables offered pending []
