-- ===== src/Store/Interface.antt =====
-- The Supabase client as the handlers use it: for each table a query, an update of the rows that a
-- query selects, and an insert. `Db` is the service's own state, which is not modelled.
use sih.Prelude.{Bool, List}
use sih.Store.Rows.{Lot, Offer, Payment, Buyer, Grievance, Booking, LogisticsOption, Profile}

-- `update` and `insert` return the rows that `.execute().data` holds.
pub record Table (Db Row : Type 0) : Type 0 where
  pub select : (Row → Bool) → Db → List Row
  pub update : (Row → Bool) → (Row → Row) → Db → List Row × Db
  pub insert : Row → Db → List Row × Db

pub record Client (Db : Type 0) : Type 0 where
  pub lots : Table Db Lot
  pub offers : Table Db Offer
  pub payments : Table Db Payment
  pub buyers : Table Db Buyer
  pub grievances : Table Db Grievance
  pub bookings : Table Db Booking
  pub options : Table Db LogisticsOption
  pub profiles : Table Db Profile
