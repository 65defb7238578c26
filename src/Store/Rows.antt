-- ===== src/Store/Rows.antt =====
-- The rows of db/migrations/001_schema.sql, 008_marketplace.sql and 009_logistics_bookings.sql:
-- the columns that the modelled code reads or writes. Ids, and names that are only compared, are
-- numbers; quantities and prices are in hundredths (`numeric(12, 2)`), instants in microseconds.
use sih.Prelude.{ℕ, Bool, Option, List}

pub data LotStatus : Type 0 where
  open_lot offered matched sold withdrawn : LotStatus

pub data Grade : Type 0 where
  faq general special : Grade

pub record Lot : Type 0 where
  pub id : ℕ
  pub user_id : ℕ
  pub fpo_id : Option ℕ
  pub commodity_id : ℕ
  pub market_id : Option ℕ
  pub quantity_qtl : ℕ
  pub grade : Grade
  pub asking_price : Option ℕ
  pub status : LotStatus

pub data OfferStatus : Type 0 where
  pending accepted rejected expired : OfferStatus

-- `created_at` is the instant that `_parse_dt` reads, and none where it returns None.
pub record Offer : Type 0 where
  pub id : ℕ
  pub lot_id : ℕ
  pub buyer_id : ℕ
  pub user_id : ℕ
  pub price_per_qtl : ℕ
  pub quantity_qtl : ℕ
  pub status : OfferStatus
  pub created_at : Option ℕ

pub data PaymentStatus : Type 0 where
  unpaid paid failed disputed : PaymentStatus

-- `unpaid` is the column's value 'pending'.
pub record Payment : Type 0 where
  pub id : ℕ
  pub offer_id : ℕ
  pub user_id : ℕ
  pub amount : ℕ
  pub status : PaymentStatus
  pub reference : Option ℕ
  pub paid_at : Option ℕ

pub data Reliability : Type 0 where
  high medium low : Reliability

pub record Buyer : Type 0 where
  pub id : ℕ
  pub verified : Bool
  pub district : Option ℕ
  pub commodity_id : Option ℕ
  pub demand_qty_qtl : Option ℕ
  pub max_price : Option ℕ
  pub quality_requirements : Option (List ℕ)
  pub payment_reliability : Option Reliability
  pub place : Option (ℕ × ℕ)

pub data GrievanceStatus : Type 0 where
  reported in_progress resolved dismissed : GrievanceStatus

pub data Category : Type 0 where
  payment_issue quality_issue logistics_issue buyer_issue other_issue : Category

-- `reported` and `dismissed` are the column's values 'open' and 'rejected'.
pub record Grievance : Type 0 where
  pub id : ℕ
  pub user_id : ℕ
  pub offer_id : Option ℕ
  pub lot_id : Option ℕ
  pub category : Category
  pub status : GrievanceStatus

pub data BookingStatus : Type 0 where
  requested confirmed cancelled completed : BookingStatus

pub data Kind : Type 0 where
  transport storage : Kind

pub record Booking : Type 0 where
  pub id : ℕ
  pub user_id : ℕ
  pub lot_id : ℕ
  pub logistics_id : ℕ
  pub kind : Kind
  pub quantity_qtl : ℕ
  pub status : BookingStatus

pub record LogisticsOption : Type 0 where
  pub id : ℕ
  pub kind : Kind
  pub capacity_qtl : Option ℕ
  pub is_active : Bool

pub data Role : Type 0 where
  farmer admin buyer_role fpo : Role

pub record Profile : Type 0 where
  pub id : ℕ
  pub role : Role
  pub district : Option ℕ
  pub place : Option (ℕ × ℕ)
