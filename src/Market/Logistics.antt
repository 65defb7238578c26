-- ===== src/Market/Logistics.antt =====
-- Storage and transport bookings: app/routers/logistics.py, and `booked_quantity` of
-- app/services/marketplace.py. Quantities are exact hundredths, so the
-- tolerance of 1e-9, which absorbs the rounding of float sums, is not written.
pub mod Capacity
pub mod Bookings
use sih.Prelude.{
  Bool, List, Option, [], false, if◌then◌else◌, ltb, none, not, or_else, some, true, ℕ, ◌&&◌, ◌+◌,
  ◌==◌, ◌∷◌,
}
use sih.Store.{
  Action, Booking, BookingStatus, Client, LogisticsOption, Lot, completed, confirmed, first_or,
  insert, lift, pure, raise_if, requested, select, update, ◌>>=◌, ◌>>◌,
}
use sih.Market.Lots.{is_gone, owns_lot}
use sih.Market.Payments.Machine.{rows}

-- `status in ACTIVE_BOOKING_STATUSES`
abbrev pub is_active_status : BookingStatus → Bool
is_active_status requested = true
is_active_status confirmed = true
is_active_status _ = false

abbrev pub is_completed : BookingStatus → Bool
is_completed completed = true
is_completed _ = false

-- A row is left out by its id, when there is one to leave out.
abbrev pub is_excluded : Option ℕ → ℕ → Bool
is_excluded none i = false
is_excluded (some e) i = i == e

-- What one booking adds to the sum.
abbrev pub counted : Booking → ℕ
counted b = if is_active_status b.status then b.quantity_qtl else 0

unfoldable pub sum_booked : Option ℕ → List Booking → ℕ
sum_booked exclude [] = 0
sum_booked exclude (b ∷ bs) =
    (if is_excluded exclude b.id then 0 else counted b) + sum_booked exclude bs

abbrev pub books : ℕ → Booking → Bool
books logistics b = b.logistics_id == logistics

abbrev pub active_option_is : ℕ → LogisticsOption → Bool
active_option_is i o = o.id == i && o.is_active

abbrev pub own_booking : ℕ → ℕ → Booking → Bool
own_booking i u b = b.id == i && b.user_id == u

abbrev pub set_booking : BookingStatus → Booking → Booking
set_booking s b = record b { status = s }

pub record LogisticsBookCreate : Type 0 where
  pub lot_id : ℕ
  pub logistics_id : ℕ
  pub quantity_qtl : Option ℕ

abbrev pub new_booking : LogisticsBookCreate → LogisticsOption → ℕ → ℕ → ℕ → Booking
new_booking body option qty user_id new_id = record {
  id = new_id;
  user_id = user_id;
  lot_id = body.lot_id;
  logistics_id = body.logistics_id;
  kind = option.kind;
  quantity_qtl = qty;
  status = requested;
}

module _ {Db : Type 0} (c : Client Db) where
  unfoldable pub booked_quantity : ℕ → Option ℕ → Action Db ℕ
  unfolding sum_booked
  booked_quantity logistics exclude = do
    rows ← select c.bookings (books logistics)
    pure (sum_booked exclude rows)

  unfoldable pub own_lot : ℕ → ℕ → Action Db Lot
  own_lot lot_id user_id = do
    rows ← select c.lots (λ l. l.id == lot_id)
    lot ← lift (first_or 404 rows)
    raise_if (not (owns_lot user_id lot)) 404
    raise_if (is_gone lot.status) 409
    pure lot

  unfoldable pub active_option : ℕ → Action Db LogisticsOption
  active_option logistics = do
    rows ← select c.options (active_option_is logistics)
    lift (first_or 404 rows)

  -- The comparison with the capacity, when the option has one.
  unfoldable pub assert_within : Option ℕ → LogisticsOption → ℕ → Option ℕ → Action Db (Unit {0})
  unfolding booked_quantity
  assert_within none option extra exclude = pure tt
  assert_within (some cap) option extra exclude = do
    used ← booked_quantity option.id exclude
    raise_if (ltb cap (used + extra)) 409

  unfoldable pub assert_capacity : LogisticsOption → ℕ → Option ℕ → Action Db (Unit {0})
  unfolding assert_within
  assert_capacity option extra exclude = assert_within option.capacity_qtl option extra exclude

  -- `create_booking` from the insert on.
  unfoldable pub store_booking : Booking → Action Db Booking
  store_booking row = do stored ← insert c.bookings row; lift (first_or 400 stored)

  unfoldable pub create_booking : LogisticsBookCreate → ℕ → ℕ → Action Db Booking
  unfolding own_lot active_option assert_capacity store_booking
  create_booking body user_id new_id = do
    lot ← own_lot body.lot_id user_id
    option ← active_option body.logistics_id
    let qty = or_else body.quantity_qtl lot.quantity_qtl
    raise_if (ltb lot.quantity_qtl qty) 400
    assert_capacity option qty none
    store_booking (new_booking body option qty user_id new_id)

  -- `update_booking` from the update on.
  unfoldable pub write_booking : BookingStatus → ℕ → ℕ → Action Db Booking
  write_booking status booking_id user_id = do
    res ← update c.bookings (own_booking booking_id user_id) (set_booking status)
    lift (first_or 404 res)

  -- An active status has to fit into the capacity without the booking itself.
  unfoldable pub check_status : BookingStatus → Booking → ℕ → Action Db (Unit {0})
  unfolding active_option assert_capacity
  check_status status current booking_id = if not (is_active_status status) then pure tt else do
    option ← active_option current.logistics_id
    assert_capacity option current.quantity_qtl (some booking_id)

  unfoldable pub update_booking : BookingStatus → ℕ → ℕ → Action Db Booking
  unfolding check_status write_booking
  update_booking status booking_id user_id = do
    rows ← select c.bookings (own_booking booking_id user_id)
    current ← lift (first_or 404 rows)
    raise_if (is_completed current.status && not (is_completed status)) 409
    check_status status current booking_id
    write_booking status booking_id user_id

-- What a farmer is advised to do.
pub data SaleAction : Type 0 where
  sell_now hold wait : SaleAction
