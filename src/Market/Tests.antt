-- ===== src/Market/Tests.antt =====
-- The handlers of the market on concrete tables.
use sih.Prelude.{List, [], arith, false, filter, length, map, refl, some, ℕ, ◌∷◌, ◌≡◌, ◌≢◌, ◌⊎◌}
use sih.Prelude.Int.{◌+ℤ◌, ◌-ℤ◌}
use sih.Store.{
  Offer, Payment, accepted, confirmed, disputed, err, expired, failed, matched, ok, open_lot,
  pending, rejected, unpaid,
}
use sih.Store.Laws.{Tables, update_where}
use sih.Store.Memory.{memory, memory_laws}
use sih.Market.Logistics.{LogisticsBookCreate, create_booking, sum_booked, update_booking}
use sih.Market.Logistics.Bookings.{create_booking-WithinCapacity, update_booking-WithinCapacity}
use sih.Market.Logistics.Capacity.{WithinCapacity}
use sih.Market.Offers.{
  OfferCreate, create_offer, expire_stale_offers, follow_lot, new_offer, offer_is_stale,
  offer_ttl_hours, own_offer, set_offer, update_offer, with_expiry, write_offer,
}
use sih.Market.Offers.Accept.{update_offer-accepts, with_status}
use sih.Market.Offers.Create.{Offerable, create_offer_lem, with_offer}
use sih.Market.Offers.Expiry.{expire_stale_offers-offers}
use sih.Market.Offers.Waits.{LotsWait, update_offer-LotsWait}
use sih.Market.Payments.{
  PaymentCreate, close_lot, create_payment, existing_payment, finish_payment, mark_paid, own,
  own_payment, rescore_offer_buyer, set_paid, settle,
}
use sih.Market.Payments.Atomic.{mark_paid-atomic}
use sih.Market.Payments.Effects.{Settled, mark_paid-settles}
use sih.Market.Payments.Machine.{Closed, Reach, Reach-Closed, create, pay, serve, step, stop}
use sih.Market.Payments.OneOpen.{OneOpen, Reach-OneOpen}
use sih.Market.Payments.Retry.{create_payment-retry}
use sih.Market.Reliability.{
  history, recompute_buyer_reliability, score, score_payment_reliability, store_grade,
}
use sih.Market.Samples.{maize_offer, maize_payment, matched_tables, offered_tables, tables}

-- Without the lot's row the payment is rolled back.
abbrev lost_lot : Tables
lost_lot = record matched_tables { lots = [] }

paid_lost : (mark_paid memory 99 31 7 lost_lot).0 ≡ err 503
unfolding mark_paid own_payment settle close_lot
paid_lost = refl

mark_paid-atomic_example :
    memory_laws.view (mark_paid memory 99 31 7 lost_lot).1 ≡ memory_laws.view lost_lot
mark_paid-atomic_example =
    mark_paid-atomic memory memory_laws 99 31 7 lost_lot {e = 503} (tt, tt) paid_lost

abbrev pay_maize : PaymentCreate
pay_maize = record { offer_id = 11; amount = 880_000; reference = some 5 }

abbrev unpaid_tables : Tables
unpaid_tables = tables matched accepted []

stored_first : (create_payment memory pay_maize 7 31 unpaid_tables).0 ≡ ok (maize_payment unpaid)
unfolding create_payment existing_payment finish_payment
stored_first = refl

create_payment-retry_example :
    let d' = (create_payment memory pay_maize 7 31 unpaid_tables).1 in
    create_payment memory pay_maize 7 32 d' ≡ (ok (maize_payment unpaid), d')
create_payment-retry_example =
    create_payment-retry memory memory_laws pay_maize 7 31 32 unpaid_tables stored_first

settled_now : (mark_paid memory 99 31 7 matched_tables).0 ≡ ok (set_paid 99 (maize_payment unpaid))
unfolding mark_paid own_payment settle close_lot rescore_offer_buyer recompute_buyer_reliability
    history store_grade score_payment_reliability score ◌-ℤ◌ ◌+ℤ◌
settled_now = refl

mark_paid-settles_example :
    ((cur : Payment) × (rest : List Payment) × (filter (own 31 7) matched_tables.payments
        ≡ cur ∷ rest)
      × (cur.status ≢ failed)
      × (cur.status ≢ disputed)
      × (set_paid 99 (maize_payment unpaid) ≡ set_paid 99 cur))
    × Settled memory memory_laws 99 31 7
        (set_paid 99 (maize_payment unpaid))
        (memory_laws.view matched_tables)
        (memory_laws.view (mark_paid memory 99 31 7 matched_tables).1)
mark_paid-settles_example =
    mark_paid-settles memory memory_laws 99 31 7 matched_tables (set_paid 99 (maize_payment unpaid))
      settled_now

-- The failed payment stays, a new one is made for the offer, and it is paid.
abbrev failed_tables : Tables
failed_tables = tables matched accepted (maize_payment failed ∷ [])

abbrev after_retry : Tables
after_retry = serve memory (pay 99 32 7) (serve memory (create pay_maize 7 32) failed_tables)

retry_path : Reach memory memory_laws failed_tables after_retry
retry_path = step (step stop (create pay_maize 7 32) ((λ e. omega (arith, e)), tt)) (pay 99 32 7) tt

Reach-OneOpen_example : OneOpen after_retry.payments
Reach-OneOpen_example = Reach-OneOpen memory memory_laws (tt, tt) ((λ o. tt), tt) retry_path

Reach-Closed_example : Closed memory memory_laws 31 after_retry
Reach-Closed_example = Reach-Closed memory memory_laws 31 (tt, tt) refl retry_path

expire_stale_offers-offers_example :
    ((n : ℕ) × ((expire_stale_offers memory 48 200_000_000_000 offered_tables).0
        ≡ ok (
          length (
              map
                (λ (o : Offer). o.id)
                (filter (offer_is_stale 200_000_000_000 48) offered_tables.offers)),
          n,
          map
              (λ (o : Offer). o.id)
              (filter (offer_is_stale 200_000_000_000 48) offered_tables.offers),
        )))
    × ((expire_stale_offers memory 48 200_000_000_000 offered_tables).1.offers
        ≡ update_where
            (offer_is_stale 200_000_000_000 48)
            (set_offer expired)
            offered_tables.offers)
expire_stale_offers-offers_example =
    expire_stale_offers-offers memory memory_laws 48 200_000_000_000 offered_tables (tt, tt)
      (omega arith)

update_offer-LotsWait_example :
    LotsWait memory memory_laws (update_offer memory 2000 rejected 11 7 offered_tables).1
update_offer-LotsWait_example =
    update_offer-LotsWait memory memory_laws 2000 11 7 rejected offered_tables refl ((λ e. cc), tt)

abbrev offer_more : OfferCreate
offer_more = record { lot_id = 1; buyer_id = 22; price_per_qtl = 215_000; quantity_qtl = 5000 }

create_offer_lem_example :
    let (r, d') = create_offer memory offer_more 7 12 2000 offered_tables in
    ((e : ℕ) × (r ≡ err e) × (d' ≡ offered_tables))
    ⊎ Offerable memory memory_laws offer_more 7 12 2000 offered_tables
      × (r ≡ ok (with_expiry (new_offer offer_more 7 12 2000)))
      × (d' ≡ with_offer memory memory_laws offer_more 7 12 2000 offered_tables)
create_offer_lem_example = create_offer_lem memory memory_laws offer_more 7 12 2000 offered_tables

accepted_now :
    (update_offer memory 2000 accepted 11 7 offered_tables).0
    ≡ ok (with_expiry (maize_offer accepted))
unfolding update_offer offer_is_stale write_offer follow_lot
accepted_now = refl

update_offer-accepts_example :
    (cur : Offer) × (rest : List Offer) × (filter (own_offer 11 7) offered_tables.offers
      ≡ cur ∷ rest)
    × (cur.status ≡ pending)
    × (offer_is_stale 2000 offer_ttl_hours cur ≡ false)
    × (with_expiry (maize_offer accepted) ≡ with_expiry (set_offer accepted cur))
    × ((update_offer memory 2000 accepted 11 7 offered_tables).1
        ≡ with_status memory memory_laws 2000 11 7 accepted matched cur.lot_id offered_tables)
update_offer-accepts_example =
    update_offer-accepts memory memory_laws 2000 11 7 offered_tables
      (with_expiry (maize_offer accepted)) accepted_now

abbrev rejected_tables : Tables
rejected_tables = tables open_lot rejected []

abbrev book_truck : LogisticsBookCreate
book_truck = record { lot_id = 1; logistics_id = 51; quantity_qtl = some 3000 }

starts_within : WithinCapacity memory memory_laws offered_tables
unfolding sum_booked
starts_within = (omega arith, tt)

create_booking-WithinCapacity_example :
    WithinCapacity memory memory_laws (create_booking memory book_truck 7 42 offered_tables).1
create_booking-WithinCapacity_example =
    create_booking-WithinCapacity memory memory_laws book_truck 7 42 offered_tables (tt, tt)
      starts_within

update_booking-WithinCapacity_example :
    WithinCapacity memory memory_laws (update_booking memory confirmed 41 7 offered_tables).1
update_booking-WithinCapacity_example =
    update_booking-WithinCapacity memory memory_laws confirmed 41 7 offered_tables (tt, tt) (tt, tt)
      starts_within
