-- ===== src/Market/Offers.antt =====
-- Offers: their time to live (app/services/marketplace.py) and the endpoints that create and
-- update them (app/routers/offers.py).
pub mod Expiry
pub mod Waits
pub mod Accept
pub mod Create
use sih.Prelude.{
  Bool, List, Option, [], false, if◌then◌else◌, length, ltb, none, not, some, take, true, ℕ, ◌&&◌,
  ◌*◌, ◌+◌, ◌==◌, ◌∷◌,
}
use sih.Store.{
  Action, Client, Lot, LotStatus, Offer, OfferStatus, accepted, expired, first_or, insert, lift,
  matched, offered, open_lot, pending, pure, raise, raise_if, rejected, select, update, ◌>>=◌, ◌>>◌,
}
use sih.Market.Payments.{is_accepted}

abbrev pub offer_ttl_hours : ℕ
offer_ttl_hours = 48

-- An hour in microseconds.
abbrev pub hour : ℕ
hour = 3_600_000_000

abbrev pub is_pending : OfferStatus → Bool
is_pending pending = true
is_pending _ = false

abbrev pub is_offered : LotStatus → Bool
is_offered offered = true
is_offered _ = false

-- `status in ("open", "offered")`
abbrev pub takes_offers : LotStatus → Bool
takes_offers open_lot = true
takes_offers offered = true
takes_offers _ = false

unfoldable pub offer_expires_at : ℕ → Offer → Option ℕ
offer_expires_at ttl o = elim o.created_at [ none ↦ none | some at ↦ some (at + ttl * hour) ]

-- `now - created > timedelta(hours=ttl_hours)`
abbrev pub older_than : ℕ → ℕ → Option ℕ → Bool
older_than now ttl none = false
older_than now ttl (some at) = ltb (at + ttl * hour) now

unfoldable pub offer_is_stale : ℕ → ℕ → Offer → Bool
offer_is_stale now ttl o =
    if not (is_pending o.status) then false else older_than now ttl o.created_at

unfoldable pub with_expiry : Offer → Offer × Option ℕ
unfolding offer_expires_at
with_expiry o = (o, offer_expires_at offer_ttl_hours o)

abbrev pub set_offer : OfferStatus → Offer → Offer
set_offer s o = record o { status = s }

abbrev pub set_lot : LotStatus → Lot → Lot
set_lot s l = record l { status = s }

abbrev pub lot_is : ℕ → Lot → Bool
lot_is i l = l.id == i

abbrev pub offer_is : ℕ → Offer → Bool
offer_is i o = o.id == i

abbrev pub own_offer : ℕ → ℕ → Offer → Bool
own_offer i u o = o.id == i && o.user_id == u

-- A pending offer for the lot.
abbrev pub pending_for : ℕ → Offer → Bool
pending_for lot o = o.lot_id == lot && is_pending o.status

pub record OfferCreate : Type 0 where
  pub lot_id : ℕ
  pub buyer_id : ℕ
  pub price_per_qtl : ℕ
  pub quantity_qtl : ℕ

abbrev pub new_offer : OfferCreate → ℕ → ℕ → ℕ → Offer
new_offer body user_id new_id now = record {
  id = new_id;
  lot_id = body.lot_id;
  buyer_id = body.buyer_id;
  user_id = user_id;
  price_per_qtl = body.price_per_qtl;
  quantity_qtl = body.quantity_qtl;
  status = pending;
  created_at = some now;
}

module _ {Db : Type 0} (c : Client Db) where
  unfoldable pub reopen_lot_if_idle : ℕ → Action Db Bool
  reopen_lot_if_idle lot_id = do
    waiting ← select c.offers (pending_for lot_id)
    rows ← select c.lots (lot_is lot_id)
    elim waiting [
      | _ ∷ _ ↦ pure false
      | [] ↦ elim rows [
        | [] ↦ pure false
        | l ∷ _ ↦
            if not (is_offered l.status)
            then pure false
            else update c.lots (lot_is lot_id) (set_lot open_lot) >> pure true
      ]
    ]

  -- The loop over the pending offers: the ids that have expired, and the lots reopened.
  unfoldable pub expire_loop : ℕ → ℕ → List Offer → Action Db (List ℕ × ℕ)
  unfolding reopen_lot_if_idle offer_is_stale
  expire_loop now ttl [] = pure ([], 0)
  expire_loop now ttl (o ∷ os) =
      let rest = expire_loop now ttl os in
      if not (offer_is_stale now ttl o) then rest else do
        update c.offers (offer_is o.id) (set_offer expired)
        reopened ← reopen_lot_if_idle o.lot_id
        done ← rest
        pure (o.id ∷ done.0, (if reopened then 1 else 0) + done.1)

  unfoldable pub expire_stale_offers : ℕ → ℕ → Action Db (ℕ × ℕ × List ℕ)
  unfolding expire_loop
  expire_stale_offers ttl now = do
    waiting ← select c.offers (λ o. is_pending o.status)
    done ← expire_loop now ttl (take 500 waiting)
    pure (length done.0, done.1, done.0)

  -- `create_offer` from the insert on.
  unfoldable pub store_offer : OfferCreate → ℕ → ℕ → ℕ → Action Db (Offer × Option ℕ)
  unfolding with_expiry
  store_offer body user_id new_id now = do
    stored ← insert c.offers (new_offer body user_id new_id now)
    row ← lift (first_or 400 stored)
    update c.lots (lot_is body.lot_id) (set_lot offered)
    pure (with_expiry row)

  unfoldable pub create_offer : OfferCreate → ℕ → ℕ → ℕ → Action Db (Offer × Option ℕ)
  create_offer body user_id new_id now = do
    rows ← select c.lots (lot_is body.lot_id)
    lot ← lift (first_or 404 rows)
    raise_if (not (lot.user_id == user_id)) 404
    raise_if (not (takes_offers lot.status)) 409
    raise_if (ltb lot.quantity_qtl body.quantity_qtl) 400
    store_offer body user_id new_id now

  -- What an update does to the lot of the offer.
  unfoldable pub follow_lot : OfferStatus → ℕ → Action Db (Unit {0})
  unfolding reopen_lot_if_idle
  follow_lot accepted lot_id = update c.lots (lot_is lot_id) (set_lot matched) >> pure tt
  follow_lot rejected lot_id = reopen_lot_if_idle lot_id >> pure tt
  follow_lot expired lot_id = reopen_lot_if_idle lot_id >> pure tt
  follow_lot pending lot_id = pure tt

  -- A pending offer past its time is marked expired instead, and the request fails.
  unfoldable pub expire_now : ℕ → Offer → Action Db (Offer × Option ℕ)
  unfolding reopen_lot_if_idle
  expire_now offer_id current = do
    update c.offers (offer_is offer_id) (set_offer expired)
    reopen_lot_if_idle current.lot_id
    raise 409

  -- `update_offer` from the update on.
  unfoldable pub write_offer : OfferStatus → ℕ → ℕ → Action Db (Offer × Option ℕ)
  unfolding follow_lot with_expiry
  write_offer status offer_id user_id = do
    res ← update c.offers (own_offer offer_id user_id) (set_offer status)
    offer ← lift (first_or 404 res)
    follow_lot status offer.lot_id
    pure (with_expiry offer)

  unfoldable pub update_offer : ℕ → OfferStatus → ℕ → ℕ → Action Db (Offer × Option ℕ)
  unfolding write_offer expire_now offer_is_stale
  update_offer now status offer_id user_id = do
    rows ← select c.offers (own_offer offer_id user_id)
    current ← lift (first_or 404 rows)
    if is_pending current.status && offer_is_stale now offer_ttl_hours current
        then expire_now offer_id current
        else do
          raise_if (is_accepted status && not (is_pending current.status)) 409
          write_offer status offer_id user_id
