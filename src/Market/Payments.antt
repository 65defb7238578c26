-- ===== src/Market/Payments.antt =====
-- app/routers/payments.py: payments for accepted offers. `get_supabase_as_user` and
pub mod Atomic
pub mod Retry
pub mod OneOpen
pub mod Machine
pub mod Effects
-- `get_supabase_service_role` return the same service-role client, here `c`.
use sih.Prelude.{
  Bool, List, Option, [], false, if◌then◌else◌, is_value, none, not, some, true, ℕ, ◌&&◌, ◌==◌, ◌∷◌,
}
use sih.Store.{
  Action, Client, Offer, OfferStatus, Payment, PaymentStatus, Result, accepted, disputed, err,
  failed, first_or, insert, lift, ok, paid, pure, raise, raise_if, select, sold, unpaid, update,
  ◌>>=◌, ◌>>◌,
}
use sih.Market.Reliability.{is_paid, recompute_buyer_reliability}

pub record PaymentCreate : Type 0 where
  pub offer_id : ℕ
  pub amount : ℕ
  pub reference : Option ℕ

abbrev pub is_accepted : OfferStatus → Bool
is_accepted accepted = true
is_accepted _ = false

-- `status in ("failed", "disputed")`
abbrev pub is_closed : PaymentStatus → Bool
is_closed failed = true
is_closed disputed = true
is_closed _ = false

-- `status in ("pending", "paid")`
abbrev pub is_open : PaymentStatus → Bool
is_open unpaid = true
is_open paid = true
is_open _ = false

-- `body.reference and row.get("reference") == body.reference`
abbrev pub same_reference : Option ℕ → Option ℕ → Bool
same_reference none r = false
same_reference (some a) r = is_value r a

-- The loop over the payments that the offer has: none means that it runs to its end.
unfoldable pub existing_payment : Option ℕ → List Payment → Option (Result Payment)
existing_payment ref [] = none
existing_payment ref (row ∷ rows) =
    let rest = existing_payment ref rows in
    if not (is_open row.status)
    then rest
    else if same_reference ref row.reference
    then some (ok row)
    else if is_paid row.status
    then some (err 409)
    else some (ok row)

abbrev pub own : ℕ → ℕ → Payment → Bool
own payment_id user_id p = p.id == payment_id && p.user_id == user_id

abbrev pub set_paid : ℕ → Payment → Payment
set_paid now p = record p { status = paid; paid_at = some now }

-- The rollback of `mark_paid` writes back what it read.
abbrev pub restore : Payment → Payment → Payment
restore current p = record p { status = current.status; paid_at = current.paid_at }

abbrev pub set_status : PaymentStatus → Payment → Payment
set_status s p = record p { status = s }

module _ {Db : Type 0} (c : Client Db) where
  unfoldable pub own_payment : ℕ → ℕ → Action Db Payment
  own_payment payment_id user_id = do
    rows ← select c.payments (own payment_id user_id)
    lift (first_or 404 rows)

  unfoldable pub rescore_offer_buyer : ℕ → Action Db (Unit {0})
  rescore_offer_buyer offer_id = do
    offers ← select c.offers (λ o. o.id == offer_id)
    elim offers [ [] ↦ pure tt | o ∷ _ ↦ recompute_buyer_reliability c o.buyer_id >> pure tt ]

  -- The end of `create_payment`: what the loop returned or raised, or a new pending row.
  unfoldable pub finish_payment :
      PaymentCreate → ℕ → ℕ → Option (Result Payment) → Action Db Payment
  finish_payment body user_id new_id (some r) = lift r
  finish_payment body user_id new_id none = do
    stored ← insert c.payments (record {
      id = new_id;
      offer_id = body.offer_id;
      user_id = user_id;
      amount = body.amount;
      status = unpaid;
      reference = body.reference;
      paid_at = none;
    })
    lift (first_or 400 stored)

  unfoldable pub create_payment : PaymentCreate → ℕ → ℕ → Action Db Payment
  unfolding finish_payment existing_payment
  create_payment body user_id new_id = do
    offers ← select c.offers (λ o. o.id == body.offer_id)
    offer ← lift (first_or 404 offers)
    raise_if (not (offer.user_id == user_id)) 404
    raise_if (not (is_accepted offer.status)) 409
    existing ← select c.payments (λ p. p.offer_id == body.offer_id && p.user_id == user_id)
    finish_payment body user_id new_id (existing_payment body.reference existing)

  -- Closing the lot of a paid payment: when no lot row is written, the payment is restored.
  unfoldable pub close_lot : Payment → ℕ → ℕ → List Offer → Action Db (Unit {0})
  close_lot current payment_id user_id [] = pure tt
  close_lot current payment_id user_id (o ∷ _) = do
    written ← update c.lots (λ l. l.id == o.lot_id) (λ l. record l { status = sold })
    elim written [
      | [] ↦ update c.payments (own payment_id user_id) (restore current) >> raise 503
      | _ ∷ _ ↦ pure tt
    ]

  -- `mark_paid` from the update on.
  unfoldable pub settle : ℕ → ℕ → ℕ → Payment → Action Db Payment
  settle now payment_id user_id current = do
    res ← update c.payments (own payment_id user_id) (set_paid now)
    payment ← lift (first_or 404 res)
    offers ← select c.offers (λ o. o.id == payment.offer_id)
    close_lot current payment_id user_id offers
    rescore_offer_buyer payment.offer_id
    pure payment

  unfoldable pub mark_paid : ℕ → ℕ → ℕ → Action Db Payment
  unfolding own_payment
  mark_paid now payment_id user_id = do
    current ← own_payment payment_id user_id
    raise_if (is_closed current.status) 409
    settle now payment_id user_id current

  -- `mark_failed` and `mark_disputed` from the update on.
  unfoldable pub write_status : PaymentStatus → ℕ → ℕ → Action Db Payment
  unfolding rescore_offer_buyer
  write_status s payment_id user_id = do
    res ← update c.payments (own payment_id user_id) (set_status s)
    payment ← lift (first_or 404 res)
    rescore_offer_buyer payment.offer_id
    pure payment

  unfoldable pub mark_failed : ℕ → ℕ → Action Db Payment
  unfolding own_payment write_status
  mark_failed payment_id user_id = do
    current ← own_payment payment_id user_id
    raise_if (is_paid current.status) 409
    write_status failed payment_id user_id

  unfoldable pub mark_disputed : ℕ → ℕ → Action Db Payment
  unfolding own_payment write_status
  mark_disputed payment_id user_id = do
    own_payment payment_id user_id
    write_status disputed payment_id user_id
