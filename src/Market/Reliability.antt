-- ===== src/Market/Reliability.antt =====
-- app/services/marketplace.py: the buyers' payment reliability.
pub mod Effects
pub mod Grade
pub mod Counts
use sih.Prelude.{
  Bool, List, Option, [], any, false, filter, if◌then◌else◌, length, map, none, some, true, ℕ, ◌&&◌,
  ◌*◌, ◌+◌, ◌==◌, ◌∷◌,
}
use sih.Prelude.Int.{leb_ℤ, pos, ℤ, ◌+ℤ◌, ◌-ℤ◌}
use sih.Store.{
  Action, Category, Client, GrievanceStatus, PaymentStatus, Reliability, disputed, failed, high,
  in_progress, low, medium, paid, payment_issue, pure, reported, select, update, ◌>>=◌, ◌>>◌,
}

-- `value in values`
abbrev pub mem : ℕ → List ℕ → Bool
mem a l = any (λ b. a == b) l

-- A column that is null or an offer's id is in the list.
abbrev pub about : List ℕ → Option ℕ → Bool
about is none = false
about is (some o) = mem o is

abbrev pub is_paid : PaymentStatus → Bool
is_paid paid = true
is_paid _ = false

abbrev pub is_failed : PaymentStatus → Bool
is_failed failed = true
is_failed _ = false

abbrev pub is_disputed : PaymentStatus → Bool
is_disputed disputed = true
is_disputed _ = false

abbrev pub is_payment : Category → Bool
is_payment payment_issue = true
is_payment _ = false

abbrev pub is_running : GrievanceStatus → Bool
is_running reported = true
is_running in_progress = true
is_running _ = false

-- What the settlement history of a buyer comes to.
pub record History : Type 0 where
  pub paid : ℕ
  pub failed : ℕ
  pub disputed : ℕ
  pub grief : ℕ

unfoldable pub score : History → ℤ
score h =
    pos 50
    +ℤ pos (15 * h.paid)
    -ℤ pos (20 * h.failed)
    -ℤ pos (30 * h.disputed)
    -ℤ pos (15 * h.grief)

unfoldable pub score_payment_reliability : History → Option Reliability
unfolding score
score_payment_reliability h =
    if h.paid + h.failed + h.disputed + h.grief == 0
    then none
    else if leb_ℤ (pos 70) (score h)
    then some high
    else if leb_ℤ (pos 40) (score h)
    then some medium
    else some low

module _ {Db : Type 0} (c : Client Db) where
  -- The counts over a buyer's offers; without offers nothing is queried.
  unfoldable pub history : List ℕ → Action Db History
  history [] = pure (record { paid = 0; failed = 0; disputed = 0; grief = 0 })
  history (i ∷ is) = do
    payments ← select c.payments (λ p. mem p.offer_id (i ∷ is))
    grievances ← select c.grievances (λ g. about (i ∷ is) g.offer_id && is_payment g.category)
    pure (record {
      paid = length (filter (λ p. is_paid p.status) payments);
      failed = length (filter (λ p. is_failed p.status) payments);
      disputed = length (filter (λ p. is_disputed p.status) payments);
      grief = length (filter (λ g. is_running g.status) grievances);
    })

  -- A grade is written to the buyer's row; without evidence the seeded value stays.
  unfoldable pub store_grade : ℕ → Option Reliability → Action Db (Option Reliability)
  store_grade buyer_id none = pure none
  store_grade buyer_id (some grade) = do
    update c.buyers (λ b. b.id == buyer_id) (λ b. record b { payment_reliability = some grade })
    pure (some grade)

  unfoldable pub recompute_buyer_reliability : ℕ → Action Db (Option Reliability)
  unfolding history store_grade score_payment_reliability
  recompute_buyer_reliability buyer_id = do
    offers ← select c.offers (λ o. o.buyer_id == buyer_id)
    h ← history (map (λ o. o.id) offers)
    store_grade buyer_id (score_payment_reliability h)
