-- ===== src/Market/Admin.antt =====
-- The admin's handlers on the marketplace: app/routers/admin.py.
pub mod Rescore
pub mod Closing
use sih.Prelude.{Bool, List, Option, [], if◌then◌else◌, none, some, take, true, ℕ, ◌==◌, ◌∷◌}
use sih.Store.{
  Action, Buyer, Client, Grievance, GrievanceStatus, Reliability, first_or, insert, lift, pure,
  select, update, ◌>>=◌, ◌>>◌,
}
use sih.Market.Offers.{expire_stale_offers, offer_ttl_hours}
use sih.Market.Payments.{rescore_offer_buyer}
use sih.Market.Reliability.{is_payment, recompute_buyer_reliability}

pub record BuyerCreate : Type 0 where
  pub district : Option ℕ
  pub commodity_id : Option ℕ
  pub demand_qty_qtl : Option ℕ
  pub max_price : Option ℕ
  pub quality_requirements : Option (List ℕ)
  pub payment_reliability : Option Reliability
  pub place : Option (ℕ × ℕ)
  pub verified : Bool

abbrev pub new_buyer : BuyerCreate → ℕ → Buyer
new_buyer body new_id = record {
  id = new_id;
  verified = body.verified;
  district = body.district;
  commodity_id = body.commodity_id;
  demand_qty_qtl = body.demand_qty_qtl;
  max_price = body.max_price;
  quality_requirements = body.quality_requirements;
  payment_reliability = body.payment_reliability;
  place = body.place;
}

abbrev pub set_grievance : GrievanceStatus → Grievance → Grievance
set_grievance s g = record g { status = s }

-- `updated[b["id"]] = grade`, when there is a grade.
abbrev pub note_grade : ℕ → Option Reliability → List (ℕ × Reliability) → List (ℕ × Reliability)
note_grade i none rest = rest
note_grade i (some g) rest = (i, g) ∷ rest

module _ {Db : Type 0} (c : Client Db) where
  unfoldable pub admin_create_buyer : BuyerCreate → ℕ → Action Db Buyer
  admin_create_buyer body new_id = do
    stored ← insert c.buyers (new_buyer body new_id)
    lift (first_or 400 stored)

  unfoldable pub admin_verify_buyer : ℕ → Action Db Buyer
  admin_verify_buyer buyer_id = do
    res ← update c.buyers (λ b. b.id == buyer_id) (λ b. record b { verified = true })
    lift (first_or 404 res)

  -- What closing or reopening a grievance does to the buyer's grade.
  unfoldable pub rescore_for : Grievance → Action Db (Unit {0})
  rescore_for g =
      if is_payment g.category
      then elim g.offer_id [ none ↦ pure tt | some o ↦ rescore_offer_buyer c o ]
      else pure tt

  unfoldable pub admin_update_grievance : GrievanceStatus → ℕ → Action Db Grievance
  unfolding rescore_for
  admin_update_grievance status grievance_id = do
    res ← update c.grievances (λ g. g.id == grievance_id) (set_grievance status)
    row ← lift (first_or 404 res)
    rescore_for row
    pure row

  unfoldable pub rescore_loop : List Buyer → Action Db (List (ℕ × Reliability))
  rescore_loop [] = pure []
  rescore_loop (b ∷ bs) = do
    grade ← recompute_buyer_reliability c b.id
    rest ← rescore_loop bs
    pure (note_grade b.id grade rest)

  unfoldable pub admin_rescore_buyers : Action Db (List (ℕ × Reliability))
  unfolding rescore_loop
  admin_rescore_buyers = do buyers ← select c.buyers (λ b. true); rescore_loop (take 500 buyers)

  unfoldable pub admin_expire_offers : ℕ → Action Db (ℕ × ℕ × List ℕ)
  admin_expire_offers now = expire_stale_offers c offer_ttl_hours now
