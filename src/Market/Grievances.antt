-- ===== src/Market/Grievances.antt =====
-- Grievances: app/routers/grievances.py.
pub mod Filing
use sih.Prelude.{Option, none, not, some, ℕ, ◌==◌}
use sih.Store.{
  Action, Category, Client, Grievance, first_or, insert, lift, pure, raise_if, reported, select,
  ◌>>=◌, ◌>>◌,
}
use sih.Market.Lots.{owns_lot}

pub record GrievanceCreate : Type 0 where
  pub category : Category
  pub offer_id : Option ℕ
  pub lot_id : Option ℕ

abbrev pub new_grievance : GrievanceCreate → ℕ → ℕ → Grievance
new_grievance body user_id new_id = record {
  id = new_id;
  user_id = user_id;
  offer_id = body.offer_id;
  lot_id = body.lot_id;
  category = body.category;
  status = reported;
}

module _ {Db : Type 0} (c : Client Db) where
  -- The lot that a grievance names has to be the caller's, or that of the caller's FPO.
  unfoldable pub check_lot : Option ℕ → ℕ → Action Db (Unit {0})
  check_lot none user_id = pure tt
  check_lot (some lot_id) user_id = do
    rows ← select c.lots (λ l. l.id == lot_id)
    lot ← lift (first_or 404 rows)
    raise_if (not (owns_lot user_id lot)) 404

  unfoldable pub check_offer : Option ℕ → ℕ → Action Db (Unit {0})
  check_offer none user_id = pure tt
  check_offer (some offer_id) user_id = do
    rows ← select c.offers (λ o. o.id == offer_id)
    offer ← lift (first_or 404 rows)
    raise_if (not (offer.user_id == user_id)) 404

  -- `create_grievance` from the insert on.
  unfoldable pub store_grievance : Grievance → Action Db Grievance
  store_grievance row = do stored ← insert c.grievances row; lift (first_or 400 stored)

  unfoldable pub create_grievance : GrievanceCreate → ℕ → ℕ → Action Db Grievance
  unfolding check_lot check_offer store_grievance
  create_grievance body user_id new_id = do
    check_lot body.lot_id user_id
    check_offer body.offer_id user_id
    store_grievance (new_grievance body user_id new_id)
