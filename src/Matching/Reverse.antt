-- ===== src/Matching/Reverse.antt =====
-- app/services/matching_engine.py: the ranking of lots for a buyer.
use sih.Prelude.{
  Bool, List, Option, [], false, if◌then◌else◌, leb, map, none, not, some, take, true, ℕ, ◌∷◌,
}
use sih.Prelude.Int.{leb_ℤ, pos, ℤ}
use sih.Prelude.Sort.{sort_by}
use sih.Store.{Buyer, Grade, Lot, LotStatus, offered, open_lot}
use sih.Matching.{
  Part, Reason, add_up, grade_part, kept, over_demand, points, price_part, same_district,
  same_value, volume_fit, wants_other,
}

-- `_LOT_PUBLIC`: what a buyer sees of a lot. The owner is not among it.
pub record PublicLot : Type 0 where
  pub id : ℕ
  pub commodity_id : ℕ
  pub market_id : Option ℕ
  pub quantity_qtl : ℕ
  pub grade : Grade
  pub asking_price : Option ℕ
  pub status : LotStatus
  pub fpo_id : Option ℕ

abbrev pub public_lot : Lot → PublicLot
public_lot l = record {
  id = l.id;
  commodity_id = l.commodity_id;
  market_id = l.market_id;
  quantity_qtl = l.quantity_qtl;
  grade = l.grade;
  asking_price = l.asking_price;
  status = l.status;
  fpo_id = l.fpo_id;
}

pub record LotRow : Type 0 where
  pub lot : PublicLot
  pub score : ℤ
  pub reasons : List Reason
  pub market_district : Option ℕ

abbrev pub open_status : LotStatus → Bool
open_status open_lot = true
open_status offered = true
open_status _ = false

unfoldable pub demand_part : Option ℕ → ℕ → Part
demand_part none qty = (pos 0, [])
demand_part (some demand) qty =
    if leb qty demand then (points 15, volume_fit ∷ []) else (pos 0, over_demand ∷ [])

unfoldable pub lot_row : Buyer → Lot → Option ℕ → LotRow
unfolding add_up price_part demand_part grade_part
lot_row buyer lot district =
    let (total, reasons) = add_up (
      (if same_value buyer.district district then (points 25, same_district ∷ []) else (pos 0, []))
      ∷ price_part lot.asking_price buyer.max_price
      ∷ demand_part buyer.demand_qty_qtl lot.quantity_qtl
      ∷ grade_part lot.grade buyer.quality_requirements
      ∷ []) in
    record { lot = public_lot lot; score = total; reasons = reasons; market_district = district }

unfoldable pub score_lot_for_buyer : Buyer → Lot → Option ℕ → Option LotRow
unfolding lot_row
score_lot_for_buyer buyer lot district =
    if not (open_status lot.status)
    then none
    else if wants_other buyer.commodity_id lot.commodity_id
    then none
    else some (lot_row buyer lot district)

abbrev pub lot_ahead : LotRow → LotRow → Bool
lot_ahead a b = leb_ℤ b.score a.score

-- `markets_by_id.get(lot.get("market_id")) or {}`, and the district in it.
abbrev pub market_of : (ℕ → Option ℕ) → Option ℕ → Option ℕ
market_of district none = none
market_of district (some i) = district i

unfoldable pub rank_lots_for_buyer : Buyer → List Lot → (ℕ → Option ℕ) → ℕ → List LotRow
rank_lots_for_buyer buyer lots district limit = take limit (
    sort_by lot_ahead
      (kept (map (λ l. score_lot_for_buyer buyer l (market_of district l.market_id)) lots)))
