-- ===== src/Market/LotTests.antt =====
-- Lots, grievances and the admin's handlers on concrete tables.
use sih.Prelude.{List, [], arith, filter, map, none, refl, some, ◌==◌, ◌∷◌, ◌≡◌, ◌⊎◌}
use sih.Store.{
  Grievance, Lot, accepted, err, fpo, ok, open_lot, paid, payment_issue, rejected, resolved, sold,
}
use sih.Store.Laws.{Tables}
use sih.Store.Memory.{memory, memory_laws}
use sih.Market.Admin.{admin_rescore_buyers, admin_update_grievance, set_grievance}
use sih.Market.Admin.Closing.{
  admin_update_grievance_lem, buyers_after, offer_at_stake, with_grievance_status,
}
use sih.Market.Admin.Rescore.{admin_rescore_buyers_lem, grade_of, notes, with_grade}
use sih.Market.Grievances.{GrievanceCreate, new_grievance}
use sih.Market.Lots.{
  LotAggregate, aggregate_lots, by_id, collect_members, join_members, pool_members, pooled,
  require_fpo, store_pool,
}
use sih.Market.Lots.Pool.{Pools, aggregate_lots_lem}
use sih.Market.Reliability.{History, recompute_buyer_reliability, score_payment_reliability}
use sih.Market.Reliability.Counts.{counts, graded, offers_of, recompute_buyer_reliability_lem}
use sih.Market.Samples.{maize_lot, maize_payment, tables}

-- A second lot of the commodity, and an FPO.
abbrev pool_tables : Tables
pool_tables = record (tables open_lot rejected []) {
  lots = maize_lot open_lot ∷ record (maize_lot open_lot) { id = 2; user_id = 8 } ∷ [];
  profiles = record { id = 9; role = fpo; district = none; place = none } ∷ [];
}

abbrev pool_both : LotAggregate
pool_both = record { lot_ids = 1 ∷ 2 ∷ []; asking_price = none; market_id = none }

aggregate_lots_lem_example :
    Pools memory memory_laws pool_both 9 3 pool_tables
      (aggregate_lots memory pool_both 9 3 pool_tables)
aggregate_lots_lem_example = aggregate_lots_lem memory memory_laws pool_both 9 3 pool_tables

abbrev both_pooled : Lot
both_pooled =
    pooled pool_both (maize_lot open_lot) (record (maize_lot open_lot) { id = 2; user_id = 8 } ∷ [])
      9 3

pooled_now : (aggregate_lots memory pool_both 9 3 pool_tables).0 ≡ ok both_pooled
unfolding aggregate_lots require_fpo collect_members by_id pool_members store_pool join_members
pooled_now = refl

-- An id that is given twice is counted twice.
pooled_twice :
    (aggregate_lots memory (record pool_both { lot_ids = 1 ∷ 1 ∷ [] }) 9 3 pool_tables).0
    ≡ ok (pooled pool_both (maize_lot open_lot) (maize_lot open_lot ∷ []) 9 3)
unfolding aggregate_lots require_fpo collect_members by_id pool_members store_pool join_members
pooled_twice = refl

abbrev sold_tables : Tables
sold_tables = tables sold accepted (maize_payment paid ∷ [])

abbrev late_payment : GrievanceCreate
late_payment = record { category = payment_issue; offer_id = some 11; lot_id = some 1 }

abbrev grieved_tables : Tables
grieved_tables = record sold_tables { grievances = new_grievance late_payment 7 61 ∷ [] }

admin_update_grievance_lem_example :
    let (r, d') = admin_update_grievance memory resolved 61 grieved_tables in
    let t = with_grievance_status memory memory_laws resolved 61 grieved_tables in
    ((filter (λ x. x.id == 61) grieved_tables.grievances ≡ [])
      × (r ≡ err 404)
      × (d' ≡ grieved_tables))
    ⊎ (g : Grievance) × (rest : List Grievance) × (filter
          (λ x. x.id == 61)
          grieved_tables.grievances
        ≡ g ∷ rest)
      × (r ≡ ok (set_grievance resolved g))
      × (d' ≡ record t {
        buyers = buyers_after memory memory_laws (offer_at_stake memory memory_laws g) t;
      })
admin_update_grievance_lem_example =
    admin_update_grievance_lem memory memory_laws resolved 61 grieved_tables

admin_rescore_buyers_lem_example :
    let grade = grade_of grieved_tables in
    let (r, d') = admin_rescore_buyers memory grieved_tables in
    (r ≡ ok (notes grade grieved_tables.buyers))
    × (d' ≡ record grieved_tables {
      buyers = map (λ b. with_grade (grade b.id) b) grieved_tables.buyers;
    })
admin_rescore_buyers_lem_example =
    admin_rescore_buyers_lem memory memory_laws grieved_tables (omega arith)

recompute_buyer_reliability_lem_example :
    let grade = score_payment_reliability (counts (offers_of 21 grieved_tables) grieved_tables) in
    let (r, d') = recompute_buyer_reliability memory 21 grieved_tables in
    (r ≡ ok grade) × (d' ≡ record grieved_tables { buyers = graded 21 grade grieved_tables.buyers })
recompute_buyer_reliability_lem_example =
    recompute_buyer_reliability_lem memory memory_laws 21 grieved_tables

abbrev one_paid : History
one_paid = record { paid = 1; failed = 0; disputed = 0; grief = 0 }

abbrev paid_late : History
paid_late = record { paid = 1; failed = 1; disputed = 0; grief = 1 }
