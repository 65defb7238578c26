-- ===== src/Matching/Tests.antt =====
-- The rankings on concrete buyers and lots.
use mathlib.Core.List.{Perm}
use sih.Prelude.{
  List, Option, [], arith, false, length, map, none, refl, some, ℕ, ◌++◌, ◌+◌, ◌-◌, ◌∷◌, ◌≡◌, ◌≤◌,
  ◌⊎◌,
}
use sih.Prelude.Int.{pos, ◌+ℤ◌}
use sih.Prelude.Sort.{insert_by, sort_by}
use sih.Store.{Buyer, Profile, farmer, open_lot, sold}
use sih.Market.Samples.{maize_lot, mill}
use sih.Matching.{
  MatchRow, add_up, distance_part, district_part, grade_part, locality_bonus, match_row, price_part,
  rank_buyers, reliability_part, score_buyer, volume_part,
}
use sih.Matching.Ahead.{IsRanked}
use sih.Matching.Privacy.{IsDescending, rank_lots_for_buyer_lem, wanted_lots}
use sih.Matching.Ranking.{rank_buyers_lem, takers}
use sih.Matching.Reverse.{LotRow, lot_row, market_of, rank_lots_for_buyer}

-- Distances on a line, in tenths of a kilometre.
abbrev on_a_line : ℕ × ℕ → ℕ × ℕ → ℕ
on_a_line a b = (a.0 - b.0) + (b.0 - a.0)

abbrev farmer_profile : Profile
farmer_profile = record { id = 7; role = farmer; district = some 2; place = some (100, 0) }

abbrev near_mill : Buyer
near_mill = record mill { place = some (150, 0) }

abbrev far_mill : Buyer
far_mill = record mill {
  id = 22;
  district = some 5;
  max_price = some 200_000;
  place = some (2000, 0);
}

abbrev unverified_mill : Buyer
unverified_mill = record mill { id = 23; verified = false }

near_score :
    map
      (λ (r : MatchRow). r.score)
      (rank_buyers on_a_line
        (maize_lot open_lot)
        (some farmer_profile)
        (far_mill ∷ unverified_mill ∷ near_mill ∷ [])
        10)
    ≡ pos 1082 ∷ pos 0 ∷ []
unfolding rank_buyers sort_by insert_by score_buyer match_row add_up district_part distance_part
    locality_bonus price_part volume_part reliability_part grade_part ◌+ℤ◌
near_score = refl

abbrev ten_km : ℕ × ℕ → ℕ × ℕ → ℕ
ten_km a b = 100

rank_buyers_lem_example :
    let ranked =
      rank_buyers ten_km (maize_lot open_lot) (some farmer_profile) (far_mill ∷ near_mill ∷ []) 1 in
    (left_out : List MatchRow) × Perm (ranked ++ left_out) (
      map
        (match_row ten_km (maize_lot open_lot) (some farmer_profile))
        (takers (maize_lot open_lot) (far_mill ∷ near_mill ∷ [])))
    × IsRanked (ranked ++ left_out)
    × (length ranked ≤ 1)
    × ((length ranked ≡ 1) ⊎ (left_out ≡ []))
rank_buyers_lem_example =
    rank_buyers_lem ten_km (maize_lot open_lot) (some farmer_profile) (far_mill ∷ near_mill ∷ []) 1
      (λ p q. omega arith)

abbrev no_market : ℕ → Option ℕ
no_market i = none

rank_lots_for_buyer_lem_example :
    let ranked = rank_lots_for_buyer mill (maize_lot open_lot ∷ maize_lot sold ∷ []) no_market 20 in
    (left_out : List LotRow) × Perm (ranked ++ left_out) (
      map
        (λ l. lot_row mill l (market_of no_market l.market_id))
        (wanted_lots mill (maize_lot open_lot ∷ maize_lot sold ∷ [])))
    × IsDescending (ranked ++ left_out)
    × ((length ranked ≡ 20) ⊎ (left_out ≡ []))
rank_lots_for_buyer_lem_example =
    rank_lots_for_buyer_lem mill (maize_lot open_lot ∷ maize_lot sold ∷ []) no_market 20
