-- ===== src/Matching/Scores.antt =====
-- The range of the scores.
use sih.Prelude.{List, Option, [], arith, none, refl, some, ℕ, ◌+◌, ◌∷◌, ◌≡◌, ◌≤◌}
use sih.Prelude.Int.{+ℤ_parts, neg_part, negsuc, pos, pos_part, ℤ, ◌≤ℤ◌}
use sih.Store.{Buyer, Grade, Lot, Profile, Reliability, high, low, medium}
use sih.Matching.{
  Part, add_up, distance, distance_part, district_of, district_part, grade_part, locality_bonus,
  match_row, place_of, points, price_part, reliability_part, verified_buyer, volume_part,
}

-- lo below and hi above, both given as sizes.
abbrev Between : ℕ → ℕ → ℤ → Type 0
Between lo hi z = (neg_part z ≤ lo) × (pos_part z ≤ hi)

-- The bonus is at most that at distance 0, and never more further away.
pub locality_bonus-le : (d : ℕ) → locality_bonus d ≤ 350
unfolding locality_bonus
locality_bonus-le d = ground arith

district-Between : (b : Option ℕ) (d : ℕ) → Between 0 250 (district_part b d).0
unfolding district_part
district-Between b d = (ground arith, ground arith)

distance-Between : (d : Option ℕ) → Between 150 350 (distance_part d).0
unfolding distance_part
distance-Between none = (omega arith, omega arith)
distance-Between (some d) =
    (ground (arith, locality_bonus-le d), ground (arith, locality_bonus-le d))

price-Between : (a m : Option ℕ) → Between 150 200 (price_part a m).0
unfolding price_part
price-Between none m = (omega arith, omega arith)
price-Between (some a) none = (omega arith, omega arith)
price-Between (some a) (some m) = (ground arith, ground arith)

volume-Between : (d : Option ℕ) (q : ℕ) → Between 0 150 (volume_part d q).0
unfolding volume_part
volume-Between none q = (omega arith, omega arith)
volume-Between (some d) q = (ground arith, ground arith)

reliability-Between : (r : Option Reliability) → Between 150 100 (reliability_part r).0
unfolding reliability_part
reliability-Between none = (omega arith, omega arith)
reliability-Between (some high) = (omega arith, omega arith)
reliability-Between (some medium) = (omega arith, omega arith)
reliability-Between (some low) = (omega arith, omega arith)

grade-Between : (g : Grade) (q : Option (List ℕ)) → Between 0 100 (grade_part g q).0
unfolding grade_part
grade-Between g none = (omega arith, omega arith)
grade-Between g (some r) = (ground arith, ground arith)

-- Seven parts add up as their differences do.
add_up_parts :
    (p : Part) (ps : List Part)
    → pos_part (add_up (p ∷ ps)).0 + neg_part p.0 + neg_part (add_up ps).0
      ≡ neg_part (add_up (p ∷ ps)).0 + pos_part p.0 + pos_part (add_up ps).0
unfolding add_up
add_up_parts p ps = +ℤ_parts p.0 (add_up ps).0

add_up_nil : (pos_part (add_up []).0 ≡ 0) × (neg_part (add_up []).0 ≡ 0)
unfolding add_up
add_up_nil = (refl, refl)

sum_of_seven :
    (a b p q r u : Part)
    → Between 0 250 a.0
    → Between 150 350 b.0
    → Between 150 200 p.0
    → Between 0 150 q.0
    → Between 150 100 r.0
    → Between 0 100 u.0
    → let total = (add_up (a ∷ b ∷ (points 15, verified_buyer ∷ []) ∷ p ∷ q ∷ r ∷ u ∷ [])).0 in
      (negsuc 299 ≤ℤ total) × (total ≤ℤ pos 1300)
sum_of_seven a b p q r u ha hb hp hq hr hu =
    let v : Part = (points 15, verified_buyer ∷ []) in
    let s7 = add_up_parts u [] in
    let s6 = add_up_parts r (u ∷ []) in
    let s5 = add_up_parts q (r ∷ u ∷ []) in
    let s4 = add_up_parts p (q ∷ r ∷ u ∷ []) in
    let s3 = add_up_parts v (p ∷ q ∷ r ∷ u ∷ []) in
    let s2 = add_up_parts b (v ∷ p ∷ q ∷ r ∷ u ∷ []) in
    let s1 = add_up_parts a (b ∷ v ∷ p ∷ q ∷ r ∷ u ∷ []) in
    (
      omega (arith, s1, s2, s3, s4, s5, s6, s7, add_up_nil, ha, hb, hp, hq, hr, hu),
      omega (arith, s1, s2, s3, s4, s5, s6, s7, add_up_nil, ha, hb, hp, hq, hr, hu),
    )

-- The score of a candidate lies between -30.0 and 130.0, whatever the distances.
pub match_row-bounds :
    (haversine_km : ℕ × ℕ → ℕ × ℕ → ℕ) (lot : Lot) (profile : Option Profile) (buyer : Buyer)
    → let row = match_row haversine_km lot profile buyer in
      (negsuc 299 ≤ℤ row.score) × (row.score ≤ℤ pos 1300)
unfolding match_row
match_row-bounds haversine_km lot profile buyer =
    sum_of_seven (district_part buyer.district (district_of profile))
      (distance_part (distance haversine_km (place_of profile) buyer.place))
      (price_part lot.asking_price buyer.max_price)
      (volume_part buyer.demand_qty_qtl lot.quantity_qtl)
      (reliability_part buyer.payment_reliability) (grade_part lot.grade buyer.quality_requirements)
      (district-Between buyer.district (district_of profile))
      (distance-Between (distance haversine_km (place_of profile) buyer.place))
      (price-Between lot.asking_price buyer.max_price)
      (volume-Between buyer.demand_qty_qtl lot.quantity_qtl)
      (reliability-Between buyer.payment_reliability)
      (grade-Between lot.grade buyer.quality_requirements)
