-- ===== src/Matching.antt =====
-- app/services/matching_engine.py: the ranking of buyers for a lot. Scores
-- and distances are in tenths. `haversine_km` is a parameter: its trigonometry is not modelled.
-- Texts that are searched are given as the characters of their lower case.
pub mod Ahead
pub mod Ranking
pub mod Reverse
pub mod Scores
pub mod Privacy
pub mod Tests
use sih.Prelude.{
  Bool, List, Option, [], false, if◌then◌else◌, is_value, leb, ltb, map, none, not, or_else, some,
  take, true, ℕ, ◌&&◌, ◌*◌, ◌++◌, ◌+◌, ◌-◌, ◌/◌, ◌==◌, ◌||◌, ◌∷◌,
}
use sih.Prelude.Int.{leb_ℤ, negsuc, pos, ℤ, ◌+ℤ◌}
use sih.Prelude.Sort.{sort_by}
use sih.Store.{Buyer, Grade, Lot, Profile, Reliability, faq, general, high, low, special}
use sih.Market.Reliability.{mem, score}

pub data Reason : Type 0 where
  same_district nearby_25km within_80km far_buyer verified_buyer price_covers_ask : Reason
  bid_below_ask volume_fit over_demand reliable_payer unreliable_payer grade_match : Reason

-- Points with the reasons for them.
abbrev pub Part : Type 0
Part = ℤ × List Reason

-- `score += …; reasons.append(…)`, part by part.
unfoldable pub add_up : List Part → Part
add_up [] = (pos 0, [])
add_up (p ∷ ps) = let rest = add_up ps in (p.0 +ℤ rest.0, p.1 ++ rest.1)

abbrev pub points : ℕ → ℤ
points n = pos (10 * n)

abbrev pub minus : ℕ → ℤ
minus n = if n == 0 then pos 0 else negsuc (10 * n - 1)

-- The number that stands for the district "Nashik".
abbrev pub nashik : ℕ
nashik = 0

-- `value == other`, for a column that may be null.
abbrev pub same_value : Option ℕ → Option ℕ → Bool
same_value none o = false
same_value (some a) o = is_value o a

-- The distances whose bonus lies half way between two tenths and whose float lies below.
abbrev pub round_down : List ℕ
round_down =
    10 ∷ 30 ∷ 50 ∷ 70 ∷ 130 ∷ 170 ∷ 230 ∷ 250 ∷ 290 ∷ 310 ∷ 330 ∷ 390 ∷ 450 ∷ 510 ∷ 530 ∷ 550 ∷ 630
    ∷ 650 ∷ 670 ∷ 770 ∷ 790 ∷ 810 ∷ 870 ∷ 890 ∷ 910 ∷ 930 ∷ []

-- `round(35.0 * (1.0 - dist / 100.0), 1)` at a distance of up to 100 km.
unfoldable pub locality_bonus : ℕ → ℕ
locality_bonus dist = (35 * (1000 - dist) + 50) / 100 - (if mem dist round_down then 1 else 0)

unfoldable pub district_part : Option ℕ → ℕ → Part
district_part buyer district =
    if is_value buyer district then (points 25, same_district ∷ []) else (pos 0, [])

unfoldable pub distance_part : Option ℕ → Part
unfolding locality_bonus
distance_part none = (pos 0, [])
distance_part (some dist) = (
  if leb dist 1000 then pos (locality_bonus dist) else minus 15,
  if leb dist 250
      then nearby_25km ∷ []
      else if leb dist 800
      then within_80km ∷ []
      else if ltb 1000 dist
      then far_buyer ∷ []
      else [],
)

unfoldable pub price_part : Option ℕ → Option ℕ → Part
price_part none max = (pos 0, [])
price_part (some asking) none = (pos 0, [])
price_part (some asking) (some max) =
    if leb asking max then (points 20, price_covers_ask ∷ []) else (minus 15, bid_below_ask ∷ [])

unfoldable pub volume_part : Option ℕ → ℕ → Part
volume_part none qty = (pos 0, [])
volume_part (some demand) qty = if leb qty demand then (points 15, volume_fit ∷ []) else (pos 0, [])

unfoldable pub reliability_part : Option Reliability → Part
reliability_part (some high) = (points 10, reliable_payer ∷ [])
reliability_part (some low) = (minus 15, unreliable_payer ∷ [])
reliability_part _ = (pos 0, [])

abbrev pub starts_with : List ℕ → List ℕ → Bool
starts_with [] s = true
starts_with (c ∷ cs) [] = false
starts_with (c ∷ cs) (d ∷ ds) = c == d && starts_with cs ds

-- `word in text`
abbrev pub contains : List ℕ → List ℕ → Bool
contains word [] = starts_with word []
contains word (c ∷ cs) = starts_with word (c ∷ cs) || contains word cs

-- `lot["grade"].lower()`
abbrev pub grade_word : Grade → List ℕ
grade_word faq = 102 ∷ 97 ∷ 113 ∷ []
grade_word general = 103 ∷ 101 ∷ 110 ∷ 101 ∷ 114 ∷ 97 ∷ 108 ∷ []
grade_word special = 115 ∷ 112 ∷ 101 ∷ 99 ∷ 105 ∷ 97 ∷ 108 ∷ []

unfoldable pub grade_part : Grade → Option (List ℕ) → Part
grade_part g none = (pos 0, [])
grade_part g (some req) =
    if contains (grade_word g) req then (points 10, grade_match ∷ []) else (pos 0, [])

-- The row of a match: the columns copied from the buyer are those of `buyer`.
pub record MatchRow : Type 0 where
  pub buyer : Buyer
  pub score : ℤ
  pub reasons : List Reason
  pub distance_km : Option ℕ

-- `buyer.get("commodity_id") and buyer["commodity_id"] != …`
abbrev pub wants_other : Option ℕ → ℕ → Bool
wants_other none i = false
wants_other (some k) i = not (k == i)

abbrev pub district_of : Option Profile → ℕ
district_of none = nashik
district_of (some p) = or_else p.district nashik

abbrev pub place_of : Option Profile → Option (ℕ × ℕ)
place_of none = none
place_of (some p) = p.place

module _ (haversine_km : ℕ × ℕ → ℕ × ℕ → ℕ) where
  abbrev pub distance : Option (ℕ × ℕ) → Option (ℕ × ℕ) → Option ℕ
  distance none b = none
  distance (some a) none = none
  distance (some a) (some b) = some (haversine_km a b)

  unfoldable pub match_row : Lot → Option Profile → Buyer → MatchRow
  unfolding add_up district_part distance_part price_part volume_part reliability_part grade_part
  match_row lot profile buyer =
      let dist = distance (place_of profile) buyer.place in
      let (total, reasons) = add_up (
        district_part buyer.district (district_of profile)
        ∷ distance_part dist
        ∷ (points 15, verified_buyer ∷ [])
        ∷ price_part lot.asking_price buyer.max_price
        ∷ volume_part buyer.demand_qty_qtl lot.quantity_qtl
        ∷ reliability_part buyer.payment_reliability
        ∷ grade_part lot.grade buyer.quality_requirements
        ∷ []) in
      record { buyer = buyer; score = total; reasons = reasons; distance_km = dist }

  unfoldable pub score_buyer : Lot → Option Profile → Buyer → Option MatchRow
  unfolding match_row
  score_buyer lot profile buyer =
      if not buyer.verified
      then none
      else if wants_other buyer.commodity_id lot.commodity_id
      then none
      else some (match_row lot profile buyer)

-- `x["distance_km"] or 10**9`: a distance of 0.0 is replaced like a missing one.
abbrev pub distance_key : Option ℕ → ℕ
distance_key none = 10_000_000_000
distance_key (some d) = if d == 0 then 10_000_000_000 else d

-- The order of the sort: by score, downwards, then by distance.
abbrev pub ranks_ahead : MatchRow → MatchRow → Bool
ranks_ahead a b =
    not (leb_ℤ a.score b.score)
    || (leb_ℤ b.score a.score && leb (distance_key a.distance_km) (distance_key b.distance_km))

-- The rows that are not None.
abbrev pub kept {ℓ} : {A : Type ℓ} → List (Option A) → List A
kept [] = []
kept (none ∷ os) = kept os
kept (some a ∷ os) = a ∷ kept os

module _ (haversine_km : ℕ × ℕ → ℕ × ℕ → ℕ) where
  unfoldable pub rank_buyers : Lot → Option Profile → List Buyer → ℕ → List MatchRow
  rank_buyers lot profile buyers limit =
      take limit (sort_by ranks_ahead (kept (map (score_buyer haversine_km lot profile) buyers)))
