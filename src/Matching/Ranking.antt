-- ===== src/Matching/Ranking.antt =====
-- What the ranking of buyers promises.
use mathlib.Core.Path.{subst}
use mathlib.Core.List.{Perm}
use sih.Prelude.{
  All, All-take, Bool, Bool-cases, Elem, List, Option, [], ap, arith, false, filter, here,
  if◌then◌else◌, inl, inr, length, length-take, map, none, not, refl, some, suc, sym, take, there,
  true, zero, ℕ, ◌&&◌, ◌++◌, ◌<◌, ◌==◌, ◌∙◌, ◌∷◌, ◌≡◌, ◌≤◌, ◌⊎◌,
}
use sih.Prelude.Sort.{drop, sort_by, sort_by-All, sort_by-IsSorted, sort_by-perm, take-append-drop}
use sih.Store.{Buyer, Lot, Profile}
use sih.Matching.{
  MatchRow, distance, kept, match_row, place_of, rank_buyers, ranks_ahead, score_buyer, wants_other,
}
use sih.Matching.Ahead.{
  IsOnEarth, IsRanked, IsSorted-IsRanked, ranks_ahead_total, ranks_ahead_trans,
}

-- The first of a sorted list: as many as asked for, or all.
pub take_full : {A : Type 0} (n : ℕ) (l : List A) → (length (take n l) ≡ n) ⊎ (drop n l ≡ [])
take_full zero l = inl refl
take_full (suc n) [] = inr refl
take_full (suc n) (x ∷ xs) = elim (take_full n xs) [
  | inl full ↦ inl (ap suc full)
  | inr empty ↦ inr empty
]

-- A buyer without a crop takes every crop.
abbrev pub takes : Option ℕ → ℕ → Bool
takes none crop = true
takes (some k) crop = k == crop

pub wants_other-takes : (o : Option ℕ) (i : ℕ) → wants_other o i ≡ not (takes o i)
wants_other-takes none i = refl
wants_other-takes (some k) i = refl

-- Two guards that answer with none.
pub two_guards_lem :
    {A : Type 0} (a other fits : Bool) (x : A)
    → other ≡ not fits
    → (if not a then none else if other then none else some x)
      ≡ (if a && fits then some x else none)
two_guards_lem false other fits x h = refl
two_guards_lem true other true x h = rw h refl
two_guards_lem true other false x h = rw h refl

-- What a function keeps that answers for the elements that pass a test.
pub kept-map :
    {A B : Type 0} (f : A → Option B) (p : A → Bool) (g : A → B)
    → ((a : A) → f a ≡ (if p a then some (g a) else none))
    → (l : List A) → kept (map f l) ≡ map g (filter p l)
kept-map f p g h [] = refl
kept-map f p g h (a ∷ l) =
    let rest = kept-map f p g h l in
    elim (Bool-cases (p a)) [
      | inl t ↦ let e : f a ≡ some (g a) = h a ∙ rw t refl in rw (e, t) (ap (λ m. g a ∷ m) rest)
      | inr n ↦ let e : f a ≡ none = h a ∙ rw n refl in rw (e, n) rest
    ]

-- The verified buyers who take the crop of the lot.
abbrev pub takers : Lot → List Buyer → List Buyer
takers lot buyers =
    filter (λ (b : Buyer). b.verified && takes b.commodity_id lot.commodity_id) buyers

module _ (haversine_km : ℕ × ℕ → ℕ × ℕ → ℕ) (lot : Lot) (profile : Option Profile) where
  -- The match rows of all candidates among the buyers.
  abbrev pub candidates : List Buyer → List MatchRow
  candidates buyers = kept (map (score_buyer haversine_km lot profile) buyers)

  candidates_lem :
      (buyers : List Buyer)
      → candidates buyers ≡ map (match_row haversine_km lot profile) (takers lot buyers)
  unfolding score_buyer
  candidates_lem buyers =
      kept-map (score_buyer haversine_km lot profile)
        (λ (b : Buyer). b.verified && takes b.commodity_id lot.commodity_id)
        (match_row haversine_km lot profile) scored buyers
    where
      scored :
          (b : Buyer)
          → score_buyer haversine_km lot profile b ≡ (
              if b.verified && takes b.commodity_id lot.commodity_id
              then some (match_row haversine_km lot profile b)
              else none)
      scored b =
          two_guards_lem b.verified (wants_other b.commodity_id lot.commodity_id)
            (takes b.commodity_id lot.commodity_id) (match_row haversine_km lot profile b)
            (wants_other-takes b.commodity_id lot.commodity_id)

  -- Distances on the earth.
  abbrev pub IsDistance : Type 0
  IsDistance = (p q : ℕ × ℕ) → haversine_km p q < 10_000_000_000

  match_row-IsOnEarth :
      (b : Buyer) → IsDistance → IsOnEarth (match_row haversine_km lot profile b).distance_km
  unfolding match_row
  match_row-IsOnEarth b near = distances (place_of profile) b.place
    where
      distances : (p q : Option (ℕ × ℕ)) → IsOnEarth (distance haversine_km p q)
      distances none q = tt
      distances (some p) none = tt
      distances (some p) (some q) = near p q

  rows-IsOnEarth :
      (buyers : List Buyer)
      → IsDistance
      → All (λ r. IsOnEarth r.distance_km) (map (match_row haversine_km lot profile) buyers)
  rows-IsOnEarth [] near = tt
  rows-IsOnEarth (b ∷ bs) near = (match_row-IsOnEarth b near, rows-IsOnEarth bs near)

  -- The ranking is the head of the match rows of the verified buyers who take the crop, each with one
  -- row: with the rows left out it is a permutation of them, the scores go down, of equal scores
  -- the nearer comes first, where no distance and the distance 0 both come last, and it has as many
  -- rows as asked for unless nothing is left out. Distances are below a million kilometres.
  pub rank_buyers_lem :
      (buyers : List Buyer) (limit : ℕ)
      → IsDistance
      → let ranked = rank_buyers haversine_km lot profile buyers limit in
        (left_out : List MatchRow) × Perm
          (ranked ++ left_out)
          (map (match_row haversine_km lot profile) (takers lot buyers))
        × IsRanked (ranked ++ left_out)
        × (length ranked ≤ limit)
        × ((length ranked ≡ limit) ⊎ (left_out ≡ []))
  unfolding rank_buyers
  rank_buyers_lem buyers limit near =
      let all_rows = sort_by ranks_ahead (candidates buyers) in
      let whole = take-append-drop limit all_rows in
      let known = candidates_lem buyers in
      let placed : All (λ r. IsOnEarth r.distance_km) (candidates buyers) =
        subst (λ l. All (λ r. IsOnEarth r.distance_km) l) (sym known)
          (rows-IsOnEarth (takers lot buyers) near) in
      (
        drop limit all_rows,
        rw whole (subst (Perm all_rows) known (sort_by-perm ranks_ahead (candidates buyers))),
        rw whole (
            IsSorted-IsRanked all_rows
              (sort_by-All ranks_ahead (λ r. IsOnEarth r.distance_km) (candidates buyers) placed)
              (sort_by-IsSorted ranks_ahead ranks_ahead_total ranks_ahead_trans
                (candidates buyers))),
        length-take limit all_rows,
        take_full limit all_rows,
      )

  match_row-buyer :
      (b : Buyer)
      → match_row haversine_km lot profile b
        ≡ match_row haversine_km lot profile (match_row haversine_km lot profile b).buyer
  unfolding match_row
  match_row-buyer b = refl

  -- A candidate: a verified buyer who takes the commodity.
  abbrev pub IsCandidate : List Buyer → MatchRow → Type 0
  IsCandidate buyers r =
      Elem r.buyer buyers
      × (r.buyer.verified ≡ true)
      × (wants_other r.buyer.commodity_id lot.commodity_id ≡ false)
      × (r ≡ match_row haversine_km lot profile r.buyer)

  score_buyer_cases :
      (b : Buyer)
      → (score_buyer haversine_km lot profile b ≡ none)
        ⊎ (b.verified ≡ true)
          × (wants_other b.commodity_id lot.commodity_id ≡ false)
          × (score_buyer haversine_km lot profile b ≡ some (match_row haversine_km lot profile b))
  unfolding score_buyer
  score_buyer_cases b = elim (Bool-cases b.verified) [
    | inr f ↦ inl (ground (arith, f))
    | inl t ↦ elim (Bool-cases (wants_other b.commodity_id lot.commodity_id)) [
      | inl other ↦ inl (ground (arith, t, other))
      | inr fits ↦ inr (t, fits, ground (arith, t, fits))
    ]
  ]

  candidates-All :
      (all_buyers buyers : List Buyer)
      → ((b : Buyer) → Elem b buyers → Elem b all_buyers)
      → All (IsCandidate all_buyers) (candidates buyers)
  unfolding match_row
  candidates-All all_buyers [] k = tt
  candidates-All all_buyers (b ∷ bs) k =
      let rest = candidates-All all_buyers bs (λ x e. k x (there e)) in
      elim (score_buyer_cases b) [
        | inl passed_over ↦ rw passed_over rest
        | inr (t, fits, row) ↦ rw row ((k b (here refl), t, fits, match_row-buyer b), rest)
      ]

  -- Every ranked row is the score of a verified buyer of the list who takes the commodity.
  pub rank_buyers-All :
      (buyers : List Buyer) (limit : ℕ)
      → All (IsCandidate buyers) (rank_buyers haversine_km lot profile buyers limit)
  unfolding rank_buyers
  rank_buyers-All buyers limit =
      All-take (IsCandidate buyers) limit (sort_by ranks_ahead (candidates buyers)) (
        sort_by-All ranks_ahead (IsCandidate buyers) (candidates buyers)
          (candidates-All buyers buyers (λ x e. e)))
