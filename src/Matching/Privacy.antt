-- ===== src/Matching/Privacy.antt =====
-- What the ranking of lots promises.
use mathlib.Core.Path.{subst}
use mathlib.Core.List.{Perm}
use sih.Prelude.{
  All, All-map, Bool, List, Option, [], ap, arith, false, filter, if◌then◌else◌, length, map, none,
  refl, some, take, true, ℕ, ◌&&◌, ◌++◌, ◌∷◌, ◌≡◌, ◌⊎◌,
}
use sih.Prelude.Int.{◌≤ℤ◌}
use sih.Prelude.Sort.{IsSorted, drop, sort_by, sort_by-IsSorted, sort_by-perm, take-append-drop}
use sih.Store.{Buyer, Lot, LotStatus, offered, open_lot}
use sih.Matching.{kept, wants_other}
use sih.Matching.Ranking.{kept-map, two_guards_lem, take_full, takes, wants_other-takes}
use sih.Matching.Reverse.{
  LotRow, lot_ahead, lot_row, market_of, rank_lots_for_buyer, score_lot_for_buyer,
}

lot_ahead_total : (a b : LotRow) → lot_ahead a b ≡ false → lot_ahead b a ≡ true
lot_ahead_total a b h = ground arith

lot_ahead_trans :
    (a b c : LotRow) → lot_ahead a b ≡ true → lot_ahead b c ≡ true → lot_ahead a c ≡ true
lot_ahead_trans a b c h k = ground arith

-- The lot with another owner.
abbrev pub owned_by : ℕ → Lot → Lot
owned_by u l = record l { user_id = u }

score_lot-owned_by :
    (buyer : Buyer) (l : Lot) (district : Option ℕ) (u : ℕ)
    → score_lot_for_buyer buyer (owned_by u l) district ≡ score_lot_for_buyer buyer l district
unfolding score_lot_for_buyer lot_row
score_lot-owned_by buyer l district u = refl

-- The match rows of all open lots.
abbrev pub open_lots : Buyer → List Lot → (ℕ → Option ℕ) → List LotRow
open_lots buyer lots district =
    kept (map (λ l. score_lot_for_buyer buyer l (market_of district l.market_id)) lots)

map-owned_by :
    (buyer : Buyer) (district : ℕ → Option ℕ) (u : ℕ) (lots : List Lot)
    → let f = λ (l : Lot). score_lot_for_buyer buyer l (market_of district l.market_id) in
      map f (map (owned_by u) lots) ≡ map f lots
map-owned_by buyer district u [] = refl
map-owned_by buyer district u (l ∷ ls) =
    let same = score_lot-owned_by buyer l (market_of district l.market_id) u in
    cc (same, map-owned_by buyer district u ls)

-- What a buyer sees does not tell whose the lots are: the ranking is the same when every lot has
-- the same owner.
pub rank_lots_for_buyer-owned_by :
    (buyer : Buyer) (lots : List Lot) (district : ℕ → Option ℕ) (limit u : ℕ)
    → rank_lots_for_buyer buyer (map (owned_by u) lots) district limit
      ≡ rank_lots_for_buyer buyer lots district limit
unfolding rank_lots_for_buyer
rank_lots_for_buyer-owned_by buyer lots district limit u =
    ap (λ l. take limit (sort_by lot_ahead (kept l))) (map-owned_by buyer district u lots)

-- Open, or with offers that wait.
abbrev pub is_on_offer : LotStatus → Bool
is_on_offer s = elim s [ open_lot ↦ true | offered ↦ true | _ ↦ false ]

-- The lots on offer, of a crop that the buyer takes.
abbrev pub wanted_lots : Buyer → List Lot → List Lot
wanted_lots buyer lots =
    filter (λ (l : Lot). is_on_offer l.status && takes buyer.commodity_id l.commodity_id) lots

-- Every score is at least as high as all that come after it.
abbrev pub IsDescending : List LotRow → Type 0
IsDescending [] = Unit
IsDescending (r ∷ rs) = All (λ (q : LotRow). q.score ≤ℤ r.score) rs × IsDescending rs

score_at_least : (a b : LotRow) → lot_ahead a b ≡ true → b.score ≤ℤ a.score
score_at_least a b h = ground (arith, h)

IsSorted-IsDescending : (l : List LotRow) → IsSorted lot_ahead l → IsDescending l
IsSorted-IsDescending [] h = tt
IsSorted-IsDescending (r ∷ rs) h =
    (All-map (λ q ahead. score_at_least r q ahead) rs h.0, IsSorted-IsDescending rs h.1)

open_lots_lem :
    (buyer : Buyer) (lots : List Lot) (district : ℕ → Option ℕ)
    → open_lots buyer lots district
      ≡ map (λ l. lot_row buyer l (market_of district l.market_id)) (wanted_lots buyer lots)
unfolding score_lot_for_buyer
open_lots_lem buyer lots district =
    kept-map (λ (l : Lot). score_lot_for_buyer buyer l (market_of district l.market_id))
      (λ (l : Lot). is_on_offer l.status && takes buyer.commodity_id l.commodity_id)
      (λ (l : Lot). lot_row buyer l (market_of district l.market_id)) scored lots
  where
    scored :
        (l : Lot)
        → score_lot_for_buyer buyer l (market_of district l.market_id) ≡ (
            if is_on_offer l.status && takes buyer.commodity_id l.commodity_id
            then some (lot_row buyer l (market_of district l.market_id))
            else none)
    scored l =
        two_guards_lem (is_on_offer l.status) (wants_other buyer.commodity_id l.commodity_id)
          (takes buyer.commodity_id l.commodity_id)
          (lot_row buyer l (market_of district l.market_id))
          (wants_other-takes buyer.commodity_id l.commodity_id)

-- The ranking is the head of the rows of the lots that are open or offered and of a crop that the
-- buyer takes, each with one row: with the rows left out it is a permutation of them, the scores go
-- down, and it has as many rows as asked for unless nothing is left out.
pub rank_lots_for_buyer_lem :
    (buyer : Buyer) (lots : List Lot) (district : ℕ → Option ℕ) (limit : ℕ)
    → let ranked = rank_lots_for_buyer buyer lots district limit in
      (left_out : List LotRow) × Perm
        (ranked ++ left_out)
        (map (λ l. lot_row buyer l (market_of district l.market_id)) (wanted_lots buyer lots))
      × IsDescending (ranked ++ left_out)
      × ((length ranked ≡ limit) ⊎ (left_out ≡ []))
unfolding rank_lots_for_buyer
rank_lots_for_buyer_lem buyer lots district limit =
    let rows = open_lots buyer lots district in
    let whole = take-append-drop limit (sort_by lot_ahead rows) in
    (
      drop limit (sort_by lot_ahead rows),
      rw whole (
          subst (Perm (sort_by lot_ahead rows)) (open_lots_lem buyer lots district)
            (sort_by-perm lot_ahead rows)),
      rw whole (
          IsSorted-IsDescending (sort_by lot_ahead rows)
            (sort_by-IsSorted lot_ahead lot_ahead_total lot_ahead_trans rows)),
      take_full limit (sort_by lot_ahead rows),
    )
