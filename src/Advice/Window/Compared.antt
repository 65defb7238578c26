-- ===== src/Advice/Window/Compared.antt =====
-- The other markets that a sale window compares.
use mathlib.Core.Path.{subst}
-- The rows are of different markets.
use sih.Prelude.{
  All, All-map, Bool, Bool-cases, Elem, List, Option, [], arith, false, here, inl, inr, is_value,
  length, map, refl, suc, sym, there, true, zero, ℕ, ◌==◌, ◌||◌, ◌∷◌, ◌≡◌, ◌≤◌, ◌⊎◌,
}
use sih.Advice.Window.{PriceRow, nearby_markets}
use sih.Market.Reliability.{mem}

abbrev pub AreDifferent : List PriceRow → Type 0
AreDifferent [] = Unit
AreDifferent (r ∷ rs) = All (λ q. (q.market_id == r.market_id) ≡ false) rs × AreDifferent rs

abbrev pub market_ids : List PriceRow → List ℕ
market_ids rows = map (λ (r : PriceRow). r.market_id) rows

-- A row of a market that is known, is among those compared, or is the one asked for.
abbrev pub IsCovered : Option ℕ → List ℕ → List PriceRow → PriceRow → Type 0
IsCovered market known compared r =
    mem r.market_id known || (mem r.market_id (market_ids compared) || is_value market r.market_id)
    ≡ true

skipped_row : (a b c : Bool) → a || c ≡ true → a || (b || c) ≡ true
skipped_row a b c h = ground (arith, h)

moved : (a b c e : Bool) → (b || a) || (c || e) ≡ true → a || ((b || c) || e) ≡ true
moved a b c e h = ground (arith, h)

-- The other markets of the rows that the best price is sought among: at most four different ones, none
-- of them the market asked for, each with the price of one of its rows; only when there are four
-- can another market of the rows be missing.
abbrev pub AreCompared : Option ℕ → List PriceRow → List PriceRow → Type 0
AreCompared market rows compared =
    (length compared ≤ 4)
    × AreDifferent compared
    × All (λ n. Elem n rows × (is_value market n.market_id ≡ false)) compared
    × ((length compared ≡ 4) ⊎ All (λ r. IsCovered market [] compared r) rows)

pub nearby_markets-length :
    (market : Option ℕ) (room : ℕ) (seen : List ℕ) (rs : List PriceRow)
    → length (nearby_markets market room seen rs) ≤ room
unfolding nearby_markets
nearby_markets-length market zero seen rs = omega arith
nearby_markets-length market (suc room) seen [] = omega arith
nearby_markets-length market (suc room) seen (r ∷ rs) =
    elim (Bool-cases (mem r.market_id seen || is_value market r.market_id)) [
      | inl t ↦ rw t (nearby_markets-length market (suc room) seen rs)
      | inr f ↦ rw f (omega (arith, nearby_markets-length market room (r.market_id ∷ seen) rs))
    ]

pub nearby_markets-others :
    (market : Option ℕ) (room : ℕ) (seen : List ℕ) (rs : List PriceRow)
    → All
        (λ n. Elem n rs × (is_value market n.market_id ≡ false) × (mem n.market_id seen ≡ false))
        (nearby_markets market room seen rs)
unfolding nearby_markets
nearby_markets-others market zero seen rs = tt
nearby_markets-others market (suc room) seen [] = tt
nearby_markets-others market (suc room) seen (r ∷ rs) =
    elim (Bool-cases (mem r.market_id seen || is_value market r.market_id)) [
      | inl t ↦ rw t (
          All-map (λ n (e, other, fresh). (there e, other, fresh))
            (nearby_markets market (suc room) seen rs)
            (nearby_markets-others market (suc room) seen rs))
      | inr f ↦ rw f (
        (here refl, ground (arith, f), ground (arith, f)),
        All-map (λ n (e, other, fresh). (there e, other, ground (arith, fresh)))
            (nearby_markets market room (r.market_id ∷ seen) rs)
            (nearby_markets-others market room (r.market_id ∷ seen) rs),
      )
    ]

pub nearby_markets-different :
    (market : Option ℕ) (room : ℕ) (seen : List ℕ) (rs : List PriceRow)
    → AreDifferent (nearby_markets market room seen rs)
unfolding nearby_markets
nearby_markets-different market zero seen rs = tt
nearby_markets-different market (suc room) seen [] = tt
nearby_markets-different market (suc room) seen (r ∷ rs) =
    elim (Bool-cases (mem r.market_id seen || is_value market r.market_id)) [
      | inl t ↦ rw t (nearby_markets-different market (suc room) seen rs)
      | inr f ↦ rw f (
        All-map (λ n (e, other, fresh). ground (arith, fresh))
            (nearby_markets market room (r.market_id ∷ seen) rs)
            (nearby_markets-others market room (r.market_id ∷ seen) rs),
        nearby_markets-different market room (r.market_id ∷ seen) rs,
      )
    ]

-- There are as many as asked for, or every row is covered.
abbrev Covers : Option ℕ → List ℕ → ℕ → List PriceRow → List PriceRow → Type 0
Covers market known room rs compared =
    (length compared ≡ room) ⊎ All (λ r. IsCovered market known compared r) rs

pub nearby_markets-covered :
    (market : Option ℕ) (room : ℕ) (seen : List ℕ) (rs : List PriceRow)
    → Covers market seen room rs (nearby_markets market room seen rs)
unfolding nearby_markets
nearby_markets-covered market zero seen rs = inl refl
nearby_markets-covered market (suc room) seen [] = inr tt
nearby_markets-covered market (suc room) seen (r ∷ rs) =
    elim (Bool-cases (mem r.market_id seen || is_value market r.market_id)) [
      | inl t ↦
          let out = nearby_markets market (suc room) seen rs in
          let e : nearby_markets market (suc room) seen (r ∷ rs) ≡ out = rw t refl in
          subst (Covers market seen (suc room) (r ∷ rs)) (sym e)
            (elim (nearby_markets-covered market (suc room) seen rs) [
              | inl full ↦ inl full
              | inr all_rows ↦ inr (
                skipped_row (mem r.market_id seen) (mem r.market_id (market_ids out))
                    (is_value market r.market_id) t,
                all_rows,
              )
            ])
      | inr f ↦
          let out = nearby_markets market room (r.market_id ∷ seen) rs in
          let e : nearby_markets market (suc room) seen (r ∷ rs) ≡ r ∷ out = rw f refl in
          subst (Covers market seen (suc room) (r ∷ rs)) (sym e)
            (elim (nearby_markets-covered market room (r.market_id ∷ seen) rs) [
              | inl full ↦ inl (omega (arith, full))
              | inr all_rows ↦ inr (
                ground arith,
                All-map
                    (λ q covered.
                      moved (mem q.market_id seen) (q.market_id == r.market_id) _
                        (is_value market q.market_id) covered)
                    rs all_rows,
              )
            ])
    ]
