-- ===== src/Forecast/Served/Firsts.antt =====
-- The pairs of the rows that are kept.
use sih.Prelude.{
  All, All-map, Bool, Bool-cases, Elem, List, [], ap, arith, false, here, inl, inr, map, refl,
  there, true, ℕ, ◌||◌, ◌∙◌, ◌∷◌, ◌≡◌, ◌≢◌,
}
use sih.Prelude.Sort.{insert_by, sort_by}
use sih.Forecast.Engine.{has_pair, same_pair}
use sih.Forecast.Engine.Pairs.{IsDistinct, same_pair-has_pair}
use sih.Forecast.Served.{StoredForecast, first_rows, pair_of}

true-false : {b : Bool} → b ≡ true → b ≢ false
true-false h k = cc

pub seen_before :
    (q r : StoredForecast) (seen_pairs : List (ℕ × ℕ))
    → has_pair (pair_of r) seen_pairs ≡ true
    → has_pair (pair_of q) seen_pairs ≡ false
    → same_pair (pair_of q) (pair_of r) ≢ true
seen_before q r seen_pairs t fresh e =
    true-false (same_pair-has_pair (pair_of q) (pair_of r) seen_pairs e ∙ t) fresh

pub fresh_before :
    (q r : StoredForecast) (seen_pairs : List (ℕ × ℕ))
    → has_pair (pair_of q) (pair_of r ∷ seen_pairs) ≡ false
    → has_pair (pair_of q) seen_pairs ≡ false
fresh_before q r seen_pairs fresh = ground (arith, fresh)

pub apart :
    (q r : StoredForecast) (seen_pairs : List (ℕ × ℕ))
    → has_pair (pair_of q) (pair_of r ∷ seen_pairs) ≡ false
    → same_pair (pair_of q) (pair_of r) ≢ true
apart q r seen_pairs fresh e =
    let only : same_pair (pair_of q) (pair_of r) ≡ false = ground (arith, fresh) in
    true-false e only

first_rows-fresh :
    (seen_pairs : List (ℕ × ℕ)) (l : List StoredForecast)
    → All (λ r. has_pair (pair_of r) seen_pairs ≡ false) (first_rows seen_pairs l)
unfolding first_rows
first_rows-fresh seen_pairs [] = tt
first_rows-fresh seen_pairs (r ∷ rs) = elim (Bool-cases (has_pair (pair_of r) seen_pairs)) [
  | inl t ↦ rw t (first_rows-fresh seen_pairs rs)
  | inr f ↦ rw f (
    f,
    All-map (λ q fresh. fresh_before q r seen_pairs fresh) (first_rows (pair_of r ∷ seen_pairs) rs)
        (first_rows-fresh (pair_of r ∷ seen_pairs) rs),
  )
]

has_pair-apart :
    (p : ℕ × ℕ) (seen_pairs : List (ℕ × ℕ)) (l : List StoredForecast)
    → All (λ r. has_pair (pair_of r) (p ∷ seen_pairs) ≡ false) l
    → has_pair p (map pair_of l) ≡ false
has_pair-apart p seen_pairs [] h = refl
has_pair-apart p seen_pairs (r ∷ rs) h =
    let rest = has_pair-apart p seen_pairs rs h.1 in ground (arith, h.0, rest)

-- No pair stands twice, and none is left out.
pub first_rows-IsDistinct :
    (seen_pairs : List (ℕ × ℕ)) (l : List StoredForecast)
    → IsDistinct (map pair_of (first_rows seen_pairs l))
unfolding first_rows
first_rows-IsDistinct seen_pairs [] = tt
first_rows-IsDistinct seen_pairs (r ∷ rs) = elim (Bool-cases (has_pair (pair_of r) seen_pairs)) [
  | inl t ↦ rw t (first_rows-IsDistinct seen_pairs rs)
  | inr f ↦ rw f (
    has_pair-apart (pair_of r) seen_pairs (first_rows (pair_of r ∷ seen_pairs) rs)
        (first_rows-fresh (pair_of r ∷ seen_pairs) rs),
    first_rows-IsDistinct (pair_of r ∷ seen_pairs) rs,
  )
]

-- A pair that is the same as a known one is known.
known_pair :
    (p q : ℕ × ℕ) (seen_pairs : List (ℕ × ℕ)) (b : Bool)
    → has_pair q seen_pairs ≡ true
    → has_pair p seen_pairs || b ≡ has_pair p seen_pairs || (same_pair p q || b)
known_pair p q seen_pairs b t = elim (Bool-cases (same_pair p q)) [
  | inl same ↦ rw (same_pair-has_pair p q seen_pairs same ∙ t) refl
  | inr f ↦ rw f refl
]

pub has_pair-first_rows :
    (p : ℕ × ℕ) (seen_pairs : List (ℕ × ℕ)) (l : List StoredForecast)
    → has_pair p seen_pairs || has_pair p (map pair_of (first_rows seen_pairs l))
      ≡ has_pair p seen_pairs || has_pair p (map pair_of l)
unfolding first_rows
has_pair-first_rows p seen_pairs [] = refl
has_pair-first_rows p seen_pairs (r ∷ rs) = elim (Bool-cases (has_pair (pair_of r) seen_pairs)) [
  | inl t ↦ rw t (
      has_pair-first_rows p seen_pairs rs
      ∙ known_pair p (pair_of r) seen_pairs (has_pair p (map pair_of rs)) t)
  | inr f ↦
      let rest = has_pair-first_rows p (pair_of r ∷ seen_pairs) rs in rw f (ground (arith, rest))
]

-- A sort keeps the pairs.
has_pair-insert_by :
    (ahead : StoredForecast → StoredForecast → Bool) (p : ℕ × ℕ) (r : StoredForecast)
    (l : List StoredForecast)
    → has_pair p (map pair_of (insert_by ahead r l)) ≡ has_pair p (map pair_of (r ∷ l))
unfolding insert_by
has_pair-insert_by ahead p r [] = refl
has_pair-insert_by ahead p r (q ∷ qs) =
    let rest = has_pair-insert_by ahead p r qs in
    elim (Bool-cases (ahead r q)) [ inl t ↦ rw t refl | inr f ↦ rw f (ground (arith, rest)) ]

pub has_pair-sort_by :
    (ahead : StoredForecast → StoredForecast → Bool) (p : ℕ × ℕ) (l : List StoredForecast)
    → has_pair p (map pair_of (sort_by ahead l)) ≡ has_pair p (map pair_of l)
unfolding sort_by
has_pair-sort_by ahead p [] = refl
has_pair-sort_by ahead p (r ∷ rs) =
    has_pair-insert_by ahead p r (sort_by ahead rs)
    ∙ ap (λ b. same_pair p (pair_of r) || b) (has_pair-sort_by ahead p rs)

pub All-self : (l : List StoredForecast) → All (λ r. Elem r l) l
All-self [] = tt
All-self (r ∷ rs) = (here refl, All-map (λ q m. there m) rs (All-self rs))

pub first_rows-All :
    (P : StoredForecast → Type 0) (seen_pairs : List (ℕ × ℕ)) (l : List StoredForecast)
    → All P l
    → All P (first_rows seen_pairs l)
unfolding first_rows
first_rows-All P seen_pairs [] h = tt
first_rows-All P seen_pairs (r ∷ rs) h = elim (Bool-cases (has_pair (pair_of r) seen_pairs)) [
  | inl t ↦ rw t (first_rows-All P seen_pairs rs h.1)
  | inr f ↦ rw f (h.0, first_rows-All P (pair_of r ∷ seen_pairs) rs h.1)
]
