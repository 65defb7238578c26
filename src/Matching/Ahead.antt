-- ===== src/Matching/Ahead.antt =====
-- The order of a ranking of buyers, by score and distance.
use sih.Prelude.{
  All, All-both, All-map, Bool-cases, List, Option, [], ap, arith, false, inl, inr, leb, none, refl,
  some, true, ℕ, ◌<◌, ◌==◌, ◌∷◌, ◌≡◌, ◌≤◌, ◌⊎◌,
}
use sih.Prelude.Int.{leb_ℤ, ℤ}
use sih.Prelude.Sort.{IsSorted}
use sih.Matching.{MatchRow, distance_key, ranks_ahead}

pub ranks_ahead_total : (a b : MatchRow) → ranks_ahead a b ≡ false → ranks_ahead b a ≡ true
ranks_ahead_total a b h = ground arith

pub ranks_ahead_trans :
    (a b c : MatchRow) → ranks_ahead a b ≡ true → ranks_ahead b c ≡ true → ranks_ahead a c ≡ true
ranks_ahead_trans a b c h k = ground arith

-- The distance of a buyer counts as unknown when it is missing, and also when it is 0.
abbrev pub IsUnplaced : Option ℕ → Type 0
IsUnplaced d = (d ≡ none) ⊎ (d ≡ some 0)

-- Known distances come in ascending order, before the unknown ones.
abbrev pub IsNearer : Option ℕ → Option ℕ → Type 0
IsNearer a b = IsUnplaced b ⊎ ((x : ℕ) × (y : ℕ) × (a ≡ some x) × (b ≡ some y) × (0 < x) × (x ≤ y))

-- A higher score, or the same score and nearer.
abbrev pub Precedes : MatchRow → MatchRow → Type 0
Precedes a b =
    (leb_ℤ b.score a.score ≡ true) × (a.score ≡ b.score → IsNearer a.distance_km b.distance_km)

-- Every row precedes all that come after it.
abbrev pub IsRanked : List MatchRow → Type 0
IsRanked [] = Unit
IsRanked (r ∷ rs) = All (Precedes r) rs × IsRanked rs

-- Less than a million kilometres.
abbrev pub IsOnEarth : Option ℕ → Type 0
IsOnEarth none = Unit
IsOnEarth (some d) = d < 10_000_000_000

nearer :
    (a b : Option ℕ)
    → IsOnEarth a
    → IsOnEarth b
    → leb (distance_key a) (distance_key b) ≡ true
    → IsNearer a b
nearer a none x y h = inl (inl refl)
nearer none (some e) x y h = elim (Bool-cases (e == 0)) [
  | inl t ↦ inl (inr (ap some (ground (arith, t))))
  | inr f ↦ let key : leb 10_000_000_000 e ≡ true = rw f at h in absurd (ground (arith, key, y))
]
nearer (some d) (some e) x y h = elim (Bool-cases (e == 0)) [
  | inl t ↦ inl (inr (ap some (ground (arith, t))))
  | inr f ↦ elim (Bool-cases (d == 0)) [
    | inl t ↦ absurd (ground (arith, h, f, t, y))
    | inr g ↦ inr (d, e, refl, refl, ground (arith, g), ground (arith, h, f, g))
  ]
]

leb_ℤ-refl : (i : ℤ) → leb_ℤ i i ≡ true
leb_ℤ-refl i = ground arith

ahead-Precedes :
    (a b : MatchRow)
    → IsOnEarth a.distance_km
    → IsOnEarth b.distance_km
    → ranks_ahead a b ≡ true
    → Precedes a b
ahead-Precedes a b x y h = (
  ground (arith, h),
  (λ same.
      let tie : leb_ℤ a.score b.score ≡ true = rw same (leb_ℤ-refl b.score) in
      nearer a.distance_km b.distance_km x y (ground (arith, h, tie))),
)

pub IsSorted-IsRanked :
    (l : List MatchRow) → All (λ r. IsOnEarth r.distance_km) l → IsSorted ranks_ahead l → IsRanked l
IsSorted-IsRanked [] near h = tt
IsSorted-IsRanked (r ∷ rs) near h = (
  All-map (λ q (there_q, ahead). ahead-Precedes r q near.0 there_q ahead) rs
      (All-both (λ q. IsOnEarth q.distance_km) (λ q. ranks_ahead r q ≡ true) rs near.1 h.0),
  IsSorted-IsRanked rs near.1 h.1,
)
