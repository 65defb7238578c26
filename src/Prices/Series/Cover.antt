-- ===== src/Prices/Series/Cover.antt =====
-- No day is left out of the daily series.
use mathlib.Core.Path.{subst}
use sih.Prelude.{
  ==_iff, All, All-Elem, All-map, Bool, Bool-cases, Elem, List, Option-cases, [], any, arith,
  filter, here, if◌then◌else◌, inl, inr, ltb, map, none, refl, there, true, ℕ, ◌==◌, ◌||◌, ◌∷◌, ◌≡◌,
  ◌≢◌,
}
use sih.Prelude.Sort.{insert_by, sort_by}
use sih.Market.Reliability.{mem}
use sih.Matching.{kept}
use sih.Prices.Series.{
  Observation, build_daily_series, choose, days_of, earlier, first_of, is_general, min_rank, on_day,
  point, rank_of,
}

-- The least rank is that of a row, if not the first one.
min_rank-met :
    (m v : ℕ) (l : List Observation)
    → v ≡ min_rank m l
    → ((v == m) || any (λ x. rank_of x == v) l) ≡ true
min_rank-met m v [] e = ground (arith, e)
min_rank-met m v (r ∷ rs) e =
    ground (arith, min_rank-met (if ltb (rank_of r) m then rank_of r else m) v rs e)

any-filter : {A : Type 0} (f : A → Bool) (l : List A) → any f l ≡ true → filter f l ≢ []
any-filter f [] h e = cc
any-filter f (x ∷ xs) h e = elim (Bool-cases (f x)) [
  | inl t ↦ ground (arith, t, e)
  | inr n ↦ any-filter f xs (ground (arith, n, h)) (ground (arith, n, e))
]

first_of-found : (g l : List Observation) → l ≢ [] → first_of g l ≢ none
first_of-found (x ∷ xs) l h e = cc
first_of-found [] [] h e = h refl
first_of-found [] (x ∷ xs) h e = cc

-- A row is chosen on every day that has rows.
choose-found : (l : List Observation) → l ≢ [] → choose l ≢ none
unfolding choose
choose-found [] h e = h refl
choose-found (x ∷ xs) h e =
    let best = min_rank (rank_of x) xs in
    let candidates = filter (λ (y : Observation). rank_of y == best) (x ∷ xs) in
    let met : any (λ (y : Observation). rank_of y == best) (x ∷ xs) ≡ true =
      ground (arith, min_rank-met (rank_of x) best xs refl) in
    first_of-found (filter is_general candidates) candidates
      (any-filter (λ (y : Observation). rank_of y == best) (x ∷ xs) met) e

on_day-found :
    (r : Observation) (rows : List Observation) → Elem r rows → any (on_day r.day) rows ≡ true
on_day-found r [] e = elim e [ ]
on_day-found r (x ∷ xs) (here e) = ground (arith, e)
on_day-found r (x ∷ xs) (there e) = ground (arith, on_day-found r xs e)

-- Every row's day is among the days, unless it was seen before.
days_of-All :
    (seen : List ℕ) (rows : List Observation)
    → All (λ r. (mem r.day seen || mem r.day (days_of seen rows)) ≡ true) rows
unfolding days_of
days_of-All seen [] = tt
days_of-All seen (r ∷ rs) = elim (Bool-cases (mem r.day seen)) [
  | inl t ↦
      let same : days_of seen (r ∷ rs) ≡ days_of seen rs = rw t refl in
      (
        rw t refl,
        All-map {P = λ x. (mem x.day seen || mem x.day (days_of seen rs)) ≡ true}
            {Q = λ x. (mem x.day seen || mem x.day (days_of seen (r ∷ rs))) ≡ true}
            (λ x h. ground (arith, same, h)) rs (days_of-All seen rs),
      )
  | inr f ↦
      let same : days_of seen (r ∷ rs) ≡ r.day ∷ days_of (r.day ∷ seen) rs = rw f refl in
      (
        ground (arith, same),
        All-map
            {P = λ x. (mem x.day (r.day ∷ seen) || mem x.day (days_of (r.day ∷ seen) rs)) ≡ true}
            {Q = λ x. (mem x.day seen || mem x.day (days_of seen (r ∷ rs))) ≡ true}
            (λ x h. ground (arith, same, h)) rs (days_of-All (r.day ∷ seen) rs),
      )
]

-- A day with a row has a point.
points-mem :
    (rows : List Observation) (r : Observation) (ds : List ℕ)
    → Elem r rows
    → mem r.day ds ≡ true
    → mem r.day
        (map (λ (e : ℕ × ℕ). e.0) (kept (map (λ d. point d (choose (filter (on_day d) rows))) ds)))
      ≡ true
points-mem rows r [] e h = cc
points-mem rows r (d ∷ ds) e h = elim (Option-cases (choose (filter (on_day d) rows))) [
  | inr (x, chosen) ↦ elim (Bool-cases (r.day == d)) [
    | inl t ↦ rw chosen (rw t refl)
    | inr f ↦ rw chosen (rw f (points-mem rows r ds e (ground (arith, f, h))))
  ]
  | inl empty ↦ elim (Bool-cases (r.day == d)) [
    | inl t ↦ absurd (
        choose-found (filter (on_day d) rows)
          (any-filter (on_day d) rows (
            subst (λ k. any (on_day k) rows ≡ true) ((==_iff r.day d).0 t) (on_day-found r rows e)))
          empty)
    | inr f ↦ rw empty (points-mem rows r ds e (ground (arith, f, h)))
  ]
]

insert_by-mem :
    (k : ℕ) (x : ℕ × ℕ) (l : List (ℕ × ℕ))
    → mem k (map (λ (e : ℕ × ℕ). e.0) (x ∷ l)) ≡ true
    → mem k (map (λ (e : ℕ × ℕ). e.0) (insert_by earlier x l)) ≡ true
unfolding insert_by
insert_by-mem k x [] h = h
insert_by-mem k x (y ∷ ys) h = elim (Bool-cases (earlier x y)) [
  | inl t ↦ rw t h
  | inr f ↦ elim (Bool-cases (k == y.0)) [
    | inl same ↦ rw f (rw same refl)
    | inr other ↦ rw f (rw other (insert_by-mem k x ys (ground (arith, other, h))))
  ]
]

sort_by-mem :
    (k : ℕ) (l : List (ℕ × ℕ))
    → mem k (map (λ (e : ℕ × ℕ). e.0) l) ≡ true
    → mem k (map (λ (e : ℕ × ℕ). e.0) (sort_by earlier l)) ≡ true
unfolding sort_by
sort_by-mem k [] h = h
sort_by-mem k (x ∷ xs) h = elim (Bool-cases (k == x.0)) [
  | inl same ↦ insert_by-mem k x (sort_by earlier xs) (rw same refl)
  | inr other ↦
      insert_by-mem k x (sort_by earlier xs)
        (rw other (sort_by-mem k xs (ground (arith, other, h))))
]

pub build_daily_series-mem :
    (rows : List Observation) (r : Observation)
    → Elem r rows
    → mem r.day (map (λ (e : ℕ × ℕ). e.0) (build_daily_series rows)) ≡ true
unfolding build_daily_series
build_daily_series-mem rows r e =
    let ds = days_of [] rows in
    sort_by-mem r.day (kept (map (λ d. point d (choose (filter (on_day d) rows))) ds))
      (points-mem rows r ds e (All-Elem (λ x. mem x.day ds ≡ true) e (days_of-All [] rows)))
