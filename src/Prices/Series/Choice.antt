-- ===== src/Prices/Series/Choice.antt =====
-- What the daily series promises.
use sih.Prelude.{
  ==_iff, All, All-Elem, All-both, All-filter, All-map, All-of-each, All-of-filter, Bool,
  Bool-cases, Elem, List, Option-cases, [], arith, false, filter, here, if◌then◌else◌, inl, inr,
  ltb, map, refl, some, sym, true, ℕ, ◌<◌, ◌==◌, ◌∷◌, ◌≡◌, ◌≢◌, ◌≤◌, ◌⊎◌,
}
use sih.Prelude.Sort.{IsSorted, insert_by, insert_by-All, sort_by, sort_by-All, sort_by-IsSorted}
use sih.Store.Keys.{UniqueBy}
use sih.Market.Lots.Pool.{filter-Elem}
use sih.Market.Reliability.{mem}
use sih.Matching.{kept}
use sih.Prices.Series.{
  Observation, build_daily_series, choose, days_of, earlier, first_of, is_general, min_rank, on_day,
  point, rank_of,
}
use sih.Prices.Series.Cover.{build_daily_series-mem}

min_rank-le : (m : ℕ) (l : List Observation) → min_rank m l ≤ m
min_rank-le m [] = omega arith
min_rank-le m (r ∷ rs) = ground (arith, min_rank-le (if ltb (rank_of r) m then rank_of r else m) rs)

All-min_rank : (m : ℕ) (l : List Observation) → All (λ r. min_rank m l ≤ rank_of r) l
All-min_rank m [] = tt
All-min_rank m (r ∷ rs) =
    let k = if ltb (rank_of r) m then rank_of r else m in
    (ground (arith, min_rank-le k rs), All-min_rank k rs)

-- The first row's source is no worse, and it is of the general variety if the other row is so and of
-- an equally good source.
abbrev pub IsPreferred : Observation → Observation → Type 0
IsPreferred r x =
    (rank_of r ≤ rank_of x) × (rank_of x ≡ rank_of r → is_general x ≡ true → is_general r ≡ true)

-- The chosen row is one of the day's, and preferred to all of them.
abbrev pub IsChosen : List Observation → Observation → Type 0
IsChosen l r = Elem r l × All (IsPreferred r) l

filter-none : {A : Type 0} (f : A → Bool) (l : List A) → filter f l ≡ [] → All (λ x. f x ≡ false) l
filter-none f [] h = tt
filter-none f (x ∷ xs) h = elim (Bool-cases (f x)) [
  | inl t ↦ ground (arith, t, h)
  | inr n ↦ (n, filter-none f xs (ground (arith, n, h)))
]

first_of-general :
    (g l : List Observation) (r : Observation)
    → All (λ x. is_general x ≡ true) g
    → first_of g l ≡ some r
    → (is_general r ≡ true) ⊎ (g ≡ [])
first_of-general (x ∷ xs) l r k h = inl (ground (arith, h, k.0))
first_of-general [] l r k h = inr refl

-- A general row among the candidates makes the first one general.
first_of-preferred :
    (l : List Observation) (r : Observation)
    → first_of (filter is_general l) l ≡ some r
    → All (λ x. is_general x ≡ true → is_general r ≡ true) l
first_of-preferred l r h =
    elim (first_of-general (filter is_general l) l r (All-filter is_general l) h) [
      | inl e ↦ All-of-each (λ x. is_general x ≡ true → is_general r ≡ true) (λ x k. e) l
      | inr e ↦
          All-map {P = λ x. is_general x ≡ false}
            {Q = λ x. is_general x ≡ true → is_general r ≡ true} (λ x n k. ground (arith, n, k)) l
            (filter-none is_general l e)
    ]

first-Elem :
    (g l : List Observation) (r : Observation) → first_of g l ≡ some r → Elem r g ⊎ Elem r l
first-Elem (x ∷ xs) l r h = inl (here cc)
first-Elem [] (x ∷ xs) r h = inr (here cc)
first-Elem [] [] r h = cc

choose-IsChosen : (l : List Observation) (r : Observation) → choose l ≡ some r → IsChosen l r
unfolding choose
choose-IsChosen [] r h = cc
choose-IsChosen (x ∷ xs) r h =
    let best = min_rank (rank_of x) xs in
    let candidates = filter (λ (y : Observation). rank_of y == best) (x ∷ xs) in
    let in_candidates : Elem r candidates =
      elim (first-Elem (filter is_general candidates) candidates r h) [
        | inl e ↦ filter-Elem is_general candidates r e
        | inr e ↦ e
      ] in
    let ranked =
      All-Elem (λ y. (rank_of y == best) ≡ true) in_candidates
        (All-filter (λ y. rank_of y == best) (x ∷ xs)) in
    let same : rank_of r ≡ best = (==_iff (rank_of r) best).0 ranked in
    (
      filter-Elem (λ y. rank_of y == best) (x ∷ xs) r in_candidates,
      All-both (λ y. rank_of r ≤ rank_of y)
          (λ y. rank_of y ≡ rank_of r → is_general y ≡ true → is_general r ≡ true) (x ∷ xs)
          (All-map {P = λ y. best ≤ rank_of y} {Q = λ y. rank_of r ≤ rank_of y}
            (λ y k. omega (arith, k, same)) (x ∷ xs)
            (min_rank-le (rank_of x) xs, All-min_rank (rank_of x) xs))
          (All-map {P = λ y. (rank_of y == best) ≡ true → is_general y ≡ true → is_general r ≡ true}
            (λ y k e. k (ground (arith, e, same))) (x ∷ xs)
            (All-of-filter (λ y. is_general y ≡ true → is_general r ≡ true) (λ y. rank_of y == best)
              (x ∷ xs) (first_of-preferred candidates r h))),
    )

-- A point of the series is the price of a row of its day that is preferred to all rows of the day.
abbrev pub IsPoint : List Observation → ℕ × ℕ → Type 0
IsPoint rows e =
    (r : Observation) × Elem r rows
    × (r.day ≡ e.0)
    × (r.modal ≡ e.1)
    × All (λ x. x.day ≡ e.0 → IsPreferred r x) rows

points-All :
    (rows : List Observation) (ds : List ℕ)
    → All (IsPoint rows) (kept (map (λ d. point d (choose (filter (on_day d) rows))) ds))
points-All rows [] = tt
points-All rows (d ∷ ds) = elim (Option-cases (choose (filter (on_day d) rows))) [
  | inl empty ↦ rw empty (points-All rows ds)
  | inr (r, chosen) ↦
      let (in_day, best) = choose-IsChosen (filter (on_day d) rows) r chosen in
      let day = All-Elem (λ x. on_day d x ≡ true) in_day (All-filter (on_day d) rows) in
      let all_best =
        All-map {P = λ x. on_day d x ≡ true → IsPreferred r x}
          {Q = λ x. x.day ≡ d → IsPreferred r x} (λ x k e. k (ground (arith, e))) rows
          (All-of-filter (IsPreferred r) (on_day d) rows best) in
      rw chosen (
        (r, filter-Elem (on_day d) rows r in_day, (==_iff r.day d).0 day, refl, all_best),
        points-All rows ds,
      )
]

earlier_total : (a b : ℕ × ℕ) → earlier a b ≡ false → earlier b a ≡ true
earlier_total a b h = ground arith

earlier_trans : (a b c : ℕ × ℕ) → earlier a b ≡ true → earlier b c ≡ true → earlier a c ≡ true
earlier_trans a b c h k = ground arith

-- The days are new ones, each once.
days_of-UniqueBy :
    (seen : List ℕ) (rows : List Observation)
    → UniqueBy (λ d. d) (days_of seen rows) × All (λ d. mem d seen ≡ false) (days_of seen rows)
unfolding days_of
days_of-UniqueBy seen [] = (tt, tt)
days_of-UniqueBy seen (r ∷ rs) = elim (Bool-cases (mem r.day seen)) [
  | inl t ↦ rw t (days_of-UniqueBy seen rs)
  | inr f ↦
      let (unique, new) = days_of-UniqueBy (r.day ∷ seen) rs in
      rw f (
        (All-map (λ d k. ground (arith, k)) _ new, unique),
        (f, All-map (λ d k. ground (arith, k)) _ new),
      )
]

-- A point stands for each of the days that has one.
points-UniqueBy :
    (rows : List Observation) (ds : List ℕ)
    → UniqueBy (λ d. d) ds
    → UniqueBy (λ e. e.0) (kept (map (λ d. point d (choose (filter (on_day d) rows))) ds))
      × ((k : ℕ)
          → All (λ d. k ≢ d) ds
          → All (λ e. k ≢ e.0) (kept (map (λ d. point d (choose (filter (on_day d) rows))) ds)))
points-UniqueBy rows [] u = (tt, (λ k h. tt))
points-UniqueBy rows (d ∷ ds) u =
    let (unique, apart) = points-UniqueBy rows ds u.1 in
    elim (Option-cases (choose (filter (on_day d) rows))) [
      | inl empty ↦ rw empty (unique, (λ k h. apart k h.1))
      | inr (r, chosen) ↦ rw chosen ((apart d u.0, unique), (λ k h. (h.0, apart k h.1)))
    ]

-- Sorting keeps days distinct, and orders distinct days strictly.
insert-UniqueBy :
    (x : ℕ × ℕ) (l : List (ℕ × ℕ))
    → All (λ y. x.0 ≢ y.0) l
    → UniqueBy (λ e. e.0) l
    → UniqueBy (λ e. e.0) (insert_by earlier x l)
unfolding insert_by
insert-UniqueBy x [] a u = (tt, tt)
insert-UniqueBy x (y ∷ ys) a u = elim (Bool-cases (earlier x y)) [
  | inl t ↦ rw t (a, u)
  | inr f ↦ rw f (
    insert_by-All earlier (λ z. y.0 ≢ z.0) x ys (λ e. a.0 (sym e)) u.0,
    insert-UniqueBy x ys a.1 u.1,
  )
]

sort-UniqueBy : (l : List (ℕ × ℕ)) → UniqueBy (λ e. e.0) l → UniqueBy (λ e. e.0) (sort_by earlier l)
unfolding sort_by
sort-UniqueBy [] u = tt
sort-UniqueBy (x ∷ xs) u =
    insert-UniqueBy x (sort_by earlier xs) (sort_by-All earlier (λ y. x.0 ≢ y.0) xs u.0)
      (sort-UniqueBy xs u.1)

-- Days strictly ascend.
abbrev pub IsAscending : List (ℕ × ℕ) → Type 0
IsAscending [] = Unit
IsAscending (x ∷ xs) = All (λ y. x.0 < y.0) xs × IsAscending xs

All-before :
    (x : ℕ × ℕ) (l : List (ℕ × ℕ))
    → All (λ y. earlier x y ≡ true) l
    → All (λ y. x.0 ≢ y.0) l
    → All (λ y. x.0 < y.0) l
All-before x [] h k = tt
All-before x (y ∷ ys) h k = (ground (arith, h.0, k.0), All-before x ys h.1 k.1)

IsAscending-of : (l : List (ℕ × ℕ)) → IsSorted earlier l → UniqueBy (λ e. e.0) l → IsAscending l
IsAscending-of [] h k = tt
IsAscending-of (x ∷ xs) h k = (All-before x xs h.0 k.0, IsAscending-of xs h.1 k.1)

-- The days of the series strictly ascend, and every day of a row has a point. Each price is that of
-- one row of its day: of the best source there is, and of the general variety if that source has one;
-- prices of a day are never averaged.
pub build_daily_series_lem :
    (rows : List Observation)
    → let series = build_daily_series rows in
      IsAscending series
      × All (IsPoint rows) series
      × ((r : Observation) → Elem r rows → mem r.day (map (λ e. e.0) series) ≡ true)
unfolding build_daily_series
build_daily_series_lem rows =
    let ds = days_of [] rows in
    let points = kept (map (λ d. point d (choose (filter (on_day d) rows))) ds) in
    let unique = (points-UniqueBy rows ds (days_of-UniqueBy [] rows).0).0 in
    (
      IsAscending-of (sort_by earlier points)
          (sort_by-IsSorted earlier earlier_total earlier_trans points)
          (sort-UniqueBy points unique),
      sort_by-All earlier (IsPoint rows) points (points-All rows ds),
      build_daily_series-mem rows,
    )
