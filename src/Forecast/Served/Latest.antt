-- ===== src/Forecast/Served/Latest.antt =====
-- The rows that stand for a pair in the summary.
use sih.Prelude.{
  All, All-both, All-map, Bool, Bool-cases, Elem, List, [], arith, false, inl, inr, map, true, ℕ,
  ◌<◌, ◌∙◌, ◌∷◌, ◌≡◌, ◌≤◌, ◌⊎◌,
}
use sih.Prelude.Sort.{IsSorted, sort_by, sort_by-All, sort_by-IsSorted}
use sih.Prelude.Sort.Stable.{lex, sort_by-All-back, sort_by-lex}
use sih.Store.Memory.{table}
use sih.Forecast.Engine.{has_pair, same_pair}
use sih.Forecast.Engine.Pairs.{IsDistinct}
use sih.Forecast.Served.{
  StoredForecast, earlier_day, first_rows, get_forecasts_summary, later_stamp, pair_of, recent_rows,
}
use sih.Forecast.Served.Firsts.{
  All-self, apart, first_rows-All, first_rows-IsDistinct, fresh_before, has_pair-first_rows,
  has_pair-sort_by, seen_before,
}
use sih.Sms.Alerts.{before}

abbrev pub by_stamp : StoredForecast → StoredForecast → Bool
by_stamp = lex earlier_day later_stamp

-- Of the rows of its pair one with the latest instant, and of these one of the earliest day.
abbrev pub IsLatest : List StoredForecast → StoredForecast → Type 0
IsLatest rows r =
    All
      (λ q.
        same_pair (pair_of r) (pair_of q) ≡ true
        → (q.generated_at < r.generated_at)
          ⊎ ((q.generated_at ≡ r.generated_at) × (r.forecast_date ≤ q.forecast_date)))
      rows

stamps_total : (a b : StoredForecast) → later_stamp a b ≡ false → later_stamp b a ≡ true
stamps_total a b h = ground (arith, h)

stamps_trans :
    (a b c : StoredForecast)
    → later_stamp a b ≡ true
    → later_stamp b c ≡ true
    → later_stamp a c ≡ true
stamps_trans a b c h k = ground (arith, h, k)

days_total : (a b : StoredForecast) → earlier_day a b ≡ false → earlier_day b a ≡ true
days_total a b h = ground (arith, h)

days_trans :
    (a b c : StoredForecast)
    → earlier_day a b ≡ true
    → earlier_day b c ≡ true
    → earlier_day a c ≡ true
days_trans a b c h k = ground (arith, h, k)

by_stamp_lem :
    (r q : StoredForecast)
    → by_stamp r q ≡ true
    → (q.generated_at < r.generated_at)
      ⊎ ((q.generated_at ≡ r.generated_at) × (r.forecast_date ≤ q.forecast_date))
by_stamp_lem r q h = ground (arith, h)

by_stamp_refl : (r : StoredForecast) → by_stamp r r ≡ true
by_stamp_refl r = ground arith

-- Any two rows of one pair, of which the first is kept.
abbrev IsAhead : List StoredForecast → StoredForecast → Type 0
IsAhead l r = All (λ q. same_pair (pair_of r) (pair_of q) ≡ true → by_stamp r q ≡ true) l

first_rows-IsAhead :
    (seen_pairs : List (ℕ × ℕ)) (l : List StoredForecast)
    → IsSorted by_stamp l
    → All (λ r. (has_pair (pair_of r) seen_pairs ≡ false) × IsAhead l r) (first_rows seen_pairs l)
unfolding first_rows
first_rows-IsAhead seen_pairs [] h = tt
first_rows-IsAhead seen_pairs (r ∷ rs) h = elim (Bool-cases (has_pair (pair_of r) seen_pairs)) [
  | inl t ↦ rw t (
      All-map
        (λ q (fresh, before).
          (fresh, ((λ e. absurd (seen_before q r seen_pairs t fresh e)), before)))
        (first_rows seen_pairs rs) (first_rows-IsAhead seen_pairs rs h.1))
  | inr f ↦ rw f (
    (f, ((λ e. by_stamp_refl r), All-map (λ q k e. k) rs h.0)),
    All-map
        (λ q (fresh, before). (
          fresh_before q r seen_pairs fresh,
          ((λ e. absurd (apart q r seen_pairs fresh e)), before),
        ))
        (first_rows (pair_of r ∷ seen_pairs) rs)
        (first_rows-IsAhead (pair_of r ∷ seen_pairs) rs h.1),
  )
]

-- The summary has exactly one row for each pair of the rows that were read, and no other row. It is
-- one whose instant of making is the latest for the pair, and of the rows with that very instant one
-- of the earliest day.
pub get_forecasts_summary_lem :
    (cutoff : ℕ) (table : List StoredForecast)
    → let rows = recent_rows cutoff table in
      let summary = get_forecasts_summary cutoff table in
      All (λ r. Elem r rows × IsLatest rows r) summary
      × IsDistinct (map pair_of summary)
      × ((p : ℕ × ℕ) → has_pair p (map pair_of summary) ≡ has_pair p (map pair_of rows))
unfolding get_forecasts_summary
get_forecasts_summary_lem cutoff table =
    let rows = recent_rows cutoff table in
    let by_day = sort_by earlier_day rows in
    let all_rows = sort_by later_stamp by_day in
    let ordered =
      sort_by-lex earlier_day later_stamp stamps_total stamps_trans by_day
        (sort_by-IsSorted earlier_day days_total days_trans rows) in
    let members =
      sort_by-All later_stamp (λ r. Elem r rows) by_day
        (sort_by-All earlier_day (λ r. Elem r rows) rows (All-self rows)) in
    (
      All-both (λ r. Elem r rows) (IsLatest rows) (first_rows [] all_rows)
          (first_rows-All (λ r. Elem r rows) [] all_rows members)
          (All-map
            (λ r (fresh, before).
              let P : StoredForecast → Type 0 = λ q.
                same_pair (pair_of r) (pair_of q) ≡ true
                → (q.generated_at < r.generated_at)
                  ⊎ ((q.generated_at ≡ r.generated_at) × (r.forecast_date ≤ q.forecast_date)) in
              sort_by-All-back earlier_day P rows (
                sort_by-All-back later_stamp P by_day
                  (All-map (λ q k e. by_stamp_lem r q (k e)) all_rows before)))
            (first_rows [] all_rows) (first_rows-IsAhead [] all_rows ordered)),
      first_rows-IsDistinct [] all_rows,
      (λ p.
          has_pair-first_rows p [] all_rows
          ∙ has_pair-sort_by later_stamp p by_day
          ∙ has_pair-sort_by earlier_day p rows),
    )
