-- ===== src/Advice/Window/Promises.antt =====
-- What the sale window promises.
use sih.Prelude.{
  All, All-filter, All-map, All-take, Bool, Bool-cases, Elem, List, Option, [], arith, false,
  filter, here, inl, inr, length, length-take, ltb, map, none, not, refl, some, suc, take, there,
  true, zero, ℕ, ◌*◌, ◌<◌, ◌↔◌, ◌∷◌, ◌≡◌, ◌≤◌, ◌⊎◌,
}
use sih.Prelude.Sort.{IsSorted, sort_by, sort_by-All, sort_by-IsSorted}
use sih.Advice.Supply.{decide_iff, forecast_down, forecast_up}
use sih.Advice.Window.{
  Fetched, Godown, PriceRow, StorageRow, better_market, is_empty, is_near, near_storage,
  nearby_markets, nested, place_and_district, storage_ahead, window_from,
}
use sih.Advice.Window.Compared.{
  AreCompared, nearby_markets-covered, nearby_markets-different, nearby_markets-length,
  nearby_markets-others,
}
use sih.Market.Logistics.{hold}
use sih.Matching.{distance}
use sih.Prices.Validator.{above, below}

storage_ahead_total : (a b : Godown) → storage_ahead a b ≡ false → storage_ahead b a ≡ true
storage_ahead_total a b h = ground arith

storage_ahead_trans :
    (a b c : Godown)
    → storage_ahead a b ≡ true
    → storage_ahead b c ≡ true
    → storage_ahead a c ≡ true
storage_ahead_trans a b c h k = ground arith

IsSorted-take :
    {A : Type 0} (ahead : A → A → Bool) (n : ℕ) (l : List A)
    → IsSorted ahead l
    → IsSorted ahead (take n l)
IsSorted-take ahead zero l h = tt
IsSorted-take ahead (suc n) [] h = tt
IsSorted-take ahead (suc n) (x ∷ xs) h =
    (All-take (λ y. ahead x y ≡ true) n xs h.0, IsSorted-take ahead n xs h.1)

-- A price that beats the latest one by 5 % or more.
abbrev pub Beats : ℕ → PriceRow → Type 0
Beats latest r = 105 * latest ≤ 100 * r.modal_price

-- The best of the other markets: one of them, at least 5 % above, and none of them is above it.
abbrev pub IsBest : ℕ → List PriceRow → Option PriceRow → Type 0
IsBest latest ns none = All (λ n. 100 * n.modal_price < 105 * latest) ns
IsBest latest ns (some b) = Elem b ns × Beats latest b × All (λ n. n.modal_price ≤ b.modal_price) ns

-- The same, with the best so far.
abbrev Improves : ℕ → PriceRow → List PriceRow → Option PriceRow → Type 0
Improves latest b ns none = ⊥
Improves latest b ns (some r) =
    ((r ≡ b) ⊎ Elem r ns)
    × Beats latest r
    × (b.modal_price ≤ r.modal_price)
    × All (λ n. n.modal_price ≤ r.modal_price) ns

Improves-keep :
    (latest : ℕ) (b n : PriceRow) (ns : List PriceRow) (r : Option PriceRow)
    → n.modal_price ≤ b.modal_price
    → Improves latest b ns r
    → Improves latest b (n ∷ ns) r
Improves-keep latest b n ns none e h = h
Improves-keep latest b n ns (some r) e (inl same, beats, above, all_below) =
    (inl same, beats, above, (omega arith, all_below))
Improves-keep latest b n ns (some r) e (inr later, beats, above, all_below) =
    (inr (there later), beats, above, (omega arith, all_below))

Improves-take :
    (latest : ℕ) (b n : PriceRow) (ns : List PriceRow) (r : Option PriceRow)
    → b.modal_price ≤ n.modal_price
    → Improves latest n ns r
    → Improves latest b (n ∷ ns) r
Improves-take latest b n ns none e h = h
Improves-take latest b n ns (some r) e (inl same, beats, above, all_below) =
    (inr (here same), beats, omega arith, (above, all_below))
Improves-take latest b n ns (some r) e (inr later, beats, above, all_below) =
    (inr (there later), beats, omega arith, (above, all_below))

better_market-Improves :
    (latest : ℕ) (b : PriceRow) (ns : List PriceRow)
    → Beats latest b
    → Improves latest b ns (better_market latest (some b) ns)
unfolding better_market
better_market-Improves latest b [] h = (inl refl, h, omega arith, tt)
better_market-Improves latest b (n ∷ ns) h =
    elim (Bool-cases (ltb (100 * n.modal_price) (105 * latest))) [
      | inl below ↦ rw below (
          Improves-keep latest b n ns _ (ground (arith, below))
            (better_market-Improves latest b ns h))
      | inr beats ↦ elim (Bool-cases (ltb b.modal_price n.modal_price)) [
        | inl above ↦
            rw (beats, above)
              (Improves-take latest b n ns _ (ground (arith, above))
                (better_market-Improves latest n ns (ground (arith, beats))))
        | inr same ↦
            rw (beats, same)
              (Improves-keep latest b n ns _ (ground (arith, same))
                (better_market-Improves latest b ns h))
      ]
    ]

IsBest-skip :
    (latest : ℕ) (n : PriceRow) (ns : List PriceRow) (r : Option PriceRow)
    → 100 * n.modal_price < 105 * latest
    → IsBest latest ns r
    → IsBest latest (n ∷ ns) r
IsBest-skip latest n ns none e h = (e, h)
IsBest-skip latest n ns (some r) e (later, beats, all_below) =
    (there later, beats, (omega arith, all_below))

IsBest-of_Improves :
    (latest : ℕ) (n : PriceRow) (ns : List PriceRow) (r : Option PriceRow)
    → Improves latest n ns r
    → IsBest latest (n ∷ ns) r
IsBest-of_Improves latest n ns none h = absurd h
IsBest-of_Improves latest n ns (some r) (inl same, beats, above, all_below) =
    (here same, beats, (above, all_below))
IsBest-of_Improves latest n ns (some r) (inr later, beats, above, all_below) =
    (there later, beats, (above, all_below))

better_market-IsBest :
    (latest : ℕ) (ns : List PriceRow) → IsBest latest ns (better_market latest none ns)
unfolding better_market
better_market-IsBest latest [] = tt
better_market-IsBest latest (n ∷ ns) =
    elim (Bool-cases (ltb (100 * n.modal_price) (105 * latest))) [
      | inl below ↦
          rw below
            (IsBest-skip latest n ns _ (ground (arith, below)) (better_market-IsBest latest ns))
      | inr beats ↦ rw beats (
          IsBest-of_Improves latest n ns _
            (better_market-Improves latest n ns (ground (arith, beats))))
    ]

not-true : (b : Bool) → not b ≡ true → b ≡ false
not-true b h = ground arith

not-false : (b : Bool) → b ≡ false → not b ≡ true
not-false b h = ground arith

module _ (haversine_km : ℕ × ℕ → ℕ × ℕ → ℕ) where
  -- The storage options listed are at most five, in the district or within 40 km, the nearest first.
  near_storage_lem :
      (place : Option (ℕ × ℕ)) (district : ℕ) (rows : List StorageRow)
      → let near = near_storage haversine_km place district rows in
        (length near ≤ 5) × All (λ g. is_near district g ≡ true) near × IsSorted storage_ahead near
  unfolding near_storage
  near_storage_lem place district rows =
      let all_options =
        map
          (λ (s : StorageRow). record {
            row = s;
            distance_km = distance haversine_km place s.place;
          })
          rows in
      let kept_options = filter (is_near district) all_options in
      (
        length-take 5 (sort_by storage_ahead kept_options),
        All-take (λ g. is_near district g ≡ true) 5 (sort_by storage_ahead kept_options)
            (sort_by-All storage_ahead (λ g. is_near district g ≡ true) kept_options
              (All-filter (is_near district) all_options)),
        IsSorted-take storage_ahead 5 (sort_by storage_ahead kept_options)
            (sort_by-IsSorted storage_ahead storage_ahead_total storage_ahead_trans kept_options),
      )

  -- The advice is to hold exactly when nearby storage is listed and the first forecast is at least
  -- 5 % above the latest price without falling afterwards; at most four markets of the rows that were
  -- read, without the one asked for, are compared, all of them if there are no more; a price
  -- elsewhere is named exactly when one of those compared is at least 5 % above, and then it is the
  -- highest of them; the storage listed is at most five options, each in the district or within
  -- 40 km, the nearest first.
  pub window_from_lem :
      (market : Option ℕ) (origin : Option (ℕ × ℕ)) (f : Fetched) (latest : PriceRow)
      → let w = window_from haversine_km market origin f latest in
        let district = (place_and_district market origin (nested latest) f.market_rows).1 in
        ((w.recommendation ≡ hold) ↔ (
          (is_empty w.storage_options ≡ false)
          × (forecast_up w.latest_price w.forecast_day1 w.forecast_trend ≡ true)))
        × IsBest latest.modal_price w.nearby w.better
        × (length w.storage_options ≤ 5)
        × All (λ g. is_near district g ≡ true) w.storage_options
        × IsSorted storage_ahead w.storage_options
        × AreCompared market f.others w.nearby
  unfolding window_from
  window_from_lem market origin f latest =
      let w = window_from haversine_km market origin f latest in
      let (place, district) = place_and_district market origin (nested latest) f.market_rows in
      let falls = forecast_down w.latest_price w.forecast_day1 w.forecast_trend in
      let rises = forecast_up w.latest_price w.forecast_day1 w.forecast_trend in
      let options = near_storage_lem place district f.storage_rows in
      let holds = (decide_iff w.supply_pressure (not (is_empty w.storage_options)) rises falls).0 in
      (
        ((λ h. (not-true _ (holds.0 h).0, (holds.0 h).1)), (λ k. holds.1 (not-false _ k.0, k.1))),
        better_market-IsBest latest.modal_price w.nearby,
        options.0,
        options.1,
        options.2,
        (
          nearby_markets-length market 4 [] f.others,
          nearby_markets-different market 4 [] f.others,
          All-map (λ n (e, other, fresh). (e, other)) (nearby_markets market 4 [] f.others)
              (nearby_markets-others market 4 [] f.others),
          nearby_markets-covered market 4 [] f.others,
        ),
      )
