-- ===== src/Prices/Tests.antt =====
-- The validator on concrete records, with tenths of a rupee for floats.
use sih.Prelude.{
  All, Bool, Elem, List, Option, [], arith, if◌then◌else◌, leb, ltb, map, none, refl, some, true, ℕ,
  ◌*◌, ◌/◌, ◌==◌, ◌∷◌, ◌≡◌,
}
use sih.Prelude.Sort.{insert_by, sort_by}
use sih.Market.Reliability.{mem}
use sih.Prices.Accepted.{Accepted, FiniteOrder, validate_and_normalize-Accepted}
use sih.Prices.Names.{Text, lstrip, norm_key, rstrip, same_text, strip, words_from}
use sih.Prices.Series.{
  Observation, agmarknet, build_daily_series, choose, data_gov_in, days_of, manual,
}
use sih.Prices.Series.Choice.{IsAscending, IsPoint, build_daily_series_lem}
use sih.Prices.Validator.{
  Floats, RawPriceRecord, ValidPrice, check_order, check_prices, conversion, convert_optional,
  general_text, kg, valid, validate_and_normalize,
}

abbrev pub tenths : Floats
tenths = record {
  Float = ℕ;
  times = λ a b. (a * b) / 10;
  is_finite = λ a. true;
  lt = λ a b. ltb a b;
  leq = λ a b. leb a b;
  zero_f = 0;
  one = 10;
  hundred = 1000;
  tenth = 1;
}

tenths_order : FiniteOrder tenths
tenths_order = record {
  lt_or_leq = λ a b f g h. ground (arith, h);
  leq_or_lt = λ a b f g h. ground (arith, h);
  zero_finite = refl;
}

-- 22 rupees for a kilogram, between 20 and 25.
abbrev pub onion_record : RawPriceRecord tenths
onion_record = record {
  market_name = 97 ∷ [];
  commodity_name = 32 ∷ 98 ∷ 32 ∷ 32 ∷ 99 ∷ [];
  arrival_date = 5;
  min_price = some 200;
  max_price = some 250;
  modal_price = 220;
  unit = kg;
  arrival_qty = none;
  variety = [];
  grade = 65 ∷ [];
  source = 1;
}

abbrev known_ids : ℕ → Text → Option ℕ
known_ids s n = if same_text n (98 ∷ 32 ∷ 99 ∷ []) then some 6 else none

abbrev pub blank : ℕ → Bool
blank c = c == 32

abbrev wide_band : ℕ → Option (ℕ × ℕ)
wide_band k = some (1000, 100_000)

abbrev onion_price : ValidPrice tenths
onion_price = record {
  commodity_id = 6;
  min_norm = some 20_000;
  max_norm = some 25_000;
  modal_norm = 22_000;
  arrival_date = 5;
  arrival_qty = none;
  variety = general_text;
  grade = 65 ∷ [];
  source = 1;
}

accepted_now :
    validate_and_normalize tenths blank (λ s. s) known_ids wide_band onion_record
    ≡ valid onion_price
unfolding validate_and_normalize norm_key strip lstrip rstrip words_from conversion check_prices
    convert_optional check_order
accepted_now = refl

validate_and_normalize-Accepted_example :
    (m : ℕ) × (known_ids 1 (norm_key blank (λ s. s) onion_record.commodity_name) ≡ some 6)
    × (conversion tenths kg ≡ some m)
    × (22_000 ≡ tenths.times 220 m)
    × Accepted tenths tenths_order onion_price (wide_band 6)
validate_and_normalize-Accepted_example =
    validate_and_normalize-Accepted tenths tenths_order blank (λ s. s) known_ids wide_band
      onion_record onion_price (λ k. (refl, refl)) accepted_now

-- Two rows of one day, of which the government's counts, and one of the day before.
abbrev two_days : List Observation
two_days =
    record { day = 9; source = agmarknet; variety = none; modal = 180_000 }
    ∷ record { day = 9; source = data_gov_in; variety = some 3; modal = 200_000 }
    ∷ record { day = 8; source = manual; variety = none; modal = 170_000 }
    ∷ []

daily : build_daily_series two_days ≡ (8, 170_000) ∷ (9, 200_000) ∷ []
unfolding build_daily_series choose days_of sort_by insert_by
daily = refl

build_daily_series_lem_example :
    let series = build_daily_series two_days in
    IsAscending series
    × All (IsPoint two_days) series
    × ((r : Observation) → Elem r two_days → mem r.day (map (λ e. e.0) series) ≡ true)
build_daily_series_lem_example = build_daily_series_lem two_days

-- Two words with spaces around them.
abbrev spaced : Text
spaced = 32 ∷ 98 ∷ 32 ∷ 32 ∷ 99 ∷ 32 ∷ []

spaced_key : norm_key blank (λ s. s) spaced ≡ 98 ∷ 32 ∷ 99 ∷ []
unfolding norm_key strip lstrip rstrip words_from
spaced_key = refl
