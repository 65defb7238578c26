-- ===== src/Ingestion/Tests.antt =====
-- Concrete runs of the ingestion.
use sih.Prelude.{
  All, Bool-cases, Elem, List, Option, [], if◌then◌else◌, inl, inr, length, ltb, map, none, refl,
  some, take, ℕ, ◌&&◌, ◌+◌, ◌-◌, ◌==◌, ◌↔◌, ◌∷◌, ◌≡◌, ◌≢◌,
}
use sih.Prelude.Sort.{drop, take-append-drop}
use sih.Ingestion.Client.{fetch_prices}
use sih.Ingestion.Client.Usable.{IsUsable, fetch_prices_lem}
use sih.Ingestion.Metadata.{
  Metadata, PriceEntry, band_of, commodity_of, entry_of, fetch_keys, market_of,
}
use sih.Ingestion.Pages.{
  Attempt, api_page_size, fetch_error, fetch_more, fetch_pages, fetch_raw, fetch_rest, fetched,
  is_transient, received, retry_from, status_error, try_spelling, try_spellings,
}
use sih.Ingestion.Pages.Complete.{fetch_raw-IsPrefix}
use sih.Ingestion.Pages.Whole.{IsPrefix, ServesPrefixes}
use sih.Ingestion.Records.{
  DateFormat, Item, dashes, first_quantity, iso, modal_of, parse_date, parse_item, parse_items,
  safe_price, slashes,
}
use sih.Ingestion.Runner.{
  Adapter, LogEntry, chunks, count_chunk, key_failed, partial, run, run_adapter, run_adapters,
  run_keys, store_tally, success, tally_entry, tally_key, tally_keys, tally_records, write_chunks,
}
use sih.Ingestion.Runner.Chunks.{IsChunk, chunks_lem, put_together}
use sih.Ingestion.Runner.Counts.{IsAccount, run_lem}
use sih.Ingestion.Runner.Success.{StrictRun, run_keys_iff, success_row}
use sih.Prices.Names.{Text, lstrip, norm_key, rstrip, same_text, strip, words_from}
use sih.Prices.Tests.{blank, onion_record, tenths}
use sih.Prices.Validator.{
  check_order, check_prices, conversion, convert_optional, general_text, quintal,
  validate_and_normalize,
}

-- The letters of the two spellings of a district: the API knows only the second.
abbrev onion_days : ℕ → List ℕ
onion_days s = if s == 2 then 11 ∷ 12 ∷ 13 ∷ [] else []

-- An item of market "a" with a highest price of 2 and a quantity of 7.
abbrev posted : Option Text → Item
posted price = record {
  arrival_date = some (53 ∷ []);
  modal_price = price;
  min_price = none;
  max_price = some (50 ∷ []);
  variety = none;
  market = some (32 ∷ 97 ∷ []);
  commodity = some (98 ∷ []);
  grade = some (32 ∷ []);
  quantities = none ∷ some (55 ∷ []) ∷ [];
}

-- The API knows only the second spelling of the district.
abbrev posted_items : ℕ → List Item
posted_items s = if s == 2 then posted (some (52 ∷ [])) ∷ posted none ∷ [] else []

abbrev honest_api : ℕ → ℕ → ℕ → Attempt Item
honest_api s o n =
    received (some (take api_page_size (drop o (posted_items s)))) (some (length (posted_items s)))

-- One digit.
abbrev digit : Text → Option ℕ
digit [] = none
digit (c ∷ cs) = some (c - 48)

abbrev iso_only : DateFormat → Text → Option ℕ
iso_only slashes t = none
iso_only iso t = digit t
iso_only dashes t = none

fetch_prices_lem_example :
    let records = parse_items tenths blank iso_only digit 1 (posted_items 2) in
    (fetch_prices tenths blank iso_only digit honest_api 1 1 (1 ∷ 2 ∷ []) ≡ fetched records)
    × All (IsUsable tenths blank iso_only digit 1) records
fetch_prices_lem_example =
    fetch_prices_lem tenths blank iso_only digit honest_api posted_items 1 1 (1 ∷ 2 ∷ [])
      (λ s o n. refl)

-- The item without a price is left out.
one_record :
    parse_items tenths blank iso_only digit 1 (posted_items 2)
    ≡ record {
      market_name = 97 ∷ [];
      commodity_name = 98 ∷ [];
      arrival_date = 5;
      min_price = none;
      max_price = some 2;
      modal_price = 4;
      unit = quintal;
      arrival_qty = some 7;
      variety = general_text;
      grade = general_text;
      source = 1;
    }
      ∷ []
unfolding parse_items parse_item parse_date safe_price first_quantity modal_of strip lstrip rstrip
one_record = refl

-- Two records at a time; the third attempt for offset 2 is the first that goes through.
abbrev slow_api : ℕ → ℕ → ℕ → Attempt ℕ
slow_api s o n =
    if o == 2 && ltb n 2
    then status_error 503
    else received (some (take 2 (drop o (onion_days s)))) (some 3)

slow_api-ServesPrefixes : ServesPrefixes slow_api onion_days
slow_api-ServesPrefixes s o n h = elim (Bool-cases (o == 2 && ltb n 2)) [
  | inl t ↦ rw t (drop o (onion_days s), refl)
  | inr f ↦ rw f (drop 2 (drop o (onion_days s)), take-append-drop 2 (drop o (onion_days s)))
]

slow_lem : fetch_raw slow_api 2 [] ≡ fetched (some (11 ∷ 12 ∷ 13 ∷ []))
unfolding fetch_raw try_spellings try_spelling fetch_rest fetch_more fetch_pages retry_from
    is_transient
slow_lem = refl

fetch_raw-IsPrefix_example :
    (s : ℕ) × (out : List ℕ) × Elem s (2 ∷ [])
    × (some (11 ∷ 12 ∷ 13 ∷ []) ≡ some out)
    × IsPrefix out (onion_days s)
fetch_raw-IsPrefix_example =
    fetch_raw-IsPrefix slow_api onion_days 2 [] slow_api-ServesPrefixes slow_lem

abbrev two_aliases : Metadata tenths
two_aliases = record {
  aliases =
      record { source = 1; source_key = 98 ∷ 32 ∷ 99 ∷ []; commodity_id = 6 }
      ∷ record { source = 1; source_key = 100 ∷ []; commodity_id = 7 }
      ∷ [];
  commodities = [];
  markets = record { id = 4; source_code = []; name = 97 ∷ [] } ∷ [];
}

-- The second key cannot be fetched.
abbrev half_source : Adapter tenths
half_source = record {
  source_name = 1;
  fetch_prices = λ k. if same_text k (100 ∷ []) then fetch_error else fetched (onion_record ∷ []);
}

-- A table that counts its rows.
abbrev count_rows : List (PriceEntry tenths) → ℕ → Option ℕ
count_rows rows n = some (n + length rows)

half_run : run tenths blank (λ s. s) count_rows (some two_aliases) (half_source ∷ []) 0 ≡ (
  record {
    source = some 1;
    status = partial;
    records_seen = 1;
    records_written = 1;
    records_rejected = 0;
    problems = key_failed ∷ [];
  }
      ∷ [],
  1,
)
unfolding run run_adapters run_adapter run_keys tally_keys tally_key tally_records tally_entry
    store_tally write_chunks count_chunk chunks fetch_keys entry_of commodity_of band_of market_of
    validate_and_normalize norm_key strip lstrip rstrip words_from conversion check_prices
    convert_optional check_order
half_run = refl

run_lem_example :
    let log = (run tenths blank (λ s. s) count_rows (some two_aliases) (half_source ∷ []) 0).0 in
    (map (λ (e : LogEntry). e.source) log ≡ some 1 ∷ [])
    × All (IsAccount tenths blank (λ s. s) two_aliases count_rows) log
run_lem_example = run_lem tenths blank (λ s. s) two_aliases count_rows (half_source ∷ []) 0

abbrev one_key : List Text
one_key = (100 ∷ []) ∷ []

run_keys_iff_example :
    let out =
      run_keys tenths blank (λ s. s) two_aliases count_rows 1 half_source.fetch_prices one_key 0 in
    (out.0.status ≡ success) ↔ (
      (es : List (PriceEntry tenths)) × (after : ℕ) × (one_key ≢ [])
      × StrictRun tenths blank
          (λ s. s)
          two_aliases
          count_rows
          half_source.fetch_prices
          one_key
          0
          es
          after
      × (out ≡ (success_row tenths blank (λ s. s) two_aliases count_rows 1 (length es), after)))
run_keys_iff_example =
    run_keys_iff tenths blank (λ s. s) two_aliases count_rows 1 half_source.fetch_prices one_key 0

abbrev three : List ℕ
three = 11 ∷ 12 ∷ 13 ∷ []

chunks_lem_example :
    (put_together (chunks (length three) three) ≡ three) × All IsChunk (chunks (length three) three)
chunks_lem_example = chunks_lem three
