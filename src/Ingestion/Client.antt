-- ===== src/Ingestion/Client.antt =====
-- ingestion/data_gov_in.py: `DataGovInAdapter.fetch_prices` as a whole: the spellings of the district,
-- the requests, and what is made of the records. A spelling is a number.
pub mod Usable
use sih.Prelude.{Bool, List, Option, filter, none, not, some, ℕ, ◌==◌}
use sih.Ingestion.Pages.{Attempt, Fetched, fetch_error, fetch_raw, fetched, raised}
use sih.Ingestion.Records.{DateFormat, Item, parse_items}
use sih.Prices.Names.{Text}
use sih.Prices.Validator.{Floats, RawPriceRecord}

-- `[s for s in DISTRICT_SPELLINGS.get(district, []) if s != district]`
abbrev pub other_spellings : ℕ → List ℕ → List ℕ
other_spellings district listed = filter (λ s. not (s == district)) listed

module _ (F : Floats) (is_space : ℕ → Bool) (strptime : DateFormat → Text → Option ℕ)
    (to_float : Text → Option F.Float) (api : ℕ → ℕ → ℕ → Attempt Item) where
  -- The loop over the items that were received. The pages never run out of fuel.
  abbrev pub parse_fetched : ℕ → Fetched (Option (List Item)) → Fetched (List (RawPriceRecord F))
  parse_fetched source fetch_error = fetch_error
  parse_fetched source raised = raised
  parse_fetched source (fetched none) = raised
  parse_fetched source (fetched (some all_raw)) =
      fetched (parse_items F is_space strptime to_float source all_raw)

  -- `fetch_prices`, with the source's name and the listed spellings of the district.
  unfoldable pub fetch_prices : ℕ → ℕ → List ℕ → Fetched (List (RawPriceRecord F))
  unfolding fetch_raw parse_items
  fetch_prices source district listed =
      parse_fetched source (fetch_raw api district (other_spellings district listed))
