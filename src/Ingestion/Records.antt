-- ===== src/Ingestion/Records.antt =====
-- ingestion/data_gov_in.py: `DataGovInAdapter.fetch_prices` from the records of the API on. A value of
-- the API is the text that `str` makes of it; a value that Python takes for false is none.
-- `datetime.strptime` and `float` are parameters: none is a ValueError.
use sih.Prelude.{Bool, List, Option, [], if◌then◌else◌, none, or_else, some, ℕ, ◌∷◌}
use sih.Prices.Names.{Text, strip}
use sih.Prices.Validator.{Floats, RawPriceRecord, general_text, quintal}

pub record Item : Type 0 where
  pub arrival_date : Option Text
  pub modal_price : Option Text
  pub min_price : Option Text
  pub max_price : Option Text
  pub variety : Option Text
  pub market : Option Text
  pub commodity : Option Text
  pub grade : Option Text
  -- "arrivals", "arrival", "arrival_quantity" and "qty", in this order: none for None and "".
  pub quantities : List (Option Text)

-- "%d/%m/%Y", "%Y-%m-%d" and "%d-%m-%Y".
pub data DateFormat : Type 0 where
  slashes iso dashes : DateFormat

abbrev pub formats : List DateFormat
formats = slashes ∷ iso ∷ dashes ∷ []

-- `(o or d).strip() or d`
abbrev pub text_or : (Text → Text) → Option Text → Text → Text
text_or strip none d = d
text_or strip (some t) d = elim (strip t) [ [] ↦ d | c ∷ cs ↦ c ∷ cs ]

module _ (F : Floats) (is_space : ℕ → Bool) (strptime : DateFormat → Text → Option ℕ)
    (to_float : Text → Option F.Float) where
  -- The first format that fits.
  unfoldable pub parse_date : Text → List DateFormat → Option ℕ
  parse_date t [] = none
  parse_date t (f ∷ fs) =
      let rest = parse_date t fs in elim (strptime f t) [ none ↦ rest | some d ↦ some d ]

  -- `_safe_price`
  unfoldable pub safe_price : Option Text → Option F.Float
  unfolding strip
  safe_price none = none
  safe_price (some t) = elim (to_float (strip is_space t)) [
    | none ↦ none
    | some x ↦ if F.lt F.zero_f x then some x else none
  ]

  -- The first quantity that is a number from 0 on.
  unfoldable pub first_quantity : List (Option Text) → Option F.Float
  unfolding strip
  first_quantity [] = none
  first_quantity (none ∷ qs) = first_quantity qs
  first_quantity (some t ∷ qs) =
      let rest = first_quantity qs in
      elim (to_float (strip is_space t)) [
        | none ↦ rest
        | some q ↦ if F.leq F.zero_f q then some q else rest
      ]

  -- `float(modal_str) if modal_str else 0.0`: none when it raises.
  unfoldable pub modal_of : Option Text → Option F.Float
  unfolding strip
  modal_of none = some F.zero_f
  modal_of (some t) = elim (strip is_space t) [ [] ↦ some F.zero_f | c ∷ cs ↦ to_float (c ∷ cs) ]

  -- The record of an item whose date and modal price are read.
  abbrev pub record_of : ℕ → Item → ℕ → F.Float → RawPriceRecord F
  record_of source item date modal = record {
    market_name = text_or (strip is_space) item.market [];
    commodity_name = text_or (strip is_space) item.commodity [];
    arrival_date = date;
    min_price = safe_price item.min_price;
    max_price = safe_price item.max_price;
    modal_price = modal;
    unit = quintal;
    arrival_qty = first_quantity item.quantities;
    variety = text_or (strip is_space) item.variety general_text;
    grade = text_or (strip is_space) item.grade general_text;
    source = source;
  }

  -- The loop's body: none when the item is skipped.
  unfoldable pub parse_item : ℕ → Item → Option (RawPriceRecord F)
  unfolding parse_date safe_price first_quantity modal_of strip
  parse_item source item = elim (strip is_space (or_else item.arrival_date [])) [
    | [] ↦ none
    | c ∷ cs ↦ elim (parse_date (c ∷ cs) formats) [
      | none ↦ none
      | some date ↦ elim (modal_of item.modal_price) [
        | none ↦ none
        | some modal ↦
            if F.leq modal F.zero_f then none else some (record_of source item date modal)
      ]
    ]
  ]

  unfoldable pub parse_items : ℕ → List Item → List (RawPriceRecord F)
  unfolding parse_item
  parse_items source [] = []
  parse_items source (i ∷ is) = elim (parse_item source i) [
    | none ↦ parse_items source is
    | some r ↦ r ∷ parse_items source is
  ]
