-- ===== src/Ingestion/Metadata.antt =====
-- ingestion/runner.py: the reference data of `IngestionRunner.run`, and the row that a fetched record
-- becomes. What the queries return are arguments.
use sih.Prelude.{
  Bool, List, Option, [], false, if◌then◌else◌, none, not, some, ℕ, ◌&&◌, ◌++◌, ◌==◌, ◌||◌, ◌∷◌,
}
use sih.Prices.Names.{Text, norm_key, same_text}
use sih.Prices.Validator.{
  Floats, RawPriceRecord, ValidPrice, rejected_for, valid, validate_and_normalize,
}

pub record AliasEntry : Type 0 where
  pub source : ℕ
  pub source_key : Text
  pub commodity_id : ℕ

pub record CommodityBand (F : Floats) : Type 0 where
  pub id : ℕ
  pub sanity_min : Option F.Float
  pub sanity_max : Option F.Float

pub record MarketEntry : Type 0 where
  pub id : ℕ
  pub source_code : Text
  pub name : Text

-- The rows of commodity_alias, commodities and the markets of the district.
pub record Metadata (F : Floats) : Type 0 where
  pub aliases : List AliasEntry
  pub commodities : List (CommodityBand F)
  pub markets : List MarketEntry

-- A row for the table of prices.
pub record PriceEntry (F : Floats) : Type 0 where
  pub price : ValidPrice F
  pub market_id : ℕ

-- The last element that passes the test: what a dict holds that is filled from the list.
abbrev pub find_last : {A : Type 0} → (A → Bool) → List A → Option A
find_last p [] = none
find_last p (x ∷ xs) = elim (find_last p xs) [
  | none ↦ (if p x then some x else none)
  | some y ↦ some y
]

abbrev pub contains : List Text → Text → Bool
contains [] t = false
contains (s ∷ ss) t = same_text s t || contains ss t

-- The distinct keys of a source, in their order.
unfoldable pub fetch_keys : ℕ → List Text → List AliasEntry → List Text
fetch_keys source known [] = known
fetch_keys source known (a ∷ rest) =
    fetch_keys source
      (if a.source == source && not (contains known a.source_key)
        then known ++ a.source_key ∷ []
        else known)
      rest

module _ (F : Floats) (is_space : ℕ → Bool) (lower : Text → Text) (meta : Metadata F) where
  abbrev pub norm : Text → Text
  norm = norm_key is_space lower

  unfoldable pub commodity_of : ℕ → Text → Option ℕ
  commodity_of source key =
      elim (find_last (λ (a : AliasEntry). a.source == source && same_text (norm a.source_key) key)
        meta.aliases) [ none ↦ none | some a ↦ some a.commodity_id ]

  abbrev pub full_band : Option F.Float → Option F.Float → Option (F.Float × F.Float)
  full_band (some least) (some most) = some (least, most)
  full_band _ _ = none

  unfoldable pub band_of : ℕ → Option (F.Float × F.Float)
  band_of i = elim (find_last (λ (c : CommodityBand F). c.id == i) meta.commodities) [
    | none ↦ none
    | some c ↦ full_band c.sanity_min c.sanity_max
  ]

  -- An empty key is in no map; of two markets with a key the later one counts.
  unfoldable pub market_of : Text → Option ℕ
  market_of [] = none
  market_of (k ∷ ks) =
      elim (find_last
        (λ (m : MarketEntry).
          same_text (norm m.source_code) (k ∷ ks) || same_text (norm m.name) (k ∷ ks))
        meta.markets) [ none ↦ none | some m ↦ some m.id ]

  -- The row of a fetched record: none when it is rejected.
  unfoldable pub entry_of : RawPriceRecord F → Option (PriceEntry F)
  unfolding commodity_of band_of market_of
  entry_of raw = elim (validate_and_normalize F is_space lower commodity_of band_of raw) [
    | rejected_for reason ↦ none
    | valid price ↦ elim (market_of (norm raw.market_name)) [
      | none ↦ none
      | some m ↦ some (record { price = price; market_id = m })
    ]
  ]
