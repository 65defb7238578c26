-- ===== src/Prices/Validator.antt =====
-- ingestion/validator.py: `PriceValidator`. Python's floats are a parameter with the operations that
-- the code uses; the unit of a record is read after lower() and strip(); its raw payload and
-- the texts that are only for display are left out.
use sih.Prelude.{Bool, Option, [], false, if◌then◌else◌, none, not, some, ℕ, ◌||◌, ◌∷◌}
use sih.Prices.Names.{Text, norm_key}

pub record Floats : Type 1 where
  pub Float : Type 0
  pub times : Float → Float → Float
  pub is_finite : Float → Bool
  pub lt : Float → Float → Bool
  pub leq : Float → Float → Bool
  pub zero_f : Float
  pub one : Float
  pub hundred : Float
  pub tenth : Float

pub data UnitName : Type 0 where
  quintal qtl hundred_kg kg kilogram ton tonne mt : UnitName
  unlisted : UnitName

pub data Rejection : Type 0 where
  unknown_commodity unknown_unit invalid_modal invalid_min invalid_max : Rejection
  modal_below_min modal_above_max outside_band : Rejection

-- "General"
abbrev pub general_text : Text
general_text = 71 ∷ 101 ∷ 110 ∷ 101 ∷ 114 ∷ 97 ∷ 108 ∷ []

module _ (F : Floats) where
  pub record RawPriceRecord : Type 0 where
    pub market_name : Text
    pub commodity_name : Text
    pub arrival_date : ℕ
    pub min_price : Option F.Float
    pub max_price : Option F.Float
    pub modal_price : F.Float
    pub unit : UnitName
    pub arrival_qty : Option F.Float
    pub variety : Text
    pub grade : Text
    pub source : ℕ

  -- The row that is stored, its prices in rupees per quintal.
  pub record ValidPrice : Type 0 where
    pub commodity_id : ℕ
    pub min_norm : Option F.Float
    pub max_norm : Option F.Float
    pub modal_norm : F.Float
    pub arrival_date : ℕ
    pub arrival_qty : Option F.Float
    pub variety : Text
    pub grade : Text
    pub source : ℕ

  pub data Outcome : Type 0 where
    valid : ValidPrice → Outcome
    rejected_for : Rejection → Outcome

  -- `UNIT_CONVERSIONS.get(unit)`
  unfoldable pub conversion : UnitName → Option F.Float
  conversion quintal = some F.one
  conversion qtl = some F.one
  conversion hundred_kg = some F.one
  conversion kg = some F.hundred
  conversion kilogram = some F.hundred
  conversion ton = some F.tenth
  conversion tonne = some F.tenth
  conversion mt = some F.tenth
  conversion unlisted = none

  -- `not math.isfinite(price) or price <= 0`
  abbrev pub invalid : F.Float → Bool
  invalid p = not (F.is_finite p) || F.leq p F.zero_f

  -- An optional price, converted: none when it is rejected.
  unfoldable pub convert_optional : F.Float → Option F.Float → Option (Option F.Float)
  convert_optional m none = some none
  convert_optional m (some p) = if invalid (F.times p m) then none else some (some (F.times p m))

  abbrev pub below : F.Float → Option F.Float → Bool
  below modal none = false
  below modal (some lo) = F.lt modal lo

  abbrev pub above : F.Float → Option F.Float → Bool
  above modal none = false
  above modal (some hi) = F.lt hi modal

  -- The sanity band of the commodity, when it has one.
  abbrev pub out_of_band : F.Float → Option (F.Float × F.Float) → Bool
  out_of_band modal none = false
  out_of_band modal (some (lo, hi)) = F.lt modal lo || F.lt hi modal

  -- The checks of the order and of the band.
  unfoldable pub check_order : ValidPrice → Option (F.Float × F.Float) → Outcome
  check_order v band =
      if below v.modal_norm v.min_norm
      then rejected_for modal_below_min
      else if above v.modal_norm v.max_norm
      then rejected_for modal_above_max
      else if out_of_band v.modal_norm band
      then rejected_for outside_band
      else valid v

  -- `record.variety or "General"`
  abbrev pub or_general : Text → Text
  or_general [] = general_text
  or_general (c ∷ cs) = c ∷ cs

  abbrev pub priced_row :
      RawPriceRecord → ℕ → F.Float → Option F.Float → Option F.Float → ValidPrice
  priced_row r commodity m lo hi = record {
    commodity_id = commodity;
    min_norm = lo;
    max_norm = hi;
    modal_norm = F.times r.modal_price m;
    arrival_date = r.arrival_date;
    arrival_qty = r.arrival_qty;
    variety = or_general r.variety;
    grade = or_general r.grade;
    source = r.source;
  }

  -- The checks from the unit's conversion on.
  unfoldable pub check_prices : RawPriceRecord → ℕ → F.Float → Option (F.Float × F.Float) → Outcome
  unfolding convert_optional check_order
  check_prices r commodity m band =
      if invalid (F.times r.modal_price m)
      then rejected_for invalid_modal
      else elim (convert_optional m r.min_price) [
        | none ↦ rejected_for invalid_min
        | some lo ↦ elim (convert_optional m r.max_price) [
          | none ↦ rejected_for invalid_max
          | some hi ↦ check_order (priced_row r commodity m lo hi) band
        ]
      ]

  module _ (is_space : ℕ → Bool) (lower : Text → Text) (commodity_id_map : ℕ → Text → Option ℕ)
      (sanity_bands : ℕ → Option (F.Float × F.Float)) where
    unfoldable pub validate_and_normalize : RawPriceRecord → Outcome
    unfolding conversion check_prices
    validate_and_normalize r =
        elim (commodity_id_map r.source (norm_key is_space lower r.commodity_name)) [
          | none ↦ rejected_for unknown_commodity
          | some commodity ↦ elim (conversion r.unit) [
            | none ↦ rejected_for unknown_unit
            | some m ↦ check_prices r commodity m (sanity_bands commodity)
          ]
        ]
