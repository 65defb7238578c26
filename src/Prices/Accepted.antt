-- ===== src/Prices/Accepted.antt =====
-- What every accepted price meets.
use sih.Prelude.{
  Bool, Bool-cases, Option, Option-cases, arith, false, inl, inr, none, refl, some, true, ℕ, ◌≡◌,
}
use sih.Prices.Names.{Text, norm_key}
use sih.Prices.Validator.{
  Floats, RawPriceRecord, ValidPrice, above, below, check_order, check_prices, conversion,
  convert_optional, invalid, invalid_max, invalid_min, invalid_modal, modal_above_max,
  modal_below_min, out_of_band, outside_band, priced_row, rejected_for, unknown_commodity,
  unknown_unit, valid, validate_and_normalize,
}

-- What is relied on of floats: finite ones are compared as numbers are.
pub record FiniteOrder (F : Floats) : Type 0 where
  pub lt_or_leq :
      (a b : F.Float)
      → F.is_finite a ≡ true
      → F.is_finite b ≡ true
      → F.lt a b ≡ false
      → F.leq b a ≡ true
  pub leq_or_lt :
      (a b : F.Float)
      → F.is_finite a ≡ true
      → F.is_finite b ≡ true
      → F.leq a b ≡ false
      → F.lt b a ≡ true
  pub zero_finite : F.is_finite F.zero_f ≡ true

module _ (F : Floats) (order : FiniteOrder F) where
  -- Finite and above zero.
  abbrev pub IsPrice : F.Float → Type 0
  IsPrice p = (F.is_finite p ≡ true) × (F.lt F.zero_f p ≡ true)

  abbrev pub IsLower : F.Float → Option F.Float → Type 0
  IsLower modal none = Unit
  IsLower modal (some lo) = IsPrice lo × (F.leq lo modal ≡ true)

  abbrev pub IsUpper : F.Float → Option F.Float → Type 0
  IsUpper modal none = Unit
  IsUpper modal (some hi) = IsPrice hi × (F.leq modal hi ≡ true)

  abbrev pub IsFiniteBand : Option (F.Float × F.Float) → Type 0
  IsFiniteBand none = Unit
  IsFiniteBand (some (lo, hi)) = (F.is_finite lo ≡ true) × (F.is_finite hi ≡ true)

  abbrev pub IsInBand : F.Float → Option (F.Float × F.Float) → Type 0
  IsInBand modal none = Unit
  IsInBand modal (some (lo, hi)) = (F.leq lo modal ≡ true) × (F.leq modal hi ≡ true)

  IsPrice-of_valid : (p : F.Float) → invalid F p ≡ false → IsPrice p
  IsPrice-of_valid p h =
      let finite : F.is_finite p ≡ true = ground (arith, h) in
      (finite, order.leq_or_lt p F.zero_f finite order.zero_finite (ground (arith, h)))

  -- A converted optional price is one, if it is there.
  abbrev IsOptionalPrice : Option F.Float → Type 0
  IsOptionalPrice none = Unit
  IsOptionalPrice (some p) = IsPrice p

  convert-IsOptionalPrice :
      (m : F.Float) (p q : Option F.Float) → convert_optional F m p ≡ some q → IsOptionalPrice q
  unfolding convert_optional
  convert-IsOptionalPrice m none q h = let same : q ≡ none = cc in rw same tt
  convert-IsOptionalPrice m (some p) q h = elim (Bool-cases (invalid F (F.times p m))) [
    | inl bad ↦ let clash : none ≡ some q = rw bad at h in cc
    | inr good ↦
        let kept_price : some (some (F.times p m)) ≡ some q = rw good at h in
        let same : q ≡ some (F.times p m) = cc in rw same (IsPrice-of_valid (F.times p m) good)
  ]

  IsLower-of :
      (modal : F.Float) (lo : Option F.Float)
      → F.is_finite modal ≡ true
      → IsOptionalPrice lo
      → below F modal lo ≡ false
      → IsLower modal lo
  IsLower-of modal none f p h = tt
  IsLower-of modal (some lo) f p h = (p, order.lt_or_leq modal lo f p.0 h)

  IsUpper-of :
      (modal : F.Float) (hi : Option F.Float)
      → F.is_finite modal ≡ true
      → IsOptionalPrice hi
      → above F modal hi ≡ false
      → IsUpper modal hi
  IsUpper-of modal none f p h = tt
  IsUpper-of modal (some hi) f p h = (p, order.lt_or_leq hi modal p.0 f h)

  IsInBand-of :
      (modal : F.Float) (band : Option (F.Float × F.Float))
      → F.is_finite modal ≡ true
      → IsFiniteBand band
      → out_of_band F modal band ≡ false
      → IsInBand modal band
  IsInBand-of modal none f p h = tt
  IsInBand-of modal (some (lo, hi)) f p h = (
    order.lt_or_leq modal lo f p.0 (ground (arith, h)),
    order.lt_or_leq hi modal p.1 f (ground (arith, h)),
  )

  -- The promises of an accepted price.
  abbrev pub Accepted : ValidPrice F → Option (F.Float × F.Float) → Type 0
  Accepted v band =
      IsPrice v.modal_norm
      × IsLower v.modal_norm v.min_norm
      × IsUpper v.modal_norm v.max_norm
      × IsInBand v.modal_norm band

  check_order-Accepted :
      (w v : ValidPrice F) (band : Option (F.Float × F.Float))
      → IsFiniteBand band
      → IsPrice w.modal_norm
      → IsOptionalPrice w.min_norm
      → IsOptionalPrice w.max_norm
      → check_order F w band ≡ valid v
      → (v ≡ w) × Accepted w band
  unfolding check_order
  check_order-Accepted w v band fb p lo hi h = elim (Bool-cases (below F w.modal_norm w.min_norm)) [
    | inl under ↦ let clash : rejected_for modal_below_min ≡ valid v = rw under at h in cc
    | inr not_under ↦ elim (Bool-cases (above F w.modal_norm w.max_norm)) [
      | inl too_high ↦
          let clash : rejected_for modal_above_max ≡ valid v = rw (not_under, too_high) at h in cc
      | inr not_over ↦ elim (Bool-cases (out_of_band F w.modal_norm band)) [
        | inl out ↦
            let clash : rejected_for outside_band ≡ valid v = rw (not_under, not_over, out) at h in
            cc
        | inr within ↦
            let same : valid w ≡ valid v = rw (not_under, not_over, within) at h in
            (
              cc,
              (
                p,
                IsLower-of w.modal_norm w.min_norm p.0 lo not_under,
                IsUpper-of w.modal_norm w.max_norm p.0 hi not_over,
                IsInBand-of w.modal_norm band p.0 fb within,
              ),
            )
      ]
    ]
  ]

  check_prices-Accepted :
      (r : RawPriceRecord F) (k : ℕ) (m : F.Float) (v : ValidPrice F)
      (band : Option (F.Float × F.Float))
      → IsFiniteBand band
      → check_prices F r k m band ≡ valid v
      → (v.commodity_id ≡ k) × (v.modal_norm ≡ F.times r.modal_price m) × Accepted v band
  unfolding check_prices
  check_prices-Accepted r k m v band fb h =
      elim (Bool-cases (invalid F (F.times r.modal_price m))) [
        | inl bad ↦ let clash : rejected_for invalid_modal ≡ valid v = ground (arith, bad, h) in cc
        | inr good ↦ elim (Option-cases (convert_optional F m r.min_price)) [
          | inl bad_min ↦
              let clash : rejected_for invalid_min ≡ valid v = ground (arith, good, bad_min, h) in
              cc
          | inr (lo, min_ok) ↦ elim (Option-cases (convert_optional F m r.max_price)) [
            | inl bad_max ↦
                let clash : rejected_for invalid_max ≡ valid v =
                  ground (arith, good, min_ok, bad_max, h) in
                cc
            | inr (hi, max_ok) ↦
                let w = priced_row F r k m lo hi in
                let checked : check_order F w band ≡ valid v =
                  ground (arith, good, min_ok, max_ok, h) in
                let (same, promises) =
                  check_order-Accepted w v band fb (IsPrice-of_valid (F.times r.modal_price m) good)
                    (convert-IsOptionalPrice m r.min_price lo min_ok)
                    (convert-IsOptionalPrice m r.max_price hi max_ok) checked in
                rw same (refl, refl, promises)
          ]
        ]
      ]

  -- An accepted record has a known commodity and a known unit, and the price stored is its modal
  -- price times the factor of the unit; it is finite and above zero, the lowest price is at most it
  -- and the highest at least it, where they are given, and it lies in the sanity band of the
  -- commodity, where it has one: for bands that are finite.
  pub validate_and_normalize-Accepted :
      (is_space : ℕ → Bool) (lower : Text → Text) (ids : ℕ → Text → Option ℕ)
      (bands : ℕ → Option (F.Float × F.Float)) (r : RawPriceRecord F) (v : ValidPrice F)
      → ((k : ℕ) → IsFiniteBand (bands k))
      → validate_and_normalize F is_space lower ids bands r ≡ valid v
      → (m : F.Float) × (ids r.source (norm_key is_space lower r.commodity_name)
          ≡ some v.commodity_id)
        × (conversion F r.unit ≡ some m)
        × (v.modal_norm ≡ F.times r.modal_price m)
        × Accepted v (bands v.commodity_id)
  unfolding validate_and_normalize
  validate_and_normalize-Accepted is_space lower ids bands r v fb h =
      elim (Option-cases (ids r.source (norm_key is_space lower r.commodity_name))) [
        | inl unknown ↦
            let clash : rejected_for unknown_commodity ≡ valid v = ground (arith, unknown, h) in cc
        | inr (k, known) ↦ elim (Option-cases (conversion F r.unit)) [
          | inl no_unit ↦
              let clash : rejected_for unknown_unit ≡ valid v = ground (arith, known, no_unit, h) in
              cc
          | inr (m, converts) ↦
              let checked : check_prices F r k m (bands k) ≡ valid v =
                ground (arith, known, converts, h) in
              let (same, modal, promises) =
                check_prices-Accepted r k m v (bands k) (fb k) checked in
              (m, rw same known, converts, modal, rw same promises)
        ]
      ]
