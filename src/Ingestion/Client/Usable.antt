-- ===== src/Ingestion/Client/Usable.antt =====
-- What `fetch_prices` returns.
use mathlib.Core.Path.{subst}
use sih.Prelude.{
  All, Bool, Bool-cases, List, Option, Option-cases, [], ap, arith, false, inl, inr, none, or_else,
  refl, some, sym, true, ℕ, ◌==◌, ◌∙◌, ◌∷◌, ◌≡◌, ◌≢◌,
}
use sih.Store.Keys.{List-cases}
use sih.Ingestion.Client.{fetch_prices, other_spellings, parse_fetched}
use sih.Ingestion.Pages.{Attempt, fetched}
use sih.Ingestion.Pages.Honest.{IsHonest, fetch_raw-honest, listed_first, skipped, spelling_of}
use sih.Ingestion.Records.{
  DateFormat, Item, first_quantity, formats, modal_of, parse_date, parse_item, parse_items,
  record_of, safe_price, text_or,
}
use sih.Prices.Names.{Text, strip}
use sih.Prices.Validator.{Floats, RawPriceRecord, quintal}

module _ (F : Floats) (is_space : ℕ → Bool) (strptime : DateFormat → Text → Option ℕ)
    (to_float : Text → Option F.Float) where
  -- An optional number that passes a test, if it is there.
  abbrev pub IsNoneOr : (F.Float → Type 0) → Option F.Float → Type 0
  IsNoneOr P none = Unit
  IsNoneOr P (some x) = P x

  -- A record of this source, per quintal: the modal price is not zero or less, the other prices
  -- are above zero and the quantity is zero or more if they are there, and neither variety nor grade
  -- is empty.
  abbrev pub IsUsable : ℕ → RawPriceRecord F → Type 0
  IsUsable source r =
      (r.source ≡ source)
      × (r.unit ≡ quintal)
      × (F.leq r.modal_price F.zero_f ≡ false)
      × IsNoneOr (λ x. F.lt F.zero_f x ≡ true) r.min_price
      × IsNoneOr (λ x. F.lt F.zero_f x ≡ true) r.max_price
      × IsNoneOr (λ x. F.leq F.zero_f x ≡ true) r.arrival_qty
      × (r.variety ≢ [])
      × (r.grade ≢ [])

  safe_price_lem :
      (t : Option Text)
      → IsNoneOr (λ x. F.lt F.zero_f x ≡ true) (safe_price F is_space strptime to_float t)
  unfolding safe_price
  safe_price_lem none = tt
  safe_price_lem (some t) = elim (Option-cases (to_float (strip is_space t))) [
    | inl e ↦ rw (e, IsNoneOr) tt
    | inr (x, e) ↦ elim (Bool-cases (F.lt F.zero_f x)) [
      | inl t ↦ rw (e, t, IsNoneOr) t
      | inr f ↦ rw (e, f, IsNoneOr) tt
    ]
  ]

  first_quantity_lem :
      (qs : List (Option Text))
      → IsNoneOr (λ x. F.leq F.zero_f x ≡ true) (first_quantity F is_space strptime to_float qs)
  unfolding first_quantity
  first_quantity_lem [] = tt
  first_quantity_lem (none ∷ qs) = first_quantity_lem qs
  first_quantity_lem (some t ∷ qs) = elim (Option-cases (to_float (strip is_space t))) [
    | inl e ↦ rw (e, IsNoneOr) (first_quantity_lem qs)
    | inr (x, e) ↦ elim (Bool-cases (F.leq F.zero_f x)) [
      | inl t ↦ rw (e, t, IsNoneOr) t
      | inr f ↦ rw (e, f, IsNoneOr) (first_quantity_lem qs)
    ]
  ]

  text_or-not_empty :
      (o : Option Text) (c : ℕ) (cs : Text) → text_or (strip is_space) o (c ∷ cs) ≢ []
  text_or-not_empty none c cs h = cc
  text_or-not_empty (some t) c cs h = elim (List-cases (strip is_space t)) [
    | inl e ↦ let clash : c ∷ cs ≡ [] = rw (e, text_or) at h in cc
    | inr (d, ds, e) ↦ let clash : d ∷ ds ≡ [] = rw (e, text_or) at h in cc
  ]

  record_of-IsUsable :
      (source : ℕ) (i : Item) (date : ℕ) (modal : F.Float)
      → F.leq modal F.zero_f ≡ false
      → IsUsable source (record_of F is_space strptime to_float source i date modal)
  record_of-IsUsable source i date modal f = (
    refl,
    refl,
    f,
    safe_price_lem i.min_price,
    safe_price_lem i.max_price,
    first_quantity_lem i.quantities,
    text_or-not_empty i.variety _ _,
    text_or-not_empty i.grade _ _,
  )

  parse_item-IsUsable :
      (source : ℕ) (i : Item)
      → (r : RawPriceRecord F) → parse_item F is_space strptime to_float source i ≡ some r
      → IsUsable source r
  unfolding parse_item
  parse_item-IsUsable source i r h =
      let date_text : Text = strip is_space (or_else i.arrival_date []) in
      elim (List-cases date_text) [
        | inl e ↦ let clash : none ≡ some r = rw (e, parse_item) at h in cc
        | inr (c, cs, e) ↦
            elim (Option-cases (parse_date F is_space strptime to_float (c ∷ cs) formats)) [
              | inl e' ↦ let clash : none ≡ some r = rw (e, e', parse_item) at h in cc
              | inr (date, e') ↦
                  elim (Option-cases (modal_of F is_space strptime to_float i.modal_price)) [
                    | inl m ↦ let clash : none ≡ some r = rw (e, e', m, parse_item) at h in cc
                    | inr (modal, m) ↦ elim (Bool-cases (F.leq modal F.zero_f)) [
                      | inl t ↦ let clash : none ≡ some r = rw (e, e', m, t, parse_item) at h in cc
                      | inr f ↦
                          let same : some
                                (record_of F is_space strptime to_float source i date modal)
                              ≡ some r =
                            rw (e, e', m, f, parse_item) at h in
                          let inner : record_of F is_space strptime to_float source i date modal
                              ≡ r =
                            cc in
                          subst (IsUsable source) inner (record_of-IsUsable source i date modal f)
                    ]
                  ]
            ]
      ]

  parse_items-IsUsable :
      (source : ℕ) (is : List Item)
      → All (IsUsable source) (parse_items F is_space strptime to_float source is)
  unfolding parse_items
  parse_items-IsUsable source [] = tt
  parse_items-IsUsable source (i ∷ is) =
      elim (Option-cases (parse_item F is_space strptime to_float source i)) [
        | inl e ↦ rw (e, All) (parse_items-IsUsable source is)
        | inr (r, e) ↦
            rw (e, All) (parse_item-IsUsable source i r e, parse_items-IsUsable source is)
      ]

  module _ (api : ℕ → ℕ → ℕ → Attempt Item) (lists : ℕ → List Item) where
    -- Dropping the repeats of the district does not change which spelling is used.
    spelling_of-other_spellings :
        (district : ℕ) (listed : List ℕ)
        → lists district ≡ []
        → spelling_of api lists district (other_spellings district listed)
          ≡ spelling_of api lists district listed
    spelling_of-other_spellings district [] bare = refl
    spelling_of-other_spellings district (s ∷ ss) bare =
        let rest = spelling_of-other_spellings district ss bare in
        elim (Bool-cases (s == district)) [
          | inl t ↦
              let same : s ≡ district = ground (arith, t) in
              rw t (rest ∙ sym (skipped api lists district s ss (ap lists same ∙ bare)))
          | inr f ↦ rw f (elim (List-cases (lists s)) [
            | inl e ↦
                skipped api lists district s (other_spellings district ss) e
                ∙ rest
                ∙ sym (skipped api lists district s ss e)
            | inr (x, xs, e) ↦
                listed_first api lists district s x xs (other_spellings district ss) e
                ∙ sym (listed_first api lists district s x xs ss e)
          ])
        ]

    same_spelling :
        (district : ℕ) (listed : List ℕ)
        → spelling_of api lists district (district ∷ other_spellings district listed)
          ≡ spelling_of api lists district (district ∷ listed)
    same_spelling district listed = elim (List-cases (lists district)) [
      | inl bare ↦
          skipped api lists district district (other_spellings district listed) bare
          ∙ spelling_of-other_spellings district listed bare
          ∙ sym (skipped api lists district district listed bare)
      | inr (x, xs, e) ↦
          listed_first api lists district district x xs (other_spellings district listed) e
          ∙ sym (listed_first api lists district district x xs listed e)
    ]

    -- Of an API that answers every request with the records asked for, and with their number in all,
    -- `fetch_prices` returns what the loop over the items makes of all records of the first
    -- spelling that has any, of the district and those listed for it; and each price record is
    -- usable.
    pub fetch_prices_lem :
        (source district : ℕ) (listed : List ℕ)
        → IsHonest api lists
        → let items = lists (spelling_of api lists district (district ∷ listed)) in
          let records = parse_items F is_space strptime to_float source items in
          (fetch_prices F is_space strptime to_float api source district listed ≡ fetched records)
          × All (IsUsable source) records
    unfolding fetch_prices
    fetch_prices_lem source district listed honest = (
      ap (parse_fetched F is_space strptime to_float api source)
            (fetch_raw-honest api lists district (other_spellings district listed) honest)
          ∙ ap (λ s. fetched (parse_items F is_space strptime to_float source (lists s)))
              (same_spelling district listed),
      parse_items-IsUsable source (lists (spelling_of api lists district (district ∷ listed))),
    )
