-- ===== src/Market/Grievances/Filing.antt =====
-- Which grievances are stored.
use sih.Prelude.{
  ==_iff, Bool-cases, List, Option, [], arith, filter, inl, inr, none, refl, some, sym, true, ℕ,
  ◌++◌, ◌==◌, ◌∙◌, ◌∷◌, ◌≡◌, ◌⊎◌,
}
use sih.Store.{Client, Grievance, Lot, Offer, Result, err, ok}
use sih.Store.Keys.{List-cases}
use sih.Store.Laws.{Laws}
use sih.Market.Grievances.{
  GrievanceCreate, check_lot, check_offer, create_grievance, new_grievance, store_grievance,
}
use sih.Market.Logistics.{own_lot}
use sih.Market.Lots.{owns_lot}
use sih.Market.Offers.{own_offer}

module _ {Db : Type 0} (c : Client Db) (laws : Laws c) (u : ℕ) where
  -- The lot named, if any, is one of the caller's.
  abbrev pub OwnLot : Option ℕ → Db → Type 0
  OwnLot none d = Unit
  OwnLot (some i) d =
      (l : Lot) × (ls : List Lot) × (filter (λ x. x.id == i) (laws.view d).lots ≡ l ∷ ls)
      × (owns_lot u l ≡ true)

  -- The offer named, if any, is the caller's.
  abbrev pub OwnOffer : Option ℕ → Db → Type 0
  OwnOffer none d = Unit
  OwnOffer (some i) d =
      (o : Offer) × (os : List Offer) × (filter (λ x. x.id == i) (laws.view d).offers ≡ o ∷ os)
      × (o.user_id ≡ u)

  -- A check refuses with 404 or passes, and writes nothing.
  abbrev Checks : Type 0 → Db → Result (Unit {0}) × Db → Type 0
  Checks P d r = (r ≡ (err 404, d)) ⊎ (r ≡ (ok tt, d)) × P

  check_lot-Checks : (i : Option ℕ) (d : Db) → Checks (OwnLot i d) d (check_lot c i u d)
  unfolding check_lot
  check_lot-Checks none d = inr (refl, tt)
  check_lot-Checks (some i) d = elim (List-cases (c.lots.select (λ x. x.id == i) d)) [
    | inl absent ↦ inl (ground (arith, absent))
    | inr (l, ls, found) ↦ elim (Bool-cases (owns_lot u l)) [
      | inr foreign ↦ inl (ground (arith, found, foreign))
      | inl mine ↦ inr (
        ground (arith, found, mine),
        (l, ls, sym (laws.lots.selects (λ x. x.id == i) d) ∙ found, mine),
      )
    ]
  ]

  check_offer-Checks : (i : Option ℕ) (d : Db) → Checks (OwnOffer i d) d (check_offer c i u d)
  unfolding check_offer
  check_offer-Checks none d = inr (refl, tt)
  check_offer-Checks (some i) d = elim (List-cases (c.offers.select (λ x. x.id == i) d)) [
    | inl absent ↦ inl (ground (arith, absent))
    | inr (o, os, found) ↦ elim (Bool-cases (o.user_id == u)) [
      | inr foreign ↦ inl (ground (arith, found, foreign))
      | inl mine ↦ inr (
        ground (arith, found, mine),
        (o, os, sym (laws.offers.selects (λ x. x.id == i) d) ∙ found, (==_iff o.user_id u).0 mine),
      )
    ]
  ]

  module _ (body : GrievanceCreate) (n : ℕ) where
    -- Refused with nothing written, or stored as a new row.
    abbrev pub Files : Db → Result Grievance × Db → Type 0
    Files d r =
        ((e : ℕ) × (r.0 ≡ err e) × (laws.view r.1 ≡ laws.view d))
        ⊎ OwnLot body.lot_id d
          × OwnOffer body.offer_id d
          × (r.0 ≡ ok (new_grievance body u n))
          × (laws.view r.1 ≡ record (laws.view d) {
            grievances = (laws.view d).grievances ++ new_grievance body u n ∷ [];
          })

    store_grievance-Files :
        (d : Db)
        → OwnLot body.lot_id d
        → OwnOffer body.offer_id d
        → Files d (store_grievance c (new_grievance body u n) d)
    unfolding store_grievance
    store_grievance-Files d l o = elim (laws.grievances.inserts (new_grievance body u n) d) [
      | inr (refused, same) ↦ inl (400, ground (arith, refused), ground (arith, refused, same))
      | inl (returned, stored) ↦
          inr (l, o, ground (arith, returned), ground (arith, returned, stored))
    ]

    -- A grievance is stored as open only about a lot of the caller or of the caller's FPO and about
    -- an offer of the caller, where it names them; every error leaves all tables as they were.
    pub create_grievance-Files : (d : Db) → Files d (create_grievance c body u n d)
    unfolding create_grievance
    create_grievance-Files d = elim (check_lot-Checks body.lot_id d) [
      | inl no_lot ↦ inl (404, ground (arith, no_lot), ground (arith, no_lot))
      | inr (lot_passes, own_lot) ↦ elim (check_offer-Checks body.offer_id d) [
        | inl no_offer ↦
            inl (404, ground (arith, lot_passes, no_offer), ground (arith, lot_passes, no_offer))
        | inr (offer_passes, own_offer) ↦
            let goes : create_grievance c body u n d
                ≡ store_grievance c (new_grievance body u n) d =
              ground (arith, lot_passes, offer_passes) in
            rw goes (store_grievance-Files d own_lot own_offer)
      ]
    ]
