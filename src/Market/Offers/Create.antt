-- ===== src/Market/Offers/Create.antt =====
-- `create_offer`: when it stores an offer, and what that leaves.
use sih.Prelude.{
  Bool-cases, List, [], arith, filter, inl, inr, ltb, sym, true, ℕ, ◌++◌, ◌==◌, ◌∙◌, ◌∷◌, ◌≡◌, ◌≤◌,
  ◌⊎◌,
}
use sih.Store.{Client, Lot, Offer, err, offered, ok}
use sih.Store.Keys.{List-cases}
use sih.Store.Laws.{Laws, Tables, update_where}
use sih.Market.Offers.{
  OfferCreate, create_offer, lot_is, new_offer, pending_for, set_lot, store_offer, takes_offers,
  with_expiry,
}
use sih.Market.Offers.Waits.{LotsWait, Waits, any-snoc}

module _ {Db : Type 0} (c : Client Db) (laws : Laws c) (body : OfferCreate) (u n now : ℕ) where
  -- The guards of `create_offer` on the lot that it reads.
  pub record Offerable (d : Db) : Type 0 where
    pub lot : Lot
    pub others : List Lot
    pub found : filter (lot_is body.lot_id) (laws.view d).lots ≡ lot ∷ others
    pub owner : lot.user_id ≡ u
    pub open_for_offers : takes_offers lot.status ≡ true
    pub fits : body.quantity_qtl ≤ lot.quantity_qtl

  -- A request is refused and nothing is written, or all guards hold and the offer is stored.
  pub create_offer_cases :
      (d : Db)
      → ((e : ℕ) × (create_offer c body u n now d ≡ (err e, d)))
        ⊎ Offerable d × (create_offer c body u n now d ≡ store_offer c body u n now d)
  unfolding create_offer
  create_offer_cases d = elim (List-cases (c.lots.select (lot_is body.lot_id) d)) [
    | inl absent ↦ inl (404, ground (arith, absent))
    | inr (l, ls, found) ↦ elim (Bool-cases (l.user_id == u)) [
      | inr foreign ↦ inl (404, ground (arith, found, foreign))
      | inl mine ↦ elim (Bool-cases (takes_offers l.status)) [
        | inr shut ↦ inl (409, ground (arith, found, mine, shut))
        | inl taking ↦ elim (Bool-cases (ltb l.quantity_qtl body.quantity_qtl)) [
          | inl over ↦ inl (400, ground (arith, found, mine, taking, over))
          | inr within ↦ inr (
            record {
              lot = l;
              others = ls;
              found = sym (laws.lots.selects (lot_is body.lot_id) d) ∙ found;
              owner = ground arith;
              open_for_offers = taking;
              fits = ground (arith, within);
            },
            ground (arith, found, mine, taking, within),
          )
        ]
      ]
    ]
  ]

  abbrev row : Offer
  row = new_offer body u n now

  -- The tables after the offer is stored.
  abbrev pub with_offer : Tables → Tables
  with_offer s = record s {
    offers = s.offers ++ row ∷ [];
    lots = update_where (lot_is body.lot_id) (set_lot offered) s.lots;
  }

  pub store_offer_cases :
      (d : Db)
      → ((store_offer c body u n now d).0 ≡ err 400)
          × (laws.view (store_offer c body u n now d).1 ≡ laws.view d)
        ⊎ ((store_offer c body u n now d).0 ≡ ok (with_expiry row))
          × (laws.view (store_offer c body u n now d).1 ≡ with_offer (laws.view d))
  unfolding store_offer
  store_offer_cases d =
      let d1 = (c.offers.insert row d).1 in
      elim (laws.offers.inserts row d) [
        | inr (refused, same) ↦ inl (ground (arith, refused), ground (arith, refused, same))
        | inl (returned, stored) ↦ inr (
          ground (arith, returned),
          ground (
            arith,
            returned,
            stored,
            laws.lots.updates (lot_is body.lot_id) (set_lot offered) d1,
          ),
        )
      ]

  -- An offer is answered only for the caller's own lot, while that is open or offered, and for at
  -- most its quantity; then the pending row is stored and the lot is offered. Every error leaves
  -- all tables as they were.
  pub create_offer_lem :
      (d : Db)
      → let (r, d') = create_offer c body u n now d in
        ((e : ℕ) × (r ≡ err e) × (laws.view d' ≡ laws.view d))
        ⊎ Offerable d × (r ≡ ok (with_expiry row)) × (laws.view d' ≡ with_offer (laws.view d))
  create_offer_lem d = elim (create_offer_cases d) [
    | inl (e, refused) ↦ inl (e, rw refused, rw refused)
    | inr (guards, stores) ↦ elim (store_offer_cases d) [
      | inl (refused, same) ↦ inl (400, rw stores refused, rw stores same)
      | inr (answers, written) ↦ inr (guards, rw stores answers, rw stores written)
    ]
  ]

  -- The new offer takes its lot off the open market.
  with_offer-Waits :
      (offers : List Offer) (lots : List Lot)
      → Waits offers lots
      → Waits (offers ++ row ∷ []) (update_where (lot_is body.lot_id) (set_lot offered) lots)
  with_offer-Waits offers [] h = tt
  with_offer-Waits offers (l ∷ ls) h = elim (Bool-cases (l.id == body.lot_id)) [
    | inl t ↦ rw t ((λ o. cc), with_offer-Waits offers ls h.1)
    | inr f ↦ rw f (
      (λ o. any-snoc (pending_for l.id) offers row (h.0 o) (ground (arith, f))),
      with_offer-Waits offers ls h.1,
    )
  ]

  -- Creating an offer keeps every lot with a pending offer off the open market, also when the
  -- request fails.
  pub create_offer-LotsWait :
      (d : Db) → LotsWait c laws d → LotsWait c laws (create_offer c body u n now d).1
  create_offer-LotsWait d h = elim (create_offer_lem d) [
    | inl (e, _, same) ↦ rw same h
    | inr (_, _, written) ↦ rw written (with_offer-Waits (laws.view d).offers (laws.view d).lots h)
  ]
