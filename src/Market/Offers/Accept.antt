-- ===== src/Market/Offers/Accept.antt =====
-- What `update_offer` does to an offer and its lot.
use sih.Prelude.{
  Bool-cases, List, Option, ap, arith, false, filter, inl, inr, map, sym, ℕ, ◌∙◌, ◌∷◌, ◌≡◌,
}
use sih.Store.{
  Client, LotStatus, Offer, OfferStatus, accepted, err, expired, matched, ok, pending, rejected,
}
use sih.Store.Keys.{List-cases}
use sih.Store.Laws.{Laws, Tables, update_where}
use sih.Market.Offers.{
  expire_now, follow_lot, is_pending, lot_is, offer_is, offer_is_stale, offer_ttl_hours, own_offer,
  set_lot, set_offer, update_offer, with_expiry, write_offer,
}
use sih.Market.Offers.Expiry.{reopen-answers}

module _ {Db : Type 0} (c : Client Db) (laws : Laws c) (now i u : ℕ) where
  abbrev own_rows : Db → List Offer
  own_rows d = filter (own_offer i u) (laws.view d).offers

  -- The tables after the offers of the request have a new status, and their lot too.
  abbrev pub with_status : OfferStatus → LotStatus → ℕ → Tables → Tables
  with_status s l lot t = record t {
    offers = update_where (own_offer i u) (set_offer s) t.offers;
    lots = update_where (lot_is lot) (set_lot l) t.lots;
  }

  expire_now-raises : (cur : Offer) (d : Db) → (expire_now c i cur d).0 ≡ err 409
  unfolding expire_now
  expire_now-raises cur d =
      let d1 = (c.offers.update (offer_is i) (set_offer expired) d).1 in
      let (b, answers) = reopen-answers c laws cur.lot_id d1 in ground (arith, answers)

  write_offer-accepted :
      (d : Db) (cur : Offer) (rest : List Offer)
      → own_rows d ≡ cur ∷ rest
      → let (r, d') = write_offer c accepted i u d in
        (r ≡ ok (with_expiry (set_offer accepted cur)))
        × (laws.view d' ≡ with_status accepted matched cur.lot_id (laws.view d))
  unfolding write_offer follow_lot
  write_offer-accepted d cur rest found =
      let f = set_offer accepted in
      let d1 = (c.offers.update (own_offer i u) f d).1 in
      let written : (c.offers.update (own_offer i u) f d).0 ≡ f cur ∷ map f rest =
        laws.offers.returns (own_offer i u) f d ∙ ap (map f) found in
      (
        ground (arith, written),
        ground (
          arith,
          written,
          laws.offers.updates (own_offer i u) f d,
          laws.lots.updates (lot_is cur.lot_id) (set_lot matched) d1,
        ),
      )

  -- Accepting succeeds only for an offer of the caller that is pending and within its time to
  -- live; then the offer is accepted, its lot is matched, and no other table changes.
  pub update_offer-accepts :
      (d : Db) (r : Offer × Option ℕ)
      → (update_offer c now accepted i u d).0 ≡ ok r
      → (cur : Offer) × (rest : List Offer) × (own_rows d ≡ cur ∷ rest)
        × (cur.status ≡ pending)
        × (offer_is_stale now offer_ttl_hours cur ≡ false)
        × (r ≡ with_expiry (set_offer accepted cur))
        × (laws.view (update_offer c now accepted i u d).1
            ≡ with_status accepted matched cur.lot_id (laws.view d))
  unfolding update_offer
  update_offer-accepts d r h = elim (List-cases (c.offers.select (own_offer i u) d)) [
    | inl absent ↦ ground (arith, absent)
    | inr (cur, rest, found) ↦
        let rows : own_rows d ≡ cur ∷ rest = sym (laws.offers.selects (own_offer i u) d) ∙ found in
        let (answers, written) = write_offer-accepted d cur rest rows in
        elim (Bool-cases (is_pending cur.status)) [
          | inr past ↦ ground (arith, found, past)
          | inl waiting ↦ elim (Bool-cases (offer_is_stale now offer_ttl_hours cur)) [
            | inl stale ↦ ground (arith, found, waiting, stale, expire_now-raises cur d)
            | inr live ↦ (
              cur,
              rest,
              rows,
              ground (arith, waiting),
              live,
              ground (arith, found, waiting, live, answers),
              ground (arith, found, waiting, live, written),
            )
          ]
        ]
  ]

  -- A rejected offer whose status is patched to pending is pending again, and its lot is left as it
  -- is: an open lot then has a pending offer.
  pub update_offer-revives :
      (d : Db) (cur : Offer) (rest : List Offer)
      → own_rows d ≡ cur ∷ rest
      → cur.status ≡ rejected
      → let (r, d') = update_offer c now pending i u d in
        (r ≡ ok (with_expiry (set_offer pending cur)))
        × ((laws.view d').offers
            ≡ update_where (own_offer i u) (set_offer pending) (laws.view d).offers)
        × ((laws.view d').lots ≡ (laws.view d).lots)
  unfolding update_offer write_offer follow_lot
  update_offer-revives d cur rest found past =
      let f = set_offer pending in
      let read = laws.offers.selects (own_offer i u) d ∙ found in
      let written : (c.offers.update (own_offer i u) f d).0 ≡ f cur ∷ map f rest =
        laws.offers.returns (own_offer i u) f d ∙ ap (map f) found in
      let set = laws.offers.updates (own_offer i u) f d in
      (
        ground (arith, read, written),
        ground (arith, read, written, set),
        ground (arith, read, written, set),
      )
