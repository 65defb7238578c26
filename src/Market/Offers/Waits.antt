-- ===== src/Market/Offers/Waits.antt =====
-- A lot with a pending offer is never back on the market as open.
use sih.Prelude.{
  ==_iff, All, All-map, Bool, Bool-cases, List, [], any, arith, false, filter, if◌then◌else◌, inl,
  inr, not, refl, sym, true, ℕ, ◌&&◌, ◌++◌, ◌==◌, ◌∙◌, ◌∷◌, ◌≡◌,
}
use sih.Store.{
  Client, Lot, LotStatus, Offer, OfferStatus, accepted, expired, matched, open_lot, pending,
  rejected, then_pure_state, then_raise_state,
}
use sih.Store.Keys.{List-cases}
use sih.Store.Laws.{Laws, update_where}
use sih.Market.Lots.{is_open_lot}
use sih.Market.Offers.{
  expire_now, follow_lot, is_offered, is_pending, lot_is, offer_is, offer_is_stale, offer_ttl_hours,
  own_offer, pending_for, reopen_lot_if_idle, set_lot, set_offer, update_offer, with_expiry,
  write_offer,
}
use sih.Market.Payments.{is_accepted}

-- No pending offer waits for an open lot.
abbrev pub WaitsFor : List Offer → Lot → Type 0
WaitsFor offers l = is_open_lot l.status ≡ true → any (pending_for l.id) offers ≡ false

abbrev pub Waits : List Offer → List Lot → Type 0
Waits offers lots = All (WaitsFor offers) lots

-- Fewer pending offers keep it.
any-update_where-false :
    {Row : Type 0} (q p : Row → Bool) (f : Row → Row) (l : List Row)
    → ((r : Row) → q (f r) ≡ true → q r ≡ true)
    → any q l ≡ false
    → any q (update_where p f l) ≡ false
any-update_where-false q p f [] k h = refl
any-update_where-false q p f (x ∷ xs) k h = ground (arith, k x, any-update_where-false q p f xs k)

Waits-set_offer :
    (p : Offer → Bool) (s : OfferStatus) (offers : List Offer) (lots : List Lot)
    → is_pending s ≡ false
    → Waits offers lots
    → Waits (update_where p (set_offer s) offers) lots
Waits-set_offer p s offers lots e h =
    All-map
      (λ l w o.
        any-update_where-false (pending_for l.id) p (set_offer s) offers (λ r q. ground (arith, e))
          (w o))
      lots h

-- A lot that is taken off the market, or one that no pending offer waits for, keeps it.
Waits-set_lot :
    (i : ℕ) (s : LotStatus) (offers : List Offer) (lots : List Lot)
    → (is_open_lot s ≡ true → any (pending_for i) offers ≡ false)
    → Waits offers lots
    → Waits offers (update_where (lot_is i) (set_lot s) lots)
Waits-set_lot i s offers [] e h = tt
Waits-set_lot i s offers (l ∷ ls) e h = (head_waits, Waits-set_lot i s offers ls e h.1)
  where
    head_waits : WaitsFor offers (if lot_is i l then set_lot s l else l)
    head_waits = elim (Bool-cases (l.id == i)) [
      | inl t ↦ let same : l.id ≡ i = (==_iff l.id i).0 t in rw t (rw same e)
      | inr f ↦ rw f h.0
    ]

any-none : {A : Type 0} (q : A → Bool) (l : List A) → filter q l ≡ [] → any q l ≡ false
any-none q [] h = refl
any-none q (x ∷ xs) h = ground (arith, any-none q xs)

pub any-snoc :
    {A : Type 0} (q : A → Bool) (l : List A) (x : A)
    → any q l ≡ false
    → q x ≡ false
    → any q (l ++ x ∷ []) ≡ false
any-snoc q [] x h e = rw e
any-snoc q (y ∷ ys) x h e = ground (arith, any-snoc q ys x)

module _ {Db : Type 0} (c : Client Db) (laws : Laws c) where
  abbrev pub LotsWait : Db → Type 0
  LotsWait d = Waits (laws.view d).offers (laws.view d).lots

  pub reopen-LotsWait : (lot : ℕ) (d : Db) → LotsWait d → LotsWait (reopen_lot_if_idle c lot d).1
  unfolding reopen_lot_if_idle
  reopen-LotsWait lot d h = elim (List-cases (c.offers.select (pending_for lot) d)) [
    | inr (o, os, busy) ↦ rw busy h
    | inl idle ↦ elim (List-cases (c.lots.select (lot_is lot) d)) [
      | inl absent ↦ rw (idle, absent) h
      | inr (l, ls, found) ↦ elim (Bool-cases (is_offered l.status)) [
        | inr f ↦ rw (idle, found, f) h
        | inl t ↦
            let none_waits =
              any-none (pending_for lot) (laws.view d).offers
                (sym (laws.offers.selects (pending_for lot) d) ∙ idle) in
            rw (idle, found, t, laws.lots.updates (lot_is lot) (set_lot open_lot) d)
              (Waits-set_lot lot open_lot (laws.view d).offers (laws.view d).lots (λ _. none_waits)
                h)
      ]
    ]
  ]

  set_offer-LotsWait :
      (p : Offer → Bool) (s : OfferStatus) (d : Db)
      → is_pending s ≡ false
      → LotsWait d
      → LotsWait (c.offers.update p (set_offer s) d).1
  set_offer-LotsWait p s d e h =
      rw (laws.offers.updates p (set_offer s) d)
        (Waits-set_offer p s (laws.view d).offers (laws.view d).lots e h)

  set_lot-LotsWait :
      (i : ℕ) (s : LotStatus) (d : Db)
      → is_open_lot s ≡ false
      → LotsWait d
      → LotsWait (c.lots.update (lot_is i) (set_lot s) d).1
  set_lot-LotsWait i s d e h =
      rw (laws.lots.updates (lot_is i) (set_lot s) d)
        (Waits-set_lot i s (laws.view d).offers (laws.view d).lots (λ o. cc) h)

  follow_lot-LotsWait :
      (s : OfferStatus) (lot : ℕ) (d : Db) → LotsWait d → LotsWait (follow_lot c s lot d).1
  unfolding follow_lot
  follow_lot-LotsWait accepted lot d h = set_lot-LotsWait lot matched d refl h
  follow_lot-LotsWait rejected lot d h =
      rw (then_pure_state (reopen_lot_if_idle c lot) tt d) (reopen-LotsWait lot d h)
  follow_lot-LotsWait expired lot d h =
      rw (then_pure_state (reopen_lot_if_idle c lot) tt d) (reopen-LotsWait lot d h)
  follow_lot-LotsWait pending lot d h = h

  write_offer-LotsWait :
      (s : OfferStatus) (i u : ℕ) (d : Db)
      → is_pending s ≡ false
      → LotsWait d
      → LotsWait (write_offer c s i u d).1
  unfolding write_offer
  write_offer-LotsWait s i u d e h =
      let d1 = (c.offers.update (own_offer i u) (set_offer s) d).1 in
      let k = set_offer-LotsWait (own_offer i u) s d e h in
      elim (List-cases (c.offers.update (own_offer i u) (set_offer s) d).0) [
        | inl nothing ↦ rw nothing k
        | inr (o, os, written) ↦ rw written (
            rw (then_pure_state (follow_lot c s o.lot_id) (with_expiry o) d1)
              (follow_lot-LotsWait s o.lot_id d1 k))
      ]

  expire_now-LotsWait : (i : ℕ) (o : Offer) (d : Db) → LotsWait d → LotsWait (expire_now c i o d).1
  unfolding expire_now
  expire_now-LotsWait i o d h =
      let d1 = (c.offers.update (offer_is i) (set_offer expired) d).1 in
      rw (then_raise_state _ (reopen_lot_if_idle c o.lot_id) 409 d1)
        (reopen-LotsWait o.lot_id d1 (set_offer-LotsWait (offer_is i) expired d refl h))

  -- Accepting, rejecting or expiring an offer keeps every lot with a pending offer off the open
  -- market, on every branch and error of the handler.
  pub update_offer-LotsWait :
      (now i u : ℕ) (s : OfferStatus) (d : Db)
      → is_pending s ≡ false
      → LotsWait d
      → LotsWait (update_offer c now s i u d).1
  unfolding update_offer
  update_offer-LotsWait now i u s d e h = elim (List-cases (c.offers.select (own_offer i u) d)) [
    | inl absent ↦ rw absent h
    | inr (o, os, found) ↦
        elim (Bool-cases (is_pending o.status && offer_is_stale now offer_ttl_hours o)) [
          | inl stale ↦ rw (found, stale) (expire_now-LotsWait i o d h)
          | inr live ↦ elim (Bool-cases (is_accepted s && not (is_pending o.status))) [
            | inl refused ↦ rw (found, live, refused) h
            | inr allowed ↦ rw (found, live, allowed) (write_offer-LotsWait s i u d e h)
          ]
        ]
  ]
