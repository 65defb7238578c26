-- ===== src/Market/Payments/Atomic.antt =====
-- `mark_paid` is all or nothing: what it raises leaves the tables as they were.
use sih.Prelude.{
  All, Bool-cases, List, [], arith, filter, inl, inr, refl, sym, true, ℕ, ◌==◌, ◌∙◌, ◌∷◌, ◌≡◌,
}
use sih.Store.{Client, Lot, Offer, Payment, Result-cases, err, ok, sold}
use sih.Store.Keys.{List-cases, UniqueBy, map-nil, only_match, update_where-none}
use sih.Store.Laws.{Laws, update_where}
use sih.Market.Payments.{close_lot, mark_paid, own, rescore_offer_buyer, restore, set_paid, settle}
use sih.Market.Reliability.Effects.{SameButBuyers, recompute-SameButBuyers}

pub own-id : (i u : ℕ) (p : Payment) → own i u p ≡ true → p.id ≡ i
own-id i u p h = ground arith

-- The rollback undoes the write, on a table whose ids are unique.
restore-set_paid :
    (i u now : ℕ) (cur : Payment) (l : List Payment)
    → All (λ r. own i u r ≡ true → r ≡ cur) l
    → update_where (own i u) (restore cur) (update_where (own i u) (set_paid now) l) ≡ l
restore-set_paid i u now cur [] h = refl
restore-set_paid i u now cur (r ∷ rs) h = elim (Bool-cases (own i u r)) [
  | inl t ↦ ground (arith, restore-set_paid i u now cur rs h.1, h.0 t)
  | inr f ↦ ground (arith, restore-set_paid i u now cur rs h.1)
]

module _ {Db : Type 0} (c : Client Db) (laws : Laws c) where
  close_lot-err :
      (cur : Payment) (i u : ℕ) (offers : List Offer) (d : Db) {e : ℕ}
      → (close_lot c cur i u offers d).0 ≡ err e
      → laws.view (close_lot c cur i u offers d).1 ≡ record (laws.view d) {
        payments = update_where (own i u) (restore cur) (laws.view d).payments;
      }
  unfolding close_lot
  close_lot-err cur i u [] d h = cc
  close_lot-err cur i u (o ∷ os) d h =
      let p = λ (l : Lot). l.id == o.lot_id in
      let f = λ (l : Lot). record l { status = sold } in
      let d' = (c.lots.update p f d).1 in
      elim (List-cases (c.lots.update p f d).0) [
        | inl nothing ↦
            let unmatched = map-nil f _ (sym (laws.lots.returns p f d) ∙ nothing) in
            let same = update_where-none p f (laws.view d).lots unmatched in
            ground (
              arith,
              nothing,
              same,
              laws.lots.updates p f d,
              laws.payments.updates (own i u) (restore cur) d',
            )
        | inr (l, ls, written) ↦ ground (arith, written)
      ]

  pub rescore-SameButBuyers :
      (o : ℕ) (d : Db)
      → ((rescore_offer_buyer c o d).0 ≡ ok tt)
        × SameButBuyers c laws (laws.view d) (laws.view (rescore_offer_buyer c o d).1)
  unfolding rescore_offer_buyer
  rescore-SameButBuyers o d = elim (List-cases (c.offers.select (λ x. x.id == o) d)) [
    | inl nothing ↦ ground (arith, nothing)
    | inr (x, xs, found) ↦
        let (answers, same) = recompute-SameButBuyers c laws x.buyer_id d in
        (ground (arith, found, answers.1), ground (arith, found, answers.1, same))
  ]

  settle-atomic :
      (now i u : ℕ) (cur : Payment) (d : Db) (e : ℕ)
      → All (λ r. own i u r ≡ true → r ≡ cur) (laws.view d).payments
      → (settle c now i u cur d).0 ≡ err e
      → laws.view (settle c now i u cur d).1 ≡ laws.view d
  unfolding settle
  settle-atomic now i u cur d e only h =
      let set = laws.payments.updates (own i u) (set_paid now) d in
      let d1 = (c.payments.update (own i u) (set_paid now) d).1 in
      elim (List-cases (c.payments.update (own i u) (set_paid now) d).0) [
        | inl nothing ↦
            let unmatched : filter (own i u) (laws.view d).payments ≡ [] =
              map-nil (set_paid now) _
                (sym (laws.payments.returns (own i u) (set_paid now) d) ∙ nothing) in
            ground (
              arith,
              nothing,
              set,
              update_where-none (own i u) (set_paid now) (laws.view d).payments unmatched,
            )
        | inr (p, ps, written) ↦
            let offers = c.offers.select (λ o. o.id == p.offer_id) d1 in
            elim (Result-cases (close_lot c cur i u offers d1).0) [
              | inl (_, closed) ↦ ground (
                arith,
                written,
                closed,
                rescore-SameButBuyers p.offer_id (close_lot c cur i u offers d1).1,
              )
              | inr (e, no_lot) ↦ ground (
                arith,
                written,
                no_lot,
                set,
                close_lot-err cur i u offers d1 no_lot,
                restore-set_paid i u now cur (laws.view d).payments only,
              )
            ]
      ]

  -- Whatever `mark_paid` raises (404, 409 or 503), every table is as it was before, the payment
  -- written and restored included, when the ids of the payments are unique.
  pub mark_paid-atomic :
      (now i u : ℕ) (d : Db) {e : ℕ}
      → UniqueBy (λ p. p.id) (laws.view d).payments
      → (mark_paid c now i u d).0 ≡ err e
      → laws.view (mark_paid c now i u d).1 ≡ laws.view d
  unfolding mark_paid
  mark_paid-atomic now i u d {e} unique h = elim (List-cases (c.payments.select (own i u) d)) [
    | inl absent ↦ ground (arith, absent)
    | inr (cur, rest, found) ↦
        let only =
          only_match (λ p. p.id) i (own i u) (own-id i u) (laws.view d).payments cur rest unique
            (sym (laws.payments.selects (own i u) d) ∙ found) in
        ground (arith, found, settle-atomic now i u cur d e only)
  ]
