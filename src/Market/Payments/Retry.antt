-- ===== src/Market/Payments/Retry.antt =====
-- A retried `create_payment` answers with the payment that the first request made.
use sih.Prelude.{
  Bool, Bool-cases, List, Option, Option-cases, [], arith, filter, filter-append, inl, inr, none,
  refl, some, sym, ℕ, ◌&&◌, ◌++◌, ◌==◌, ◌∙◌, ◌∷◌, ◌≡◌, ◌⊎◌,
}
use sih.Store.{Client, Offer, Payment, Result, accepted, ok, unpaid}
use sih.Store.Keys.{List-cases}
use sih.Store.Laws.{Laws}
use sih.Market.Payments.{
  PaymentCreate, create_payment, existing_payment, finish_payment, is_accepted,
}

existing_payment-snoc :
    (ref : Option ℕ) (rows : List Payment) (row : Payment)
    → existing_payment ref rows ≡ none
    → row.status ≡ unpaid
    → existing_payment ref (rows ++ row ∷ []) ≡ some (ok row)
unfolding existing_payment
existing_payment-snoc ref [] row h e = ground arith
existing_payment-snoc ref (r ∷ rs) row h e = ground (arith, existing_payment-snoc ref rs row)

module _ {Db : Type 0} (c : Client Db) (laws : Laws c) (body : PaymentCreate) (u : ℕ) where
  abbrev pub for_offer : Payment → Bool
  for_offer p = p.offer_id == body.offer_id && p.user_id == u

  -- The payments that the loop of `create_payment` goes over.
  abbrev pub existing : Db → List Payment
  existing d = filter for_offer (laws.view d).payments

  -- What makes `create_payment` reach its loop.
  abbrev CanPay : Db → Type 0
  CanPay d =
      (o : Offer) × (os : List Offer) × (filter (λ x. x.id == body.offer_id) (laws.view d).offers
        ≡ o ∷ os)
      × (o.user_id ≡ u)
      × (o.status ≡ accepted)

  create_payment-eq-finish :
      (new_id : ℕ) (d : Db)
      → CanPay d
      → create_payment c body u new_id d
        ≡ finish_payment c body u new_id (existing_payment body.reference (existing d)) d
  unfolding create_payment
  create_payment-eq-finish new_id d (o, os, found, owner, ready) =
      ground (
        arith,
        laws.offers.selects (λ x. x.id == body.offer_id) d,
        laws.payments.selects for_offer d,
      )

  CanPay-of_ok :
      (new_id : ℕ) (d : Db) {p : Payment} → (create_payment c body u new_id d).0 ≡ ok p → CanPay d
  unfolding create_payment
  CanPay-of_ok new_id d h = elim (List-cases (c.offers.select (λ x. x.id == body.offer_id) d)) [
    | inl absent ↦ ground (arith, absent)
    | inr (o, os, found) ↦ (
      o,
      os,
      sym (laws.offers.selects (λ x. x.id == body.offer_id) d) ∙ found,
      ground (arith, found),
      ground (arith, found),
    )
  ]

  abbrev pub new_row : ℕ → Payment
  new_row new_id = record {
    id = new_id;
    offer_id = body.offer_id;
    user_id = u;
    amount = body.amount;
    status = unpaid;
    reference = body.reference;
    paid_at = none;
  }

  -- The loop's answer after a new row has been stored.
  existing_payment-stored :
      (new_id : ℕ) (d d' : Db)
      → existing_payment body.reference (existing d) ≡ none
      → laws.view d'
        ≡ record (laws.view d) { payments = (laws.view d).payments ++ new_row new_id ∷ [] }
      → existing_payment body.reference (existing d') ≡ some (ok (new_row new_id))
  existing_payment-stored new_id d d' fresh stored =
      let appended : existing d' ≡ existing d ++ new_row new_id ∷ [] =
        ground
          (arith, stored, filter-append for_offer (laws.view d).payments (new_row new_id ∷ [])) in
      rw appended (existing_payment-snoc body.reference (existing d) (new_row new_id) fresh refl)

  retry_stored :
      (new_id new_id' : ℕ) (d : Db) {p : Payment}
      → CanPay d
      → existing_payment body.reference (existing d) ≡ none
      → (finish_payment c body u new_id none d).0 ≡ ok p
      → let d' = (finish_payment c body u new_id none d).1 in
        create_payment c body u new_id' d' ≡ (ok p, d')
  unfolding finish_payment
  retry_stored new_id new_id' d {p} can fresh h = elim (laws.payments.inserts (new_row new_id) d) [
    | inl (returned, stored) ↦
        let d' = (c.payments.insert (new_row new_id) d).1 in
        let can' : CanPay d' = (can.0, can.1, ground (arith, stored, can.2), can.3, can.4) in
        ground (
          arith,
          returned,
          create_payment-eq-finish new_id' d' can',
          existing_payment-stored new_id d d' fresh stored,
        )
    | inr (refused, _) ↦ ground (arith, refused)
  ]

  -- A request sent again, by the same user for the same offer and reference, answers with the
  -- payment of the first one and writes nothing, whether that one stored it or found it.
  pub create_payment-retry :
      (new_id new_id' : ℕ) (d : Db) {p : Payment}
      → (create_payment c body u new_id d).0 ≡ ok p
      → let d' = (create_payment c body u new_id d).1 in
        create_payment c body u new_id' d' ≡ (ok p, d')
  unfolding finish_payment
  create_payment-retry new_id new_id' d {p} h =
      let can = CanPay-of_ok new_id d h in
      let first = create_payment-eq-finish new_id d can in
      elim (Option-cases (existing_payment body.reference (existing d))) [
        | inl fresh ↦
            let stored : create_payment c body u new_id d ≡ finish_payment c body u new_id none d =
              ground (arith, first, fresh) in
            rw stored (retry_stored new_id new_id' d can fresh (rw stored at h))
        | inr (r, found) ↦
            let same : create_payment c body u new_id d ≡ (ok p, d) =
              ground (arith, first, found) in
            rw same (ground (arith, found, create_payment-eq-finish new_id' d can, same))
      ]

  -- No payment was written, or the loop had found none and the new row stands last.
  abbrev pub Adds : ℕ → Option (Result Payment) → Db → Db → Type 0
  Adds new_id found d d' =
      ((laws.view d').payments ≡ (laws.view d).payments)
      ⊎ (found ≡ none) × ((laws.view d').payments ≡ (laws.view d).payments ++ new_row new_id ∷ [])

  finish_payment-Adds :
      (new_id : ℕ) (found : Option (Result Payment)) (d : Db)
      → Adds new_id found d (finish_payment c body u new_id found d).1
  unfolding finish_payment
  finish_payment-Adds new_id (some r) d = inl refl
  finish_payment-Adds new_id none d = elim (laws.payments.inserts (new_row new_id) d) [
    | inl (returned, stored) ↦ inr (refl, ground (arith, returned, stored))
    | inr (refused, same) ↦ inl (ground (arith, refused, same))
  ]

  pub create_payment-Adds :
      (new_id : ℕ) (d : Db)
      → Adds new_id
          (existing_payment body.reference (existing d))
          d
          (create_payment c body u new_id d).1
  unfolding create_payment
  create_payment-Adds new_id d =
      elim (List-cases (c.offers.select (λ x. x.id == body.offer_id) d)) [
        | inl absent ↦ inl (ground (arith, absent))
        | inr (o, os, found) ↦ elim (Bool-cases (o.user_id == u)) [
          | inr foreign ↦ inl (ground (arith, found, foreign))
          | inl mine ↦ elim (Bool-cases (is_accepted o.status)) [
            | inr unready ↦ inl (ground (arith, found, mine, unready))
            | inl ready ↦
                let reaches : create_payment c body u new_id d
                    ≡ finish_payment c body u new_id (existing_payment body.reference (existing d))
                        d =
                  ground (arith, found, mine, ready, laws.payments.selects for_offer d) in
                rw reaches
                  (finish_payment-Adds new_id (existing_payment body.reference (existing d)) d)
          ]
        ]
      ]
