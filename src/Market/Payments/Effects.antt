-- ===== src/Market/Payments/Effects.antt =====
-- What the payment handlers write, on their successful branches.
use sih.Prelude.{
  Bool-cases, List, [], arith, false, filter, inl, inr, refl, some, sym, ℕ, ◌==◌, ◌∙◌, ◌∷◌, ◌≡◌,
  ◌≢◌, ◌⊎◌,
}
use sih.Store.{
  Client, Lot, Offer, Payment, PaymentStatus, Result-cases, disputed, failed, ok, paid, sold,
}
use sih.Store.Keys.{List-cases, map-eq-cons}
use sih.Store.Laws.{Laws, Tables, update_where}
use sih.Market.Payments.{
  close_lot, is_closed, mark_disputed, mark_failed, mark_paid, own, set_paid, set_status, settle,
  write_status,
}
use sih.Market.Payments.Atomic.{rescore-SameButBuyers}
use sih.Market.Reliability.{is_paid}

is_closed-failed : (p : Payment) → is_closed p.status ≡ false → p.status ≢ failed
is_closed-failed p h e = ground (arith, h, e)

is_closed-disputed : (p : Payment) → is_closed p.status ≡ false → p.status ≢ disputed
is_closed-disputed p h e = ground (arith, h, e)

module _ {Db : Type 0} (c : Client Db) (laws : Laws c) where
  abbrev lots_of : Payment → Db → List Offer
  lots_of p d = filter (λ o. o.id == p.offer_id) (laws.view d).offers

  -- The lots after a payment is settled: that of the payment's offer is sold.
  abbrev pub lots_sold : List Offer → List Lot → List Lot
  lots_sold [] lots = lots
  lots_sold (o ∷ _) lots =
      update_where (λ l. l.id == o.lot_id) (λ l. record l { status = sold }) lots

  close_lot-ok :
      (cur : Payment) (i u : ℕ) (offers : List Offer) (d : Db)
      → (close_lot c cur i u offers d).0 ≡ ok tt
      → laws.view (close_lot c cur i u offers d).1
        ≡ record (laws.view d) { lots = lots_sold offers (laws.view d).lots }
  unfolding close_lot
  close_lot-ok cur i u [] d h = refl
  close_lot-ok cur i u (o ∷ os) d h =
      let f = λ (l : Lot). record l { status = sold } in
      elim (List-cases (c.lots.update (λ l. l.id == o.lot_id) f d).0) [
        | inl nothing ↦ ground (arith, nothing)
        | inr (l, ls, written) ↦
            ground (arith, written, laws.lots.updates (λ l. l.id == o.lot_id) f d)
      ]

  -- A settled payment: the row is paid, its lot is sold, and only buyers may have changed besides.
  abbrev pub Settled : ℕ → ℕ → ℕ → Payment → Tables → Tables → Type 0
  Settled now i u p s t =
      (p.status ≡ paid)
      × (p.paid_at ≡ some now)
      × (t.payments ≡ update_where (own i u) (set_paid now) s.payments)
      × (t.lots ≡ lots_sold (filter (λ o. o.id == p.offer_id) s.offers) s.lots)
      × (t.offers ≡ s.offers)
      × (t.grievances ≡ s.grievances)
      × (t.bookings ≡ s.bookings)

  settle-ok :
      (now i u : ℕ) (cur : Payment) (d : Db) (p : Payment)
      → (settle c now i u cur d).0 ≡ ok p
      → Settled now i u p (laws.view d) (laws.view (settle c now i u cur d).1)
  unfolding settle
  settle-ok now i u cur d p h =
      let set = laws.payments.updates (own i u) (set_paid now) d in
      let d1 = (c.payments.update (own i u) (set_paid now) d).1 in
      elim (List-cases (c.payments.update (own i u) (set_paid now) d).0) [
        | inl nothing ↦ ground (arith, nothing)
        | inr (q, qs, written) ↦
            let offers = c.offers.select (λ o. o.id == q.offer_id) d1 in
            elim (Result-cases (close_lot c cur i u offers d1).0) [
              | inl (_, closed) ↦
                  let (r, rs, _, q_is) =
                    map-eq-cons (set_paid now) _ q qs
                      (sym (laws.payments.returns (own i u) (set_paid now) d) ∙ written) in
                  let d2 = (close_lot c cur i u offers d1).1 in
                  ground (
                    arith,
                    written,
                    closed,
                    set,
                    q_is,
                    laws.offers.selects (λ o. o.id == q.offer_id) d1,
                    close_lot-ok cur i u offers d1 closed,
                    rescore-SameButBuyers c laws q.offer_id d2,
                  )
              | inr (e, no_lot) ↦ ground (arith, written, no_lot)
            ]
      ]

  pub mark_paid-Settled :
      (now i u : ℕ) (d : Db) (p : Payment)
      → (mark_paid c now i u d).0 ≡ ok p
      → Settled now i u p (laws.view d) (laws.view (mark_paid c now i u d).1)
  unfolding mark_paid
  mark_paid-Settled now i u d p h = elim (List-cases (c.payments.select (own i u) d)) [
    | inl absent ↦ ground (arith, absent)
    | inr (cur, rest, found) ↦ ground (arith, found, settle-ok now i u cur d p)
  ]

  -- The answer is the first of the caller's rows with the id, paid.
  settle_row :
      (now i u : ℕ) (cur : Payment) (d : Db) (p : Payment)
      → (settle c now i u cur d).0 ≡ ok p
      → (r : Payment) × (rs : List Payment) × (filter (own i u) (laws.view d).payments ≡ r ∷ rs)
        × (p ≡ set_paid now r)
  unfolding settle
  settle_row now i u cur d p h =
      let d1 = (c.payments.update (own i u) (set_paid now) d).1 in
      elim (List-cases (c.payments.update (own i u) (set_paid now) d).0) [
        | inl nothing ↦ ground (arith, nothing)
        | inr (q, qs, written) ↦
            let offers = c.offers.select (λ o. o.id == q.offer_id) d1 in
            let (r, rs, mine, q_is) =
              map-eq-cons (set_paid now) _ q qs
                (sym (laws.payments.returns (own i u) (set_paid now) d) ∙ written) in
            elim (Result-cases (close_lot c cur i u offers d1).0) [
              | inl (_, closed) ↦ (r, rs, mine, ground (arith, written, closed, q_is))
              | inr (e, no_lot) ↦ ground (arith, written, no_lot)
            ]
      ]

  mark_paid_row :
      (now i u : ℕ) (d : Db) (p : Payment)
      → (mark_paid c now i u d).0 ≡ ok p
      → (r : Payment) × (rs : List Payment) × (filter (own i u) (laws.view d).payments ≡ r ∷ rs)
        × (p ≡ set_paid now r)
  unfolding mark_paid
  mark_paid_row now i u d p h = elim (List-cases (c.payments.select (own i u) d)) [
    | inl absent ↦ ground (arith, absent)
    | inr (cur, rest, found) ↦ settle_row now i u cur d p (ground (arith, found))
  ]

  -- The row that the handlers' guards read.
  pub mark_paid-guard :
      (now i u : ℕ) (d : Db) (p : Payment)
      → (mark_paid c now i u d).0 ≡ ok p
      → (cur : Payment) × (rest : List Payment) × (filter (own i u) (laws.view d).payments
          ≡ cur ∷ rest)
        × (is_closed cur.status ≡ false)
  unfolding mark_paid
  mark_paid-guard now i u d p h = elim (List-cases (c.payments.select (own i u) d)) [
    | inl absent ↦ ground (arith, absent)
    | inr (cur, rest, found) ↦
        (cur, rest, sym (laws.payments.selects (own i u) d) ∙ found, ground (arith, found))
  ]

  -- When `mark_paid` answers with a payment, that payment was the caller's and neither failed nor
  -- disputed; now it is paid, the lot of its offer is sold, and no other row of the payments, lots,
  -- offers, grievances and bookings has changed.
  pub mark_paid-settles :
      (now i u : ℕ) (d : Db) (p : Payment)
      → (mark_paid c now i u d).0 ≡ ok p
      → ((cur : Payment) × (rest : List Payment) × (filter (own i u) (laws.view d).payments
            ≡ cur ∷ rest)
          × (cur.status ≢ failed)
          × (cur.status ≢ disputed)
          × (p ≡ set_paid now cur))
        × Settled now i u p (laws.view d) (laws.view (mark_paid c now i u d).1)
  mark_paid-settles now i u d p h =
      let (cur, rest, found, open_row) = mark_paid-guard now i u d p h in
      let (r, rs, mine, row) = mark_paid_row now i u d p h in
      let same : r ≡ cur = cc (found, mine) in
      let shut : is_closed r.status ≡ false = rw same open_row in
      (
        (r, rs, mine, is_closed-failed r shut, is_closed-disputed r shut, row),
        mark_paid-Settled now i u d p h,
      )

  write_status-payments :
      (s : PaymentStatus) (i u : ℕ) (d : Db)
      → (laws.view (write_status c s i u d).1).payments
        ≡ update_where (own i u) (set_status s) (laws.view d).payments
  unfolding write_status
  write_status-payments s i u d =
      let set = laws.payments.updates (own i u) (set_status s) d in
      let d1 = (c.payments.update (own i u) (set_status s) d).1 in
      elim (List-cases (c.payments.update (own i u) (set_status s) d).0) [
        | inl nothing ↦ ground (arith, nothing, set)
        | inr (q, qs, written) ↦
            ground (arith, written, set, rescore-SameButBuyers c laws q.offer_id d1)
      ]

  -- `mark_failed` writes, or raises and changes no payment; `mark_disputed` likewise.
  abbrev pub Writes : PaymentStatus → ℕ → ℕ → Tables → Tables → Type 0
  Writes s i u t t' =
      (t'.payments ≡ t.payments) ⊎ (t'.payments ≡ update_where (own i u) (set_status s) t.payments)

  pub mark_failed-Writes :
      (i u : ℕ) (d : Db) → Writes failed i u (laws.view d) (laws.view (mark_failed c i u d).1)
  unfolding mark_failed
  mark_failed-Writes i u d = elim (List-cases (c.payments.select (own i u) d)) [
    | inl absent ↦ inl (ground (arith, absent))
    | inr (cur, rest, found) ↦ elim (Bool-cases (is_paid cur.status)) [
      | inl guarded ↦ inl (ground (arith, found, guarded))
      | inr writes ↦ inr (ground (arith, found, writes, write_status-payments failed i u d))
    ]
  ]

  pub mark_disputed-Writes :
      (i u : ℕ) (d : Db) → Writes disputed i u (laws.view d) (laws.view (mark_disputed c i u d).1)
  unfolding mark_disputed
  mark_disputed-Writes i u d = elim (List-cases (c.payments.select (own i u) d)) [
    | inl absent ↦ inl (ground (arith, absent))
    | inr (cur, rest, found) ↦ inr (ground (arith, found, write_status-payments disputed i u d))
  ]
