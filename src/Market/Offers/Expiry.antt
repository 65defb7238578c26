-- ===== src/Market/Offers/Expiry.antt =====
-- What the expiry of stale offers does to the tables.
use sih.Prelude.{
  All, Bool, Bool-cases, List, [], ap, arith, false, filter, if◌then◌else◌, inl, inr, length, map,
  refl, some, sym, take, take-all, true, ℕ, ◌*◌, ◌+◌, ◌<◌, ◌↔◌, ◌∙◌, ◌∷◌, ◌≡◌, ◌≢◌, ◌≤◌,
}
use sih.Store.{Client, Offer, expired, ok, open_lot, pending}
use sih.Store.Keys.{List-cases, UniqueBy, update_where-false, update_where-update_where}
use sih.Store.Laws.{Laws, update_where}
use sih.Market.Offers.{
  expire_loop, expire_stale_offers, hour, is_offered, is_pending, lot_is, offer_is, offer_is_stale,
  pending_for, reopen_lot_if_idle, set_lot, set_offer,
}
use sih.Market.Reliability.{mem}

-- The bound is exact: an offer is stale when it is pending and older than its time to live.
pub offer_is_stale_iff :
    (now ttl at : ℕ) (o : Offer)
    → o.created_at ≡ some at
    → (offer_is_stale now ttl o ≡ true) ↔ ((o.status ≡ pending) × (at + ttl * hour < now))
unfolding offer_is_stale
offer_is_stale_iff now ttl at o e = ground (arith, e)

update_where-congr :
    {Row : Type 0} (p q : Row → Bool) (f : Row → Row) (l : List Row)
    → All (λ r. p r ≡ q r) l
    → update_where p f l ≡ update_where q f l
update_where-congr p q f [] h = refl
update_where-congr p q f (x ∷ xs) h = ground (arith, h.0, update_where-congr p q f xs h.1)

module _ {Db : Type 0} (c : Client Db) (laws : Laws c) where
  pub reopen-offers :
      (lot : ℕ) (d : Db) → (laws.view (reopen_lot_if_idle c lot d).1).offers ≡ (laws.view d).offers
  unfolding reopen_lot_if_idle
  reopen-offers lot d = elim (List-cases (c.offers.select (pending_for lot) d)) [
    | inr (o, os, busy) ↦ ground (arith, busy)
    | inl idle ↦ elim (List-cases (c.lots.select (lot_is lot) d)) [
      | inl absent ↦ ground (arith, idle, absent)
      | inr (l, ls, found) ↦
          ground (arith, idle, found, laws.lots.updates (lot_is lot) (set_lot open_lot) d)
    ]
  ]

  pub reopen-answers : (lot : ℕ) (d : Db) → (b : Bool) × ((reopen_lot_if_idle c lot d).0 ≡ ok b)
  unfolding reopen_lot_if_idle
  reopen-answers lot d = elim (List-cases (c.offers.select (pending_for lot) d)) [
    | inr (o, os, busy) ↦ (false, ground (arith, busy))
    | inl idle ↦ elim (List-cases (c.lots.select (lot_is lot) d)) [
      | inl absent ↦ (false, ground (arith, idle, absent))
      | inr (l, ls, found) ↦ elim (Bool-cases (is_offered l.status)) [
        | inl t ↦ (true, ground (arith, idle, found, t))
        | inr f ↦ (false, ground (arith, idle, found, f))
      ]
    ]
  ]

  -- The ids that the loop collects.
  abbrev stale_ids : ℕ → ℕ → List Offer → List ℕ
  stale_ids now ttl os = map (λ o. o.id) (filter (offer_is_stale now ttl) os)

  expire_loop_lem :
      (now ttl : ℕ) (os : List Offer) (d : Db)
      → ((n : ℕ) × ((expire_loop c now ttl os d).0 ≡ ok (stale_ids now ttl os, n)))
        × ((laws.view (expire_loop c now ttl os d).1).offers
            ≡ update_where
                (λ o. mem o.id (stale_ids now ttl os))
                (set_offer expired)
                (laws.view d).offers)
  unfolding expire_loop
  expire_loop_lem now ttl [] d =
      ((0, refl), sym (update_where-false (set_offer expired) (laws.view d).offers))
  expire_loop_lem now ttl (o ∷ os) d = elim (Bool-cases (offer_is_stale now ttl o)) [
    | inr fresh ↦
        let (answer, written) = expire_loop_lem now ttl os d in
        ((answer.0, ground (arith, fresh, answer.1)), ground (arith, fresh, written))
    | inl stale ↦
        let d1 = (c.offers.update (offer_is o.id) (set_offer expired) d).1 in
        let d2 = (reopen_lot_if_idle c o.lot_id d1).1 in
        let (b, replied) = reopen-answers o.lot_id d1 in
        let (answer, written) = expire_loop_lem now ttl os d2 in
        let ids = stale_ids now ttl os in
        let merged =
          update_where-update_where (λ r. mem r.id ids) (offer_is o.id) (set_offer expired)
            (λ r. refl) (λ r. refl) (laws.view d).offers in
        (
          ((if b then 1 else 0) + answer.0, ground (arith, stale, replied, answer.1)),
          ground (
            arith,
            stale,
            replied,
            answer.1,
            written,
            merged,
            reopen-offers o.lot_id d1,
            laws.offers.updates (offer_is o.id) (set_offer expired) d,
          ),
        )
  ]

-- A query by key finds exactly the rows that were picked, when keys are unique.
mem-none :
    {Row : Type 0} (key : Row → ℕ) (p : Row → Bool) (k : ℕ) (l : List Row)
    → All (λ y. k ≢ key y) l
    → mem k (map key (filter p l)) ≡ false
mem-none key p k [] h = refl
mem-none key p k (y ∷ ys) h = ground (arith, h.0, mem-none key p k ys h.1)

mem-cons_if :
    {Row : Type 0} (key : Row → ℕ) (p : Row → Bool) (x : Row) (rest ys : List Row)
    → All (λ y. key x ≢ key y) ys
    → All (λ r. mem (key r) (map key rest) ≡ p r) ys
    → All (λ r. mem (key r) (map key (if p x then x ∷ rest else rest)) ≡ p r) ys
mem-cons_if key p x rest [] u h = tt
mem-cons_if key p x rest (y ∷ ys) u h =
    (ground (arith, u.0, h.0), mem-cons_if key p x rest ys u.1 h.1)

mem-eq-test :
    {Row : Type 0} (key : Row → ℕ) (p : Row → Bool) (l : List Row)
    → UniqueBy key l
    → All (λ r. mem (key r) (map key (filter p l)) ≡ p r) l
mem-eq-test key p [] u = tt
mem-eq-test key p (x ∷ xs) u = (
  ground (arith, mem-none key p (key x) xs u.0),
  mem-cons_if key p x (filter p xs) xs u.0 (mem-eq-test key p xs u.1),
)

filter-filter :
    {A : Type 0} (p q : A → Bool) (l : List A)
    → ((x : A) → q x ≡ true → p x ≡ true)
    → filter q (filter p l) ≡ filter q l
filter-filter p q [] h = refl
filter-filter p q (x ∷ xs) h = elim (Bool-cases (p x)) [
  | inl t ↦ ground (arith, t, filter-filter p q xs h)
  | inr f ↦ ground (arith, f, filter-filter p q xs h, h x)
]

stale-pending :
    (now ttl : ℕ) (o : Offer) → offer_is_stale now ttl o ≡ true → is_pending o.status ≡ true
unfolding offer_is_stale
stale-pending now ttl o h = ground arith

module _ {Db : Type 0} (c : Client Db) (laws : Laws c) where
  -- With at most 500 pending offers and unique ids, the job marks exactly the stale offers as
  -- expired, leaves every other offer as it is, and reports their ids, each once, and their number.
  pub expire_stale_offers-offers :
      (ttl now : ℕ) (d : Db)
      → UniqueBy (λ o. o.id) (laws.view d).offers
      → length (filter (λ o. is_pending o.status) (laws.view d).offers) ≤ 500
      → let stale =
          map (λ (o : Offer). o.id) (filter (offer_is_stale now ttl) (laws.view d).offers) in
        ((n : ℕ) × ((expire_stale_offers c ttl now d).0 ≡ ok (length stale, n, stale)))
        × ((laws.view (expire_stale_offers c ttl now d).1).offers
            ≡ update_where (offer_is_stale now ttl) (set_offer expired) (laws.view d).offers)
  unfolding expire_stale_offers
  expire_stale_offers-offers ttl now d unique few =
      let offers = (laws.view d).offers in
      let stale = offer_is_stale now ttl in
      let waiting = filter (λ o. is_pending o.status) offers in
      let snapshot : take 500 (c.offers.select (λ o. is_pending o.status) d) ≡ waiting =
        ap (take 500) (laws.offers.selects (λ o. is_pending o.status) d)
        ∙ take-all 500 waiting few in
      let same = filter-filter (λ o. is_pending o.status) stale offers (stale-pending now ttl) in
      let (answer, written) = expire_loop_lem c laws now ttl waiting d in
      let exact =
        update_where-congr _ stale (set_offer expired) offers
          (mem-eq-test (λ o. o.id) stale offers unique) in
      (
        (answer.0, ground (arith, snapshot, answer.1, same)),
        rw snapshot (ground (arith, answer.1))
            ∙ written
            ∙ ap (λ l. update_where (λ o. mem o.id (map (λ x. x.id) l)) (set_offer expired) offers)
                same
            ∙ exact,
      )
