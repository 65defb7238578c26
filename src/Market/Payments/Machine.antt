-- ===== src/Market/Payments/Machine.antt =====
-- The payments as a state machine: any sequence of requests to the four writing handlers.
use sih.Prelude.{
  All, All-map, Bool, List, [], any, ap, arith, false, inl, inr, refl, true, ℕ, ◌&&◌, ◌==◌, ◌∷◌,
  ◌≡◌, ◌≢◌,
}
use sih.Store.{Client, Payment, PaymentStatus, Result-cases, disputed, failed}
use sih.Store.Keys.{
  UniqueBy, UniqueBy-snoc, UniqueBy-update_where, any-append_left, any-update_where, only_match,
}
use sih.Store.Laws.{Laws}
use sih.Market.Payments.{
  PaymentCreate, create_payment, is_closed, mark_disputed, mark_failed, mark_paid, own, set_paid,
  set_status,
}
use sih.Market.Payments.Atomic.{mark_paid-atomic, own-id}
use sih.Market.Payments.Effects.{
  Writes, mark_disputed-Writes, mark_failed-Writes, mark_paid-Settled, mark_paid-guard,
}
use sih.Market.Payments.Retry.{create_payment-Adds}

pub data Request : Type 0 where
  create : (body : PaymentCreate) (user_id new_id : ℕ) → Request
  pay : (now payment_id user_id : ℕ) → Request
  fail : (payment_id user_id : ℕ) → Request
  dispute : (payment_id user_id : ℕ) → Request

module _ {Db : Type 0} (c : Client Db) where
  -- What a request leaves behind, whatever it answers.
  unfoldable pub serve : Request → Db → Db
  serve (create body u n) d = (create_payment c body u n d).1
  serve (pay now i u) d = (mark_paid c now i u d).1
  serve (fail i u) d = (mark_failed c i u d).1
  serve (dispute i u) d = (mark_disputed c i u d).1

  module _ (laws : Laws c) where
    abbrev pub rows : Db → List Payment
    rows d = (laws.view d).payments

    -- The id that uuid4 draws for a new row is no row's yet.
    abbrev pub IsFresh : Request → Db → Type 0
    IsFresh (create body u n) d = All (λ p. p.id ≢ n) (rows d)
    IsFresh _ d = Unit

    pub data Reach (start : Db) : Db → Type 0 where
      stop : Reach start start
      step : {d : Db} → Reach start d → (r : Request) → IsFresh r d → Reach start (serve r d)

    abbrev pub HasIds : Db → Type 0
    HasIds d = UniqueBy (λ p. p.id) (rows d)

    Writes-HasIds :
        (s : PaymentStatus) (i u : ℕ) (d d' : Db)
        → HasIds d
        → Writes c laws s i u (laws.view d) (laws.view d')
        → HasIds d'
    Writes-HasIds s i u d d' ids (inl same) = rw same ids
    Writes-HasIds s i u d d' ids (inr set) =
        rw set (UniqueBy-update_where (own i u) (set_status s) (λ p. p.id) (λ r. refl) (rows d) ids)

    serve-HasIds : (r : Request) (d : Db) → IsFresh r d → HasIds d → HasIds (serve r d)
    unfolding serve
    serve-HasIds (create body u n) d fresh ids = elim (create_payment-Adds c laws body u n d) [
      | inl same ↦ rw same ids
      | inr (_, added) ↦ rw added (UniqueBy-snoc (λ p. p.id) (rows d) _ fresh ids)
    ]
    serve-HasIds (pay now i u) d fresh ids = elim (Result-cases (mark_paid c now i u d).0) [
      | inr (e, refused) ↦
          let same : rows (mark_paid c now i u d).1 ≡ rows d =
            ap (λ t. t.payments) (mark_paid-atomic c laws now i u d ids refused) in
          rw same ids
      | inl (p, done) ↦
          rw (mark_paid-Settled c laws now i u d p done).2
            (UniqueBy-update_where (own i u) (set_paid now) (λ p. p.id) (λ r. refl) (rows d) ids)
    ]
    serve-HasIds (fail i u) d fresh ids =
        Writes-HasIds failed i u d _ ids (mark_failed-Writes c laws i u d)
    serve-HasIds (dispute i u) d fresh ids =
        Writes-HasIds disputed i u d _ ids (mark_disputed-Writes c laws i u d)

    abbrev pub closed_at : ℕ → Payment → Bool
    closed_at k p = p.id == k && is_closed p.status

    abbrev pub Closed : ℕ → Db → Type 0
    Closed k d = any (closed_at k) (rows d) ≡ true

    Writes-Closed :
        (k : ℕ) (s : PaymentStatus) (i u : ℕ) (d d' : Db)
        → is_closed s ≡ true
        → Closed k d
        → Writes c laws s i u (laws.view d) (laws.view d')
        → Closed k d'
    Writes-Closed k s i u d d' bad h (inl same) = rw same h
    Writes-Closed k s i u d d' bad h (inr set) =
        rw set (any-update_where (closed_at k) (own i u) (set_status s) (rows d) (keeps (rows d)) h)
      where
        keeps :
            (l : List Payment)
            → All
                (λ r. closed_at k r ≡ true → own i u r ≡ true → closed_at k (set_status s r) ≡ true)
                l
        keeps [] = tt
        keeps (r ∷ rs) = ((λ q o. ground (arith, bad)), keeps rs)

    -- The guard of `mark_paid` read the one row that the update matches.
    pay-Closed :
        (k now i u : ℕ) (d : Db) → HasIds d → Closed k d → Closed k (mark_paid c now i u d).1
    pay-Closed k now i u d ids h = elim (Result-cases (mark_paid c now i u d).0) [
      | inr (e, refused) ↦
          let same : rows (mark_paid c now i u d).1 ≡ rows d =
            ap (λ t. t.payments) (mark_paid-atomic c laws now i u d ids refused) in
          rw same h
      | inl (p, done) ↦
          let (cur, rest, found, open_row) = mark_paid-guard c laws now i u d p done in
          let only = only_match (λ p. p.id) i (own i u) (own-id i u) (rows d) cur rest ids found in
          rw (mark_paid-Settled c laws now i u d p done).2 (
            any-update_where (closed_at k) (own i u) (set_paid now) (rows d)
              (All-map (λ r same q o. absurd (clash cur r open_row (same o) q)) (rows d) only) h)
    ]
      where
        clash :
            (cur r : Payment) → is_closed cur.status ≡ false → r ≡ cur → closed_at k r ≡ true → ⊥
        clash cur r a e q = ground arith

    serve-Closed : (k : ℕ) (r : Request) (d : Db) → HasIds d → Closed k d → Closed k (serve r d)
    unfolding serve
    serve-Closed k (create body u n) d ids h = elim (create_payment-Adds c laws body u n d) [
      | inl same ↦ rw same h
      | inr (_, added) ↦ rw added (any-append_left (closed_at k) (rows d) _ h)
    ]
    serve-Closed k (pay now i u) d ids h = pay-Closed k now i u d ids h
    serve-Closed k (fail i u) d ids h =
        Writes-Closed k failed i u d _ refl h (mark_failed-Writes c laws i u d)
    serve-Closed k (dispute i u) d ids h =
        Writes-Closed k disputed i u d _ refl h (mark_disputed-Writes c laws i u d)

    pub Reach-HasIds : {d e : Db} → HasIds d → Reach d e → HasIds e
    Reach-HasIds ids stop = ids
    Reach-HasIds ids (step {d = e} path r fresh) = serve-HasIds r e fresh (Reach-HasIds ids path)

    -- A failed or disputed payment stays failed or disputed through every sequence of requests to
    -- the payment endpoints, when the ids of the payments are unique and new ids are fresh.
    pub Reach-Closed : (k : ℕ) {d e : Db} → HasIds d → Closed k d → Reach d e → Closed k e
    Reach-Closed k ids h stop = h
    Reach-Closed k ids h (step {d = e} path r fresh) =
        serve-Closed k r e (Reach-HasIds ids path) (Reach-Closed k ids h path)
