-- ===== src/Market/Payments/OneOpen.antt =====
-- The unique index of db/migrations/012_payment_atomicity.sql is kept by the handlers themselves.
use sih.Prelude.{
  All, All-append, All-map, All-of-filter, Bool, List, Option, [], ap, arith, false, if◌then◌else◌,
  inl, inr, none, refl, true, ℕ, ◌&&◌, ◌++◌, ◌==◌, ◌∷◌, ◌≡◌,
}
use sih.Store.{Client, Payment, PaymentStatus, Result-cases, disputed, failed}
use sih.Store.Keys.{only_match}
use sih.Store.Laws.{Laws, update_where}
use sih.Market.Payments.{
  PaymentCreate, create_payment, existing_payment, is_closed, is_open, mark_paid, own, set_paid,
  set_status,
}
use sih.Market.Payments.Atomic.{mark_paid-atomic, own-id}
use sih.Market.Payments.Effects.{
  Writes, mark_disputed-Writes, mark_failed-Writes, mark_paid-Settled, mark_paid-guard,
}
use sih.Market.Payments.Machine.{
  HasIds, Reach, Reach-HasIds, Request, create, dispute, fail, pay, rows, serve, step, stop,
}
use sih.Market.Payments.Retry.{create_payment-Adds, existing, for_offer, new_row}

abbrev pub same_offer : Payment → Payment → Bool
same_offer p q = p.offer_id == q.offer_id && p.user_id == q.user_id

-- No user has two pending or paid payments for one offer.
abbrev pub OneOpen : List Payment → Type 0
OneOpen [] = Unit
OneOpen (x ∷ xs) =
    (is_open x.status ≡ true → All (λ y. is_open y.status ≡ true → same_offer x y ≡ false) xs)
    × OneOpen xs

-- An update of the status that reopens no row keeps it.
module _ (p : Payment → Bool) (f : Payment → Payment)
    (offer : (r : Payment) → (f r).offer_id ≡ r.offer_id)
    (user : (r : Payment) → (f r).user_id ≡ r.user_id) where
  abbrev Reopens : Payment → Type 0
  Reopens r = p r ≡ true → is_open (f r).status ≡ true → is_open r.status ≡ true

  apart-update_where :
      (x x' : Payment) (ys : List Payment)
      → x'.offer_id ≡ x.offer_id
      → x'.user_id ≡ x.user_id
      → All Reopens ys
      → All (λ y. is_open y.status ≡ true → same_offer x y ≡ false) ys
      → All (λ y. is_open y.status ≡ true → same_offer x' y ≡ false) (update_where p f ys)
  apart-update_where x x' [] eo eu k h = tt
  apart-update_where x x' (y ∷ ys) eo eu k h =
      (ground (arith, offer y, user y, k.0, h.0), apart-update_where x x' ys eo eu k.1 h.1)

  pub OneOpen-update_where :
      (l : List Payment) → All Reopens l → OneOpen l → OneOpen (update_where p f l)
  OneOpen-update_where [] k h = tt
  OneOpen-update_where (x ∷ xs) k h = (
    (λ o.
        apart-update_where x (if p x then f x else x) xs (ground (arith, offer x))
          (ground (arith, user x)) k.1 (h.0 (ground (arith, k.0)))),
    OneOpen-update_where xs k.1 h.1,
  )

OneOpen-snoc :
    (l : List Payment) (r : Payment)
    → All (λ x. is_open x.status ≡ true → same_offer x r ≡ false) l
    → OneOpen l
    → OneOpen (l ++ r ∷ [])
OneOpen-snoc [] r a h = ((λ o. tt), tt)
OneOpen-snoc (x ∷ xs) r a h = (
  (λ o.
      All-append (λ y. is_open y.status ≡ true → same_offer x y ≡ false) xs (r ∷ []) (h.0 o)
        ((λ _. a.0 o), tt)),
  OneOpen-snoc xs r a.1 h.1,
)

existing_payment-none :
    (ref : Option ℕ) (l : List Payment)
    → existing_payment ref l ≡ none
    → All (λ r. is_open r.status ≡ false) l
unfolding existing_payment
existing_payment-none ref [] h = tt
existing_payment-none ref (r ∷ rs) h = (ground arith, existing_payment-none ref rs (ground arith))

module _ {Db : Type 0} (c : Client Db) (laws : Laws c) where
  abbrev pub HasOneOpen : Db → Type 0
  HasOneOpen d = OneOpen (rows c laws d)

  create-OneOpen :
      (body : PaymentCreate) (u n : ℕ) (d : Db)
      → HasOneOpen d
      → HasOneOpen (create_payment c body u n d).1
  create-OneOpen body u n d h = elim (create_payment-Adds c laws body u n d) [
    | inl same ↦ rw same h
    | inr (fresh, added) ↦
        let closed =
          All-of-filter (λ r. is_open r.status ≡ false) (for_offer c laws body u) (rows c laws d)
            (existing_payment-none body.reference (existing c laws body u d) fresh) in
        rw added (
          OneOpen-snoc (rows c laws d) (new_row c laws body u n)
            (All-map (λ r shut o. ground (arith, shut)) (rows c laws d) closed) h)
  ]

  Writes-OneOpen :
      (s : PaymentStatus) (i u : ℕ) (d d' : Db)
      → is_open s ≡ false
      → HasOneOpen d
      → Writes c laws s i u (laws.view d) (laws.view d')
      → HasOneOpen d'
  Writes-OneOpen s i u d d' shut h (inl same) = rw same h
  Writes-OneOpen s i u d d' shut h (inr set) = rw set (
      OneOpen-update_where (own i u) (set_status s) (λ r. refl) (λ r. refl) (rows c laws d)
        (keeps (rows c laws d)) h)
    where
      keeps : (l : List Payment) → All (Reopens (own i u) (set_status s) (λ r. refl) (λ r. refl)) l
      keeps [] = tt
      keeps (r ∷ rs) = ((λ _ o. cc), keeps rs)

  pay-OneOpen :
      (now i u : ℕ) (d : Db) → HasIds c laws d → HasOneOpen d → HasOneOpen (mark_paid c now i u d).1
  pay-OneOpen now i u d ids h = elim (Result-cases (mark_paid c now i u d).0) [
    | inr (e, refused) ↦
        let same : rows c laws (mark_paid c now i u d).1 ≡ rows c laws d =
          ap (λ t. t.payments) (mark_paid-atomic c laws now i u d ids refused) in
        rw same h
    | inl (p, done) ↦
        let (cur, rest, found, guarded) = mark_paid-guard c laws now i u d p done in
        let only =
          only_match (λ p. p.id) i (own i u) (own-id i u) (rows c laws d) cur rest ids found in
        rw (mark_paid-Settled c laws now i u d p done).2 (
          OneOpen-update_where (own i u) (set_paid now) (λ r. refl) (λ r. refl) (rows c laws d)
            (All-map (λ r same o _. was_open cur r guarded (same o)) (rows c laws d) only) h)
  ]
    where
      was_open :
          (cur r : Payment) → is_closed cur.status ≡ false → r ≡ cur → is_open r.status ≡ true
      was_open cur r a e = ground arith

  serve-OneOpen : (r : Request) (d : Db) → HasIds c laws d → HasOneOpen d → HasOneOpen (serve c r d)
  unfolding serve
  serve-OneOpen (create body u n) d ids h = create-OneOpen body u n d h
  serve-OneOpen (pay now i u) d ids h = pay-OneOpen now i u d ids h
  serve-OneOpen (fail i u) d ids h =
      Writes-OneOpen failed i u d _ refl h (mark_failed-Writes c laws i u d)
  serve-OneOpen (dispute i u) d ids h =
      Writes-OneOpen disputed i u d _ refl h (mark_disputed-Writes c laws i u d)

  -- Through every sequence of requests to the payment endpoints no user ever has two pending or
  -- paid payments for one offer, when this holds at the start, the ids of the payments are unique
  -- and new ids are fresh.
  pub Reach-OneOpen : {d e : Db} → HasIds c laws d → HasOneOpen d → Reach c laws d e → HasOneOpen e
  Reach-OneOpen ids h stop = h
  Reach-OneOpen ids h (step {d = e} path r fresh) =
      serve-OneOpen r e (Reach-HasIds c laws ids path) (Reach-OneOpen ids h path)
