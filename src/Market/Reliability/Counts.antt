-- ===== src/Market/Reliability/Counts.antt =====
-- The grade that `recompute_buyer_reliability` stores, as counts over the tables.
use sih.Prelude.{
  List, Option, Option-cases, [], arith, filter, inl, inr, length, map, none, refl, some, ℕ, ◌&&◌,
  ◌==◌, ◌∷◌, ◌≡◌,
}
use sih.Store.{Buyer, Client, Grievance, Payment, Reliability, ok}
use sih.Store.Laws.{Laws, Tables, update_where}
use sih.Market.Reliability.{
  History, about, history, is_disputed, is_failed, is_paid, is_payment, is_running, mem,
  recompute_buyer_reliability, score_payment_reliability, store_grade,
}

-- The ids of a buyer's offers.
abbrev pub offers_of : ℕ → Tables → List ℕ
offers_of b t = map (λ o. o.id) (filter (λ o. o.buyer_id == b) t.offers)

abbrev payments_of : List ℕ → Tables → List Payment
payments_of is t = filter (λ p. mem p.offer_id is) t.payments

abbrev grievances_of : List ℕ → Tables → List Grievance
grievances_of is t = filter (λ g. about is g.offer_id && is_payment g.category) t.grievances

-- The settlement history of the offers: what was paid, failed and disputed, and the grievances on
-- payments that are still running.
abbrev pub counts : List ℕ → Tables → History
counts is t = record {
  paid = length (filter (λ p. is_paid p.status) (payments_of is t));
  failed = length (filter (λ p. is_failed p.status) (payments_of is t));
  disputed = length (filter (λ p. is_disputed p.status) (payments_of is t));
  grief = length (filter (λ g. is_running g.status) (grievances_of is t));
}

-- The table of buyers after a grade is stored.
abbrev pub graded : ℕ → Option Reliability → List Buyer → List Buyer
graded b none l = l
graded b (some g) l =
    update_where (λ x. x.id == b) (λ x. record x { payment_reliability = some g }) l

no_payments : (l : List Payment) → filter (λ p. mem p.offer_id []) l ≡ []
no_payments [] = refl
no_payments (x ∷ xs) = no_payments xs

no_grievances :
    (l : List Grievance) → filter (λ g. about [] g.offer_id && is_payment g.category) l ≡ []
no_grievances [] = refl
no_grievances (x ∷ xs) = elim (Option-cases x.offer_id) [
  | inl a ↦ ground (arith, a, no_grievances xs)
  | inr (o, a) ↦ ground (arith, a, no_grievances xs)
]

module _ {Db : Type 0} (c : Client Db) (laws : Laws c) where
  history-counts : (is : List ℕ) (d : Db) → history c is d ≡ (ok (counts is (laws.view d)), d)
  unfolding history
  history-counts [] d =
      ground (arith, no_payments (laws.view d).payments, no_grievances (laws.view d).grievances)
  history-counts (i ∷ is) d = ground (
    arith,
    laws.payments.selects (λ p. mem p.offer_id (i ∷ is)) d,
    laws.grievances.selects (λ g. about (i ∷ is) g.offer_id && is_payment g.category) d,
  )

  store_grade-graded :
      (b : ℕ) (g : Option Reliability) (d : Db)
      → ((store_grade c b g d).0 ≡ ok g)
        × (laws.view (store_grade c b g d).1
            ≡ record (laws.view d) { buyers = graded b g (laws.view d).buyers })
  unfolding store_grade
  store_grade-graded b none d = (refl, refl)
  store_grade-graded b (some g) d = (
    refl,
    laws.buyers.updates (λ x. x.id == b) (λ x. record x { payment_reliability = some g }) d,
  )

  -- The grade answered and stored is that of the counts over the buyer's offers; without evidence
  -- nothing is stored, and no other table changes.
  pub recompute_buyer_reliability_lem :
      (b : ℕ) (d : Db)
      → let grade = score_payment_reliability (counts (offers_of b (laws.view d)) (laws.view d)) in
        let (r, d') = recompute_buyer_reliability c b d in
        (r ≡ ok grade)
        × (laws.view d' ≡ record (laws.view d) { buyers = graded b grade (laws.view d).buyers })
  unfolding recompute_buyer_reliability
  recompute_buyer_reliability_lem b d =
      let found = laws.offers.selects (λ o. o.buyer_id == b) d in
      let is = offers_of b (laws.view d) in
      let read = history-counts is d in
      let (done, stored) =
        store_grade-graded b (score_payment_reliability (counts is (laws.view d))) d in
      (ground (arith, found, read, done), ground (arith, found, read, done, stored))
