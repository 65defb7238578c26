-- ===== src/Market/Reliability/Effects.antt =====
-- Rescoring a buyer always answers, and writes to the table of buyers alone.
use sih.Prelude.{List, Option, [], arith, map, none, refl, some, ℕ, ◌==◌, ◌∷◌, ◌≡◌}
use sih.Store.{Client, Offer, Reliability, Result, ok}
use sih.Store.Laws.{Laws, Tables}
use sih.Market.Reliability.{
  history, recompute_buyer_reliability, score_payment_reliability, store_grade,
}

module _ {Db : Type 0} (c : Client Db) (laws : Laws c) where
  abbrev IsRead : {A : Type 0} → Db → Result A × Db → Type 0
  IsRead {A} d r = (a : A) × (r ≡ (ok a, d))

  history-IsRead : (ids : List ℕ) (d : Db) → IsRead d (history c ids d)
  unfolding history
  history-IsRead [] d = (record { paid = 0; failed = 0; disputed = 0; grief = 0 }, refl)
  history-IsRead (i ∷ is) d = (_, refl)

  -- What a handler did to the tables but for the buyers'.
  abbrev pub SameButBuyers : Tables → Tables → Type 0
  SameButBuyers s t = t ≡ record s { buyers = t.buyers }

  store_grade-SameButBuyers :
      (b : ℕ) (g : Option Reliability) (d : Db)
      → ((store_grade c b g d).0 ≡ ok g)
        × SameButBuyers (laws.view d) (laws.view (store_grade c b g d).1)
  unfolding store_grade
  store_grade-SameButBuyers b none d = (refl, refl)
  store_grade-SameButBuyers b (some g) d =
      let written =
        laws.buyers.updates (λ b'. b'.id == b) (λ b'. record b' { payment_reliability = some g })
          d in
      (refl, ground arith)

  pub recompute-SameButBuyers :
      (b : ℕ) (d : Db)
      → ((g : Option Reliability) × ((recompute_buyer_reliability c b d).0 ≡ ok g))
        × SameButBuyers (laws.view d) (laws.view (recompute_buyer_reliability c b d).1)
  unfolding recompute_buyer_reliability
  recompute-SameButBuyers b d =
      let ids = map (λ (o : Offer). o.id) (c.offers.select (λ o. o.buyer_id == b) d) in
      let (h, read) = history-IsRead ids d in
      let (done, same) = store_grade-SameButBuyers b (score_payment_reliability h) d in
      ((score_payment_reliability h, ground (arith, read, done)), ground (arith, read, same))
