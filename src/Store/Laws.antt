-- ===== src/Store/Laws.antt =====
-- What the handlers rely on of the data service (documented behaviour of PostgREST over
-- PostgreSQL). `view` is the content of the tables, each as a list of rows.
use sih.Prelude.{Bool, List, [], filter, if◌then◌else◌, map, ◌++◌, ◌∷◌, ◌≡◌, ◌⊎◌}
use sih.Store.{
  Booking, Buyer, Client, Grievance, LogisticsOption, Lot, Offer, Payment, Profile, Table,
}

pub record Tables : Type 0 where
  pub lots : List Lot
  pub offers : List Offer
  pub payments : List Payment
  pub buyers : List Buyer
  pub grievances : List Grievance
  pub bookings : List Booking
  pub options : List LogisticsOption
  pub profiles : List Profile

-- The rows after `UPDATE … SET … WHERE`.
abbrev pub update_where : {Row : Type 0} → (Row → Bool) → (Row → Row) → List Row → List Row
update_where p f [] = []
update_where p f (r ∷ rs) = (if p r then f r else r) ∷ update_where p f rs

module _ {Db Row State : Type 0} (view : Db → State) (get : State → List Row)
    (put : List Row → State → State) where
  -- A query answers with the rows that pass the filter, and an update writes those rows, returns
  -- them as written and touches no other row and no other table. An insert stores the row and
  -- returns it, or is refused, returns nothing and changes nothing.
  pub record TableLaws (t : Table Db Row) : Type 0 where
    pub selects : (p : Row → Bool) (d : Db) → t.select p d ≡ filter p (get (view d))
    pub returns :
        (p : Row → Bool) (f : Row → Row) (d : Db)
        → (t.update p f d).0 ≡ map f (filter p (get (view d)))
    pub updates :
        (p : Row → Bool) (f : Row → Row) (d : Db)
        → view (t.update p f d).1 ≡ put (update_where p f (get (view d))) (view d)
    pub inserts :
        (r : Row) (d : Db)
        → ((t.insert r d).0 ≡ r ∷ [])
            × (view (t.insert r d).1 ≡ put (get (view d) ++ r ∷ []) (view d))
          ⊎ ((t.insert r d).0 ≡ []) × (view (t.insert r d).1 ≡ view d)

pub record Laws {Db : Type 0} (c : Client Db) : Type 0 where
  pub view : Db → Tables
  pub lots : TableLaws view (λ s. s.lots) (λ l s. record s { lots = l }) c.lots
  pub offers : TableLaws view (λ s. s.offers) (λ l s. record s { offers = l }) c.offers
  pub payments : TableLaws view (λ s. s.payments) (λ l s. record s { payments = l }) c.payments
  pub buyers : TableLaws view (λ s. s.buyers) (λ l s. record s { buyers = l }) c.buyers
  pub grievances :
      TableLaws view (λ s. s.grievances) (λ l s. record s { grievances = l }) c.grievances
  pub bookings : TableLaws view (λ s. s.bookings) (λ l s. record s { bookings = l }) c.bookings
  pub options : TableLaws view (λ s. s.options) (λ l s. record s { options = l }) c.options
  pub profiles : TableLaws view (λ s. s.profiles) (λ l s. record s { profiles = l }) c.profiles
