-- ===== src/Store/Memory.antt =====
-- A data service that keeps its tables in memory: the laws can be met, and examples run on it.
use sih.Prelude.{List, [], filter, inl, map, refl, ◌++◌, ◌∷◌}
use sih.Store.{Client, Table}
use sih.Store.Laws.{Laws, TableLaws, Tables, update_where}

module _ {Row State : Type 0} (get : State → List Row) (put : List Row → State → State) where
  abbrev pub table : Table State Row
  table = record {
    select = λ p s. filter p (get s);
    update = λ p f s. (map f (filter p (get s)), put (update_where p f (get s)) s);
    insert = λ r s. (r ∷ [], put (get s ++ r ∷ []) s);
  }

  abbrev pub table_laws : TableLaws (λ s. s) get put table
  table_laws = record {
    selects = λ p d. refl;
    returns = λ p f d. refl;
    updates = λ p f d. refl;
    inserts = λ r d. inl (refl, refl);
  }

abbrev pub memory : Client Tables
memory = record {
  lots = table (λ s. s.lots) (λ l s. record s { lots = l });
  offers = table (λ s. s.offers) (λ l s. record s { offers = l });
  payments = table (λ s. s.payments) (λ l s. record s { payments = l });
  buyers = table (λ s. s.buyers) (λ l s. record s { buyers = l });
  grievances = table (λ s. s.grievances) (λ l s. record s { grievances = l });
  bookings = table (λ s. s.bookings) (λ l s. record s { bookings = l });
  options = table (λ s. s.options) (λ l s. record s { options = l });
  profiles = table (λ s. s.profiles) (λ l s. record s { profiles = l });
}

abbrev pub memory_laws : Laws memory
memory_laws = record {
  view = λ s. s;
  lots = table_laws (λ s. s.lots) (λ l s. record s { lots = l });
  offers = table_laws (λ s. s.offers) (λ l s. record s { offers = l });
  payments = table_laws (λ s. s.payments) (λ l s. record s { payments = l });
  buyers = table_laws (λ s. s.buyers) (λ l s. record s { buyers = l });
  grievances = table_laws (λ s. s.grievances) (λ l s. record s { grievances = l });
  bookings = table_laws (λ s. s.bookings) (λ l s. record s { bookings = l });
  options = table_laws (λ s. s.options) (λ l s. record s { options = l });
  profiles = table_laws (λ s. s.profiles) (λ l s. record s { profiles = l });
}
