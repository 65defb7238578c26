-- ===== src/Market/Lots.antt =====
-- Lots: app/routers/lots.py.
pub mod Pool
pub mod Quantity
pub mod Ownership
use sih.Prelude.{
  Bool, List, Option, [], all, false, if◌then◌else◌, is_value, length, none, not, some, sum_of,
  true, ℕ, ◌&&◌, ◌*◌, ◌+◌, ◌/◌, ◌==◌, ◌||◌, ◌∷◌,
}
use sih.Store.{
  Action, Client, Grade, Lot, LotStatus, Result, Role, err, first_or, fpo, insert, lift, matched,
  ok, open_lot, pure, raise, raise_if, select, sold, update, withdrawn, ◌>>=◌, ◌>>◌,
}
use sih.Market.Reliability.{mem}

abbrev pub is_open_lot : LotStatus → Bool
is_open_lot open_lot = true
is_open_lot _ = false

-- `status in ("sold", "withdrawn")`
abbrev pub is_gone : LotStatus → Bool
is_gone sold = true
is_gone withdrawn = true
is_gone _ = false

-- The caller is the lot's user or its FPO.
abbrev pub owns_lot : ℕ → Lot → Bool
owns_lot user l = l.user_id == user || is_value l.fpo_id user

abbrev pub is_fpo : Role → Bool
is_fpo fpo = true
is_fpo _ = false

pub record LotCreate : Type 0 where
  pub commodity_id : ℕ
  pub market_id : Option ℕ
  pub quantity_qtl : ℕ
  pub grade : Grade
  pub asking_price : Option ℕ
  pub fpo_id : Option ℕ

abbrev pub new_lot : LotCreate → ℕ → ℕ → Lot
new_lot body user_id new_id = record {
  id = new_id;
  user_id = user_id;
  fpo_id = body.fpo_id;
  commodity_id = body.commodity_id;
  market_id = body.market_id;
  quantity_qtl = body.quantity_qtl;
  grade = body.grade;
  asking_price = body.asking_price;
  status = open_lot;
}

pub record LotAggregate : Type 0 where
  pub lot_ids : List ℕ
  pub asking_price : Option ℕ
  pub market_id : Option ℕ

-- `by_id.get(lid)`: of several rows with the id, the last.
unfoldable pub by_id : ℕ → List Lot → Option Lot
by_id i [] = none
by_id i (l ∷ ls) = elim (by_id i ls) [
  | some found ↦ some found
  | none ↦ if l.id == i then some l else none
]

abbrev pub with_first : Lot → Result (List Lot) → Result (List Lot)
with_first l (ok ls) = ok (l ∷ ls)
with_first l (err e) = err e

-- The loop over `body.lot_ids`: the first id without a row, or whose lot is not open, ends it.
unfoldable pub collect_members : List Lot → List ℕ → Result (List Lot)
unfolding by_id
collect_members rows [] = ok []
collect_members rows (i ∷ is) =
    let rest = collect_members rows is in
    elim (by_id i rows) [
      | none ↦ err 404
      | some lot ↦ if not (is_open_lot lot.status) then err 409 else with_first lot rest
    ]

-- `len({m["commodity_id"] for m in members}) == 1`
abbrev pub same_commodity : List Lot → Bool
same_commodity [] = false
same_commodity (m ∷ ms) = all (λ l. l.commodity_id == m.commodity_id) ms

abbrev asking_prices : List Lot → List ℕ
asking_prices [] = []
asking_prices (m ∷ ms) =
    let rest = asking_prices ms in elim m.asking_price [ none ↦ rest | some p ↦ p ∷ rest ]

-- The mean, rounded to hundredths as the column rounds it.
abbrev mean : List ℕ → Option ℕ
mean [] = none
mean (p ∷ ps) = let n = length (p ∷ ps) in some ((2 * sum_of (λ x. x) (p ∷ ps) + n) / (2 * n))

abbrev pooled_price : Option ℕ → List Lot → Option ℕ
pooled_price none members = mean (asking_prices members)
pooled_price (some p) members = some p

abbrev or_first : Option ℕ → Option ℕ → Option ℕ
or_first none b = b
or_first (some a) b = some a

abbrev pub pooled : LotAggregate → Lot → List Lot → ℕ → ℕ → Lot
pooled body m ms user_id new_id = record {
  id = new_id;
  user_id = user_id;
  fpo_id = some user_id;
  commodity_id = m.commodity_id;
  market_id = or_first body.market_id m.market_id;
  quantity_qtl = sum_of (λ l. l.quantity_qtl) (m ∷ ms);
  grade = m.grade;
  asking_price = pooled_price body.asking_price (m ∷ ms);
  status = open_lot;
}

-- What becomes of a member lot.
abbrev pub join_pool : ℕ → Lot → Lot
join_pool user_id l = record l { status = matched; fpo_id = some user_id }

abbrev pub set_grade : Grade → Lot → Lot
set_grade g l = record l { grade = g }

module _ {Db : Type 0} (c : Client Db) where
  unfoldable pub create_lot : LotCreate → ℕ → ℕ → Action Db Lot
  create_lot body user_id new_id = do
    stored ← insert c.lots (new_lot body user_id new_id)
    lift (first_or 400 stored)

  unfoldable pub require_fpo : ℕ → Action Db (Unit {0})
  require_fpo user_id = do
    rows ← select c.profiles (λ p. p.id == user_id)
    profile ← lift (first_or 403 rows)
    raise_if (not (is_fpo profile.role)) 403

  unfoldable pub join_members : ℕ → List Lot → Action Db (Unit {0})
  join_members user_id [] = pure tt
  join_members user_id (m ∷ ms) =
      update c.lots (λ l. l.id == m.id) (join_pool user_id) >> join_members user_id ms

  -- `aggregate_lots` from the insert on.
  unfoldable pub store_pool : Lot → ℕ → List Lot → Action Db Lot
  unfolding join_members
  store_pool row user_id members = do
    stored ← insert c.lots row
    lot ← lift (first_or 400 stored)
    join_members user_id members
    pure lot

  -- `aggregate_lots` once the members are collected.
  unfoldable pub pool_members : LotAggregate → ℕ → ℕ → List Lot → Action Db Lot
  unfolding store_pool
  pool_members body user_id new_id [] = raise 400
  pool_members body user_id new_id (m ∷ ms) =
      raise_if (not (same_commodity (m ∷ ms))) 400
      >> store_pool (pooled body m ms user_id new_id) user_id (m ∷ ms)

  unfoldable pub aggregate_lots : LotAggregate → ℕ → ℕ → Action Db Lot
  unfolding require_fpo collect_members pool_members
  aggregate_lots body user_id new_id = do
    require_fpo user_id
    rows ← select c.lots (λ l. mem l.id body.lot_ids)
    members ← lift (collect_members rows body.lot_ids)
    pool_members body user_id new_id members

  unfoldable pub get_lot : ℕ → ℕ → Action Db Lot
  get_lot lot_id user_id = do
    rows ← select c.lots (λ l. l.id == lot_id)
    lot ← lift (first_or 404 rows)
    raise_if (not (owns_lot user_id lot)) 404
    pure lot

  -- `grade_lot` from the update on.
  unfoldable pub write_grade : Grade → ℕ → Action Db Lot
  write_grade g lot_id = do
    res ← update c.lots (λ l. l.id == lot_id) (set_grade g)
    lift (first_or 404 res)

  unfoldable pub grade_lot : Grade → ℕ → ℕ → Action Db Lot
  unfolding get_lot write_grade
  grade_lot g lot_id user_id = do
    lot ← get_lot lot_id user_id
    raise_if (is_gone lot.status) 409
    write_grade g lot_id

  unfoldable pub withdraw_lot : ℕ → ℕ → Action Db Lot
  withdraw_lot lot_id user_id = do
    res ←
        update c.lots (λ l. l.id == lot_id && l.user_id == user_id)
          (λ l. record l { status = withdrawn })
    lift (first_or 404 res)
