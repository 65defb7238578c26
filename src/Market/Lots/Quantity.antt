-- ===== src/Market/Lots/Quantity.antt =====
-- What a pool weighs.
use mathlib.Core.Path.{subst}
use sih.Prelude.{
  All, All-Elem, Elem, List, [], arith, false, filter, here, inl, inr, map, refl, sum_of, sym,
  there, ℕ, ◌+◌, ◌∙◌, ◌∷◌, ◌≡◌, ◌≢◌,
}
use sih.Store.{Client, Lot, err, ok, open_lot}
use sih.Store.Keys.{UniqueBy}
use sih.Store.Laws.{Laws}
use sih.Market.Lots.{LotAggregate, aggregate_lots, pooled}
use sih.Market.Lots.Pool.{aggregate_lots_lem}
use sih.Market.Reliability.{mem}

abbrev weight : List Lot → ℕ
weight ls = sum_of (λ l. l.quantity_qtl) ls

-- The rows of a table whose ids are in the list.
abbrev pub rows_with : List ℕ → List Lot → List Lot
rows_with is ls = filter (λ l. mem l.id is) ls

weight-rows_none : (ls : List Lot) → weight (rows_with [] ls) ≡ 0
weight-rows_none [] = refl
weight-rows_none (x ∷ xs) = ground (arith, weight-rows_none xs)

weight-rows_absent :
    (i : ℕ) (is : List ℕ) (ls : List Lot)
    → All (λ x. i ≢ x.id) ls
    → weight (rows_with (i ∷ is) ls) ≡ weight (rows_with is ls)
weight-rows_absent i is [] h = refl
weight-rows_absent i is (x ∷ xs) h = ground (arith, h.0, weight-rows_absent i is xs h.1)

-- One more id adds the weight of its row, when ids are unique.
weight-rows_cons :
    (is : List ℕ) (ls : List Lot) (m : Lot)
    → UniqueBy (λ l. l.id) ls
    → Elem m ls
    → mem m.id is ≡ false
    → weight (rows_with (m.id ∷ is) ls) ≡ m.quantity_qtl + weight (rows_with is ls)
weight-rows_cons is [] m u k fresh = elim k [ ]
weight-rows_cons is (x ∷ xs) m u (here e) fresh =
    let absent : All (λ (y : Lot). m.id ≢ y.id) xs = rw e u.0 in
    ground (arith, e, fresh, weight-rows_absent m.id is xs absent)
weight-rows_cons is (x ∷ xs) m u (there k) fresh =
    let apart : x.id ≢ m.id = All-Elem (λ y. x.id ≢ y.id) k u.0 in
    ground (arith, apart, weight-rows_cons is xs m u.1 k fresh)

mem-fresh : (i : ℕ) (is : List ℕ) → All (λ j. i ≢ j) is → mem i is ≡ false
mem-fresh i [] h = refl
mem-fresh i (j ∷ js) h = ground (arith, h.0, mem-fresh i js h.1)

weight-Members :
    (ls ms : List Lot)
    → UniqueBy (λ l. l.id) ls
    → UniqueBy (λ i. i) (map (λ m. m.id) ms)
    → All (λ m. Elem m ls × (m.status ≡ open_lot)) ms
    → weight ms ≡ weight (rows_with (map (λ m. m.id) ms) ls)
weight-Members ls [] u v h = sym (weight-rows_none ls)
weight-Members ls (m ∷ ms) u v h =
    let ids = map (λ (x : Lot). x.id) ms in
    let one_more = weight-rows_cons ids ls m u h.0.0 (mem-fresh m.id ids v.0) in
    let others = weight-Members ls ms u v.1 h.1 in omega (arith, one_more, others)

module _ {Db : Type 0} (c : Client Db) (laws : Laws c) where
  -- The pooled lot weighs what the lots asked for weigh together, when no id is asked for twice and
  -- the ids of the lots are unique.
  pub aggregate_lots-quantity :
      (body : LotAggregate) (u n : ℕ) (d : Db) {lot : Lot}
      → UniqueBy (λ l. l.id) (laws.view d).lots
      → UniqueBy (λ i. i) body.lot_ids
      → (aggregate_lots c body u n d).0 ≡ ok lot
      → lot.quantity_qtl ≡ sum_of (λ l. l.quantity_qtl) (rows_with body.lot_ids (laws.view d).lots)
  aggregate_lots-quantity body u n d {lot} unique ids h =
      elim (aggregate_lots_lem c laws body u n d) [
        | inl (e, refused, _) ↦ absurd (clash (sym refused ∙ h))
        | inr (p, (pools, _)) ↦
            let same : lot ≡ pooled body p.first p.others u n = cc in
            let asked : map (λ (l : Lot). l.id) (p.first ∷ p.others) ≡ body.lot_ids = p.members.0 in
            let distinct = subst (λ is. UniqueBy (λ i. i) is) (sym asked) ids in
            rw same (
              subst (λ is. weight (p.first ∷ p.others) ≡ weight (rows_with is (laws.view d).lots))
                asked
                (weight-Members (laws.view d).lots (p.first ∷ p.others) unique distinct
                  p.members.1))
      ]
    where
      clash : {e : ℕ} {l : Lot} → err e ≡ ok l → ⊥
      clash e = cc
