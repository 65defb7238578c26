-- ===== src/Market/Lots/Pool.antt =====
-- `aggregate_lots`: which lots it pools, and what that leaves.
use sih.Prelude.{
  ==_iff, All, All-map, Bool, Bool-cases, Elem, List, Option-cases, [], arith, filter, here, inl,
  inr, map, none, refl, some, there, true, ℕ, ◌++◌, ◌==◌, ◌∷◌, ◌≡◌, ◌⊎◌,
}
use sih.Store.{Client, Lot, Reads, Result, Result-cases, answers, err, ok, open_lot, raises}
use sih.Store.Keys.{List-cases, update_where-false, update_where-update_where}
use sih.Store.Laws.{Laws, update_where}
use sih.Market.Lots.{
  LotAggregate, aggregate_lots, by_id, collect_members, is_fpo, is_open_lot, join_members,
  join_pool, pool_members, pooled, require_fpo, same_commodity, store_pool,
}
use sih.Market.Reliability.{mem}

pub by_id-Elem :
    (i : ℕ) (rows : List Lot) (l : Lot) → by_id i rows ≡ some l → (l.id ≡ i) × Elem l rows
unfolding by_id
by_id-Elem i [] l h = cc
by_id-Elem i (x ∷ xs) l h = elim (Option-cases (by_id i xs)) [
  | inr (y, found) ↦
      let same : some y ≡ some l = rw found at h in
      let (key, at_y) = by_id-Elem i xs y found in
      let one : l ≡ y = cc in (rw one key, there (rw one at_y))
  | inl absent ↦ elim (Bool-cases (x.id == i)) [
    | inl t ↦
        let same : some x ≡ some l = rw (absent, t) at h in
        let one : l ≡ x = cc in (rw one ((==_iff x.id i).0 t), here one)
    | inr f ↦ let no : none ≡ some l = rw (absent, f) at h in cc
  ]
]

-- The members of a pool: for each id asked for, in order, an open row with that id.
abbrev pub Members : List Lot → List ℕ → List Lot → Type 0
Members rows is ms = (map (λ l. l.id) ms ≡ is) × All (λ l. Elem l rows × (l.status ≡ open_lot)) ms

pub collect_members-Members :
    (rows : List Lot) (is : List ℕ) (ms : List Lot)
    → collect_members rows is ≡ ok ms
    → Members rows is ms
unfolding collect_members
collect_members-Members rows [] ms h = let none_left : ms ≡ [] = cc in rw none_left (refl, tt)
collect_members-Members rows (i ∷ is) ms h = elim (Option-cases (by_id i rows)) [
  | inl absent ↦ ground (arith, absent)
  | inr (l, found) ↦ elim (Bool-cases (is_open_lot l.status)) [
    | inr shut ↦ ground (arith, found, shut)
    | inl open_now ↦ elim (Result-cases (collect_members rows is)) [
      | inr (e, failed_later) ↦ ground (arith, found, open_now, failed_later)
      | inl (ls, others) ↦
          let whole : ok (l ∷ ls) ≡ ok ms = ground (arith, found, open_now, others) in
          let same : ms ≡ l ∷ ls = cc in
          let (ids, rest) = collect_members-Members rows is ls others in
          let (key, at_l) = by_id-Elem i rows l found in
          rw same (ground (arith, key, ids), ((at_l, ground (arith, open_now)), rest))
    ]
  ]
]

pub filter-Elem : {A : Type 0} (p : A → Bool) (l : List A) (x : A) → Elem x (filter p l) → Elem x l
filter-Elem {A} p [] x h = h
filter-Elem {A} p (y ∷ ys) x h = elim (Bool-cases (p y)) [
  | inl t ↦ cons (filter p ys) (filter-Elem p ys x) (rw t at h)
  | inr f ↦ there (filter-Elem p ys x (rw f at h))
]
  where
    cons : (kept : List A) → (Elem x kept → Elem x ys) → Elem x (y ∷ kept) → Elem x (y ∷ ys)
    cons kept k (here e) = here e
    cons kept k (there m) = there (k m)

module _ {Db : Type 0} (c : Client Db) (laws : Laws c) where
  join_members_lem :
      (u : ℕ) (ms : List Lot) (d : Db)
      → ((join_members c u ms d).0 ≡ ok tt)
        × (laws.view (join_members c u ms d).1 ≡ record (laws.view d) {
          lots = update_where (λ l. mem l.id (map (λ m. m.id) ms)) (join_pool u) (laws.view d).lots;
        })
  unfolding join_members
  join_members_lem u [] d =
      (refl, ground (arith, update_where-false (join_pool u) (laws.view d).lots))
  join_members_lem u (m ∷ ms) d =
      let p = λ (l : Lot). l.id == m.id in
      let d1 = (c.lots.update p (join_pool u) d).1 in
      let (done, written) = join_members_lem u ms d1 in
      let set = laws.lots.updates p (join_pool u) d in
      let merged =
        update_where-update_where (λ l. mem l.id (map (λ m. m.id) ms)) p (join_pool u) (λ r. refl)
          (λ r. refl) (laws.view d).lots in
      (done, ground (arith, written, set, merged))

  module _ (body : LotAggregate) (u n : ℕ) where
    -- The lots that a pool is made of.
    pub record Poolable (d : Db) : Type 0 where
      pub first : Lot
      pub others : List Lot
      pub members : Members (laws.view d).lots body.lot_ids (first ∷ others)
      pub commodity : same_commodity (first ∷ others) ≡ true

    -- The lots after the pool is stored and its members have joined it.
    abbrev pub with_pool : Lot → List Lot → List Lot
    with_pool row lots = update_where (λ l. mem l.id body.lot_ids) (join_pool u) (lots ++ row ∷ [])

    -- The outcome of a request: refused with nothing written, or pooled.
    abbrev pub Pools : Db → Result Lot × Db → Type 0
    Pools d r =
        ((e : ℕ) × (r.0 ≡ err e) × (laws.view r.1 ≡ laws.view d))
        ⊎ (p : Poolable d) × let row = pooled body p.first p.others u n in
            (r.0 ≡ ok row)
            × (laws.view r.1 ≡ record (laws.view d) { lots = with_pool row (laws.view d).lots })

    store_pool_lem :
        (d : Db) (p : Poolable d)
        → Pools d (store_pool c (pooled body p.first p.others u n) u (p.first ∷ p.others) d)
    unfolding store_pool
    store_pool_lem d p =
        let row = pooled body p.first p.others u n in
        let d1 = (c.lots.insert row d).1 in
        let (done, joined) = join_members_lem u (p.first ∷ p.others) d1 in
        elim (laws.lots.inserts row d) [
          | inr (refused, same) ↦ inl (400, ground (arith, refused), ground (arith, refused, same))
          | inl (returned, stored) ↦ inr (
            p,
            (
              ground (arith, returned, done),
              ground (arith, returned, done, joined, stored, p.members.0),
            ),
          )
        ]

    require_fpo-Reads : (d : Db) → Reads d (require_fpo c u d)
    unfolding require_fpo
    require_fpo-Reads d = elim (List-cases (c.profiles.select (λ p. p.id == u) d)) [
      | inl absent ↦ raises 403 (ground (arith, absent))
      | inr (p, ps, found) ↦ elim (Bool-cases (is_fpo p.role)) [
        | inl t ↦ answers tt (ground (arith, found, t))
        | inr f ↦ raises 403 (ground (arith, found, f))
      ]
    ]

    pool_members_lem :
        (ms : List Lot) (d : Db)
        → Members (laws.view d).lots body.lot_ids ms
        → Pools d (pool_members c body u n ms d)
    unfolding pool_members
    pool_members_lem [] d h = inl (400, refl, refl)
    pool_members_lem (m ∷ ms) d h = elim (Bool-cases (same_commodity (m ∷ ms))) [
      | inr mixed ↦ inl (400, ground (arith, mixed), ground (arith, mixed))
      | inl one ↦
          let p : Poolable d = record { first = m; others = ms; members = h; commodity = one } in
          let goes : pool_members c body u n (m ∷ ms) d
              ≡ store_pool c (pooled body m ms u n) u (m ∷ ms) d =
            ground (arith, one) in
          rw goes (store_pool_lem d p)
    ]

    -- A request either fails and leaves every table as it was, or every id asked for is that of an
    -- open lot, all of one commodity: then the pooled lot is stored and every lot asked for is
    -- matched and belongs to the caller's FPO; no other table changes.
    pub aggregate_lots_lem : (d : Db) → Pools d (aggregate_lots c body u n d)
    unfolding aggregate_lots
    aggregate_lots_lem d =
        let found = c.lots.select (λ l. mem l.id body.lot_ids) d in
        elim (require_fpo-Reads d) [
          | raises e refused ↦ inl (e, ground (arith, refused), ground (arith, refused))
          | answers _ allowed ↦ elim (Result-cases (collect_members found body.lot_ids)) [
            | inr (e, missing) ↦
                inl (e, ground (arith, allowed, missing), ground (arith, allowed, missing))
            | inl (ms, members) ↦
                let (ids, rows_of) = collect_members-Members found body.lot_ids ms members in
                let kept : All (λ (l : Lot). Elem l (laws.view d).lots × (l.status ≡ open_lot)) ms =
                  All-map
                    (λ l in_found. (
                      filter-Elem (λ (l : Lot). mem l.id body.lot_ids) (laws.view d).lots l
                          (rw (laws.lots.selects (λ l. mem l.id body.lot_ids) d) at in_found.0),
                      in_found.1,
                    ))
                    ms rows_of in
                let goes : aggregate_lots c body u n d ≡ pool_members c body u n ms d =
                  ground (arith, allowed, members) in
                rw goes (pool_members_lem ms d (ids, kept))
          ]
        ]
