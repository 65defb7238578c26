-- ===== src/Market/Lots/Ownership.antt =====
-- Who may regrade or withdraw a lot.
use sih.Prelude.{
  Bool-cases, List, [], ap, arith, false, filter, inl, inr, map, sym, true, ℕ, ◌&&◌, ◌==◌, ◌∙◌, ◌∷◌,
  ◌≡◌, ◌⊎◌,
}
use sih.Store.{Client, Grade, Lot, err, ok, withdrawn}
use sih.Store.Keys.{List-cases, update_where-none}
use sih.Store.Laws.{Laws, update_where}
use sih.Market.Lots.{get_lot, grade_lot, is_gone, owns_lot, set_grade, withdraw_lot, write_grade}
use sih.Market.Reliability.Counts.{graded}

module _ {Db : Type 0} (c : Client Db) (laws : Laws c) where
  -- The lot that a request by id reads.
  abbrev pub FirstLot : ℕ → Lot → List Lot → Db → Type 0
  FirstLot i l rest d = filter (λ x. x.id == i) (laws.view d).lots ≡ l ∷ rest

  pub get_lot_cases :
      (i u : ℕ) (d : Db)
      → (get_lot c i u d ≡ (err 404, d))
        ⊎ (l : Lot) × (rest : List Lot) × FirstLot i l rest d
          × (owns_lot u l ≡ true)
          × (get_lot c i u d ≡ (ok l, d))
  unfolding get_lot
  get_lot_cases i u d = elim (List-cases (c.lots.select (λ x. x.id == i) d)) [
    | inl absent ↦ inl (ground (arith, absent))
    | inr (l, rest, found) ↦ elim (Bool-cases (owns_lot u l)) [
      | inr foreign ↦ inl (ground (arith, found, foreign))
      | inl mine ↦ inr (
        l,
        rest,
        sym (laws.lots.selects (λ x. x.id == i) d) ∙ found,
        mine,
        ground (arith, found, mine),
      )
    ]
  ]

  write_grade_lem :
      (g : Grade) (i : ℕ) (d : Db) (l : Lot) (rest : List Lot)
      → FirstLot i l rest d
      → let (r, d') = write_grade c g i d in
        (r ≡ ok (set_grade g l))
        × (laws.view d' ≡ record (laws.view d) {
          lots = update_where (λ x. x.id == i) (set_grade g) (laws.view d).lots;
        })
  unfolding write_grade
  write_grade_lem g i d l rest found =
      let p = λ (x : Lot). x.id == i in
      let written : (c.lots.update p (set_grade g) d).0 ≡ set_grade g l ∷ map (set_grade g) rest =
        laws.lots.returns p (set_grade g) d ∙ ap (map (set_grade g)) found in
      (ground (arith, written), ground (arith, written, laws.lots.updates p (set_grade g) d))

  -- Only the owner of a lot, or its FPO, can regrade it, and only while it is neither sold nor
  -- withdrawn; then its grade alone is written. Every error leaves all tables as they were.
  pub grade_lot_lem :
      (g : Grade) (i u : ℕ) (d : Db)
      → let (r, d') = grade_lot c g i u d in
        ((e : ℕ) × (r ≡ err e) × (laws.view d' ≡ laws.view d))
        ⊎ (l : Lot) × (rest : List Lot) × FirstLot i l rest d
          × (owns_lot u l ≡ true)
          × (is_gone l.status ≡ false)
          × (r ≡ ok (set_grade g l))
          × (laws.view d' ≡ record (laws.view d) {
            lots = update_where (λ x. x.id == i) (set_grade g) (laws.view d).lots;
          })
  unfolding grade_lot
  grade_lot_lem g i u d = elim (get_lot_cases i u d) [
    | inl refused ↦ inl (404, ground (arith, refused), ground (arith, refused))
    | inr (l, rest, found, mine, read) ↦ elim (Bool-cases (is_gone l.status)) [
      | inl gone ↦ inl (409, ground (arith, read, gone), ground (arith, read, gone))
      | inr here_still ↦
          let (graded, written) = write_grade_lem g i d l rest found in
          inr (
            l,
            rest,
            found,
            mine,
            here_still,
            ground (arith, read, here_still, graded),
            ground (arith, read, here_still, written),
          )
    ]
  ]

  -- A lot of the caller is withdrawn whatever its status, a sold one included: the handler answers
  -- with 404 and writes nothing when the caller has no lot with the id, and else marks it.
  pub withdraw_lot_lem :
      (i u : ℕ) (d : Db)
      → let p = λ (l : Lot). l.id == i && l.user_id == u in
        let f = λ (l : Lot). record l { status = withdrawn } in
        let (r, d') = withdraw_lot c i u d in
        ((filter p (laws.view d).lots ≡ []) × (r ≡ err 404) × (laws.view d' ≡ laws.view d))
        ⊎ (l : Lot) × (rest : List Lot) × (filter p (laws.view d).lots ≡ l ∷ rest)
          × (r ≡ ok (f l))
          × (laws.view d' ≡ record (laws.view d) { lots = update_where p f (laws.view d).lots })
  unfolding withdraw_lot
  withdraw_lot_lem i u d =
      let p = λ (l : Lot). l.id == i && l.user_id == u in
      let f = λ (l : Lot). record l { status = withdrawn } in
      let set = laws.lots.updates p f d in
      let wrote = laws.lots.returns p f d in
      elim (List-cases (filter p (laws.view d).lots)) [
        | inl absent ↦ inl (
          absent,
          ground (arith, absent, wrote),
          ground (arith, set, update_where-none p f (laws.view d).lots absent),
        )
        | inr (l, rest, found) ↦
            inr (l, rest, found, ground (arith, found, wrote), ground (arith, found, wrote, set))
      ]
