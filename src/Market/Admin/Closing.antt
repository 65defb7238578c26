-- ===== src/Market/Admin/Closing.antt =====
-- The buyer's grade follows the grievances that the admin closes.
use sih.Prelude.{
  Bool-cases, List, Option, Option-cases, [], ap, arith, filter, if◌then◌else◌, inl, inr, map, none,
  some, ℕ, ◌==◌, ◌∙◌, ◌∷◌, ◌≡◌, ◌⊎◌,
}
use sih.Store.{Buyer, Client, Grievance, GrievanceStatus, err, ok}
use sih.Store.Keys.{List-cases, update_where-none}
use sih.Store.Laws.{Laws, Tables, update_where}
use sih.Market.Admin.{admin_update_grievance, rescore_for, set_grievance}
use sih.Market.Admin.Rescore.{grade_of}
use sih.Market.Payments.{rescore_offer_buyer}
use sih.Market.Reliability.{is_payment}
use sih.Market.Reliability.Counts.{graded, recompute_buyer_reliability_lem}

module _ {Db : Type 0} (c : Client Db) (laws : Laws c) where
  -- The tables after the grievances with the id have the status.
  abbrev pub with_grievance_status : GrievanceStatus → ℕ → Tables → Tables
  with_grievance_status s i t = record t {
    grievances = update_where (λ g. g.id == i) (set_grievance s) t.grievances;
  }

  -- The buyers after the buyer of an offer is graded by the tables.
  abbrev pub buyers_after : Option ℕ → Tables → List Buyer
  buyers_after none t = t.buyers
  buyers_after (some o) t = elim (filter (λ x. x.id == o) t.offers) [
    | [] ↦ t.buyers
    | x ∷ _ ↦ graded x.buyer_id (grade_of t x.buyer_id) t.buyers
  ]

  -- Only grievances on payments bear on the grade.
  abbrev pub offer_at_stake : Grievance → Option ℕ
  offer_at_stake g = if is_payment g.category then g.offer_id else none

  rescore_offer_buyer_lem :
      (o : ℕ) (d : Db)
      → ((rescore_offer_buyer c o d).0 ≡ ok tt)
        × (laws.view (rescore_offer_buyer c o d).1
            ≡ record (laws.view d) { buyers = buyers_after (some o) (laws.view d) })
  unfolding rescore_offer_buyer
  rescore_offer_buyer_lem o d = elim (List-cases (filter (λ x. x.id == o) (laws.view d).offers)) [
    | inl absent ↦
        let none_read = laws.offers.selects (λ x. x.id == o) d ∙ absent in
        (ground (arith, none_read), ground (arith, none_read, absent))
    | inr (x, xs, found) ↦
        let read = laws.offers.selects (λ x. x.id == o) d ∙ found in
        let (done, stored) = recompute_buyer_reliability_lem c laws x.buyer_id d in
        (ground (arith, read, done), ground (arith, read, found, done, stored))
  ]

  rescore_for_lem :
      (g : Grievance) (d : Db)
      → ((rescore_for c g d).0 ≡ ok tt)
        × (laws.view (rescore_for c g d).1
            ≡ record (laws.view d) { buyers = buyers_after (offer_at_stake g) (laws.view d) })
  unfolding rescore_for
  rescore_for_lem g d = elim (Bool-cases (is_payment g.category)) [
    | inr other ↦ (ground (arith, other), ground (arith, other))
    | inl payment ↦ elim (Option-cases g.offer_id) [
      | inl unnamed ↦ (ground (arith, payment, unnamed), ground (arith, payment, unnamed))
      | inr (o, offer_named) ↦
          let (done, stored) = rescore_offer_buyer_lem o d in
          (ground (arith, payment, offer_named, done), ground (arith, payment, offer_named, stored))
    ]
  ]

  -- Without a grievance of the id the handler answers with 404 and changes nothing; else its status
  -- is written, and for a grievance on a payment the buyer of its offer is graded anew from the
  -- tables with the new status; no other table changes.
  pub admin_update_grievance_lem :
      (s : GrievanceStatus) (i : ℕ) (d : Db)
      → let (r, d') = admin_update_grievance c s i d in
        let t = with_grievance_status s i (laws.view d) in
        ((filter (λ x. x.id == i) (laws.view d).grievances ≡ [])
          × (r ≡ err 404)
          × (laws.view d' ≡ laws.view d))
        ⊎ (g : Grievance) × (rest : List Grievance) × (filter
              (λ x. x.id == i)
              (laws.view d).grievances
            ≡ g ∷ rest)
          × (r ≡ ok (set_grievance s g))
          × (laws.view d' ≡ record t { buyers = buyers_after (offer_at_stake g) t })
  unfolding admin_update_grievance
  admin_update_grievance_lem s i d =
      let p = λ (g : Grievance). g.id == i in
      let d1 = (c.grievances.update p (set_grievance s) d).1 in
      let set : laws.view d1 ≡ with_grievance_status s i (laws.view d) =
        laws.grievances.updates p (set_grievance s) d in
      let wrote = laws.grievances.returns p (set_grievance s) d in
      elim (List-cases (filter p (laws.view d).grievances)) [
        | inl absent ↦
            let same = update_where-none p (set_grievance s) (laws.view d).grievances absent in
            inl (absent, ground (arith, wrote, absent), ground (arith, wrote, absent, set, same))
        | inr (g, rest, found) ↦
            let row = set_grievance s g in
            let written : (c.grievances.update p (set_grievance s) d).0
                ≡ row ∷ map (set_grievance s) rest =
              wrote ∙ ap (map (set_grievance s)) found in
            let (done, stored) = rescore_for_lem row d1 in
            let now =
              stored
              ∙ ap {A = Tables} (λ t. record t { buyers = buyers_after (offer_at_stake g) t })
                  set in
            inr (g, rest, found, ground (arith, written, done), ground (arith, written, done, now))
      ]
