-- ===== src/Market/Admin/Rescore.antt =====
-- What the rescoring of all buyers stores.
use mathlib.Core.Path.{subst}
use sih.Prelude.{
  ==_iff, All, All-map, Bool-cases, List, Option, [], ap, arith, filter, if◌then◌else◌, inl, inr,
  length, map, none, refl, some, sym, take, take-all, true, ℕ, ◌==◌, ◌∙◌, ◌∷◌, ◌≡◌, ◌≤◌,
}
use sih.Store.{Buyer, Client, Reliability, ok}
use sih.Store.Laws.{Laws, Tables}
use sih.Market.Admin.{admin_rescore_buyers, note_grade, rescore_loop}
use sih.Market.Reliability.{mem, recompute_buyer_reliability, score_payment_reliability}
use sih.Market.Reliability.Counts.{counts, graded, offers_of, recompute_buyer_reliability_lem}

abbrev pub with_grade : Option Reliability → Buyer → Buyer
with_grade none b = b
with_grade (some g) b = record b { payment_reliability = some g }

with_grade-twice :
    (g : Option Reliability) (b : Buyer) → with_grade g (with_grade g b) ≡ with_grade g b
with_grade-twice none b = refl
with_grade-twice (some g) b = refl

with_grade-id : (g : Option Reliability) (b : Buyer) → (with_grade g b).id ≡ b.id
with_grade-id none b = refl
with_grade-id (some g) b = refl

graded-map :
    (i : ℕ) (g : Option Reliability) (l : List Buyer)
    → graded i g l ≡ map (λ b. if b.id == i then with_grade g b else b) l
graded-map i none [] = refl
graded-map i none (x ∷ xs) = ground (arith, graded-map i none xs)
graded-map i (some g) [] = refl
graded-map i (some g) (x ∷ xs) = ground (arith, graded-map i (some g) xs)

module _ (grade : ℕ → Option Reliability) where
  -- The buyers whose ids are in the list have their grade.
  abbrev pub regrade : List ℕ → Buyer → Buyer
  regrade is b = if mem b.id is then with_grade (grade b.id) b else b

  -- What the loop answers.
  abbrev pub notes : List Buyer → List (ℕ × Reliability)
  notes [] = []
  notes (b ∷ bs) = note_grade b.id (grade b.id) (notes bs)

  regrade-cons :
      (i : ℕ) (is : List ℕ) (b : Buyer)
      → regrade is (if b.id == i then with_grade (grade i) b else b) ≡ regrade (i ∷ is) b
  regrade-cons i is b = elim (Bool-cases (b.id == i)) [
    | inr f ↦ ground (arith, f)
    | inl t ↦
        let same : i ≡ b.id = sym ((==_iff b.id i).0 t) in
        ground (arith, t, same, with_grade-id (grade b.id) b, with_grade-twice (grade b.id) b)
  ]

  map-regrade :
      (i : ℕ) (is : List ℕ) (l : List Buyer)
      → map (regrade is) (map (λ b. if b.id == i then with_grade (grade i) b else b) l)
        ≡ map (regrade (i ∷ is)) l
  map-regrade i is [] = refl
  map-regrade i is (x ∷ xs) = ground (arith, regrade-cons i is x, map-regrade i is xs)

  map-graded :
      (i : ℕ) (is : List ℕ) (l : List Buyer)
      → map (regrade is) (graded i (grade i) l) ≡ map (regrade (i ∷ is)) l
  map-graded i is l = rw (graded-map i (grade i) l) (map-regrade i is l)

  map-regrade_nil : (l : List Buyer) → map (regrade []) l ≡ l
  map-regrade_nil [] = refl
  map-regrade_nil (x ∷ xs) = ap (λ l. x ∷ l) (map-regrade_nil xs)

  map-regrade-All :
      (is : List ℕ) (l : List Buyer)
      → All (λ b. mem b.id is ≡ true) l
      → map (regrade is) l ≡ map (λ b. with_grade (grade b.id) b) l
  map-regrade-All is [] h = refl
  map-regrade-All is (x ∷ xs) h = ground (arith, h.0, map-regrade-All is xs h.1)

All-mem_ids : (l : List Buyer) → All (λ b. mem b.id (map (λ x. x.id) l) ≡ true) l
All-mem_ids [] = tt
All-mem_ids (x ∷ xs) = (ground arith, All-map (λ b h. ground (arith, h)) xs (All-mem_ids xs))

filter-true : {A : Type 0} (l : List A) → filter (λ x. true) l ≡ l
filter-true [] = refl
filter-true (x ∷ xs) = ap (λ l. x ∷ l) (filter-true xs)

-- The grade that the tables give a buyer.
abbrev pub grade_of : Tables → ℕ → Option Reliability
grade_of t b = score_payment_reliability (counts (offers_of b t) t)

module _ {Db : Type 0} (c : Client Db) (laws : Laws c) where
  rescore_loop_lem :
      (bs : List Buyer) (d : Db)
      → let grade = grade_of (laws.view d) in
        let (r, d') = rescore_loop c bs d in
        (r ≡ ok (notes grade bs))
        × (laws.view d' ≡ record (laws.view d) {
          buyers = map (regrade grade (map (λ b. b.id) bs)) (laws.view d).buyers;
        })
  unfolding rescore_loop
  rescore_loop_lem [] d =
      (refl, ground (arith, map-regrade_nil (grade_of (laws.view d)) (laws.view d).buyers))
  rescore_loop_lem (b ∷ bs) d =
      let t = laws.view d in
      let d1 = (recompute_buyer_reliability c b.id d).1 in
      let d2 = (rescore_loop c bs d1).1 in
      let (first, stored) = recompute_buyer_reliability_lem c laws b.id d in
      let same : grade_of (laws.view d1) ≡ grade_of t = ap grade_of stored in
      let after : (grade : ℕ → Option Reliability) → Type 0 = λ grade.
        ((rescore_loop c bs d1).0 ≡ ok (notes grade bs))
        × (laws.view d2 ≡ record (laws.view d1) {
          buyers = map (regrade grade (map (λ b. b.id) bs)) (laws.view d1).buyers;
        }) in
      let (others, written) = subst after same (rescore_loop_lem bs d1) in
      let merged = map-graded (grade_of t) b.id (map (λ (x : Buyer). x.id) bs) t.buyers in
      (ground (arith, first, others), ground (arith, first, others, written, stored, merged))

  -- With at most 500 buyers, the handler gives every buyer the grade of its settlement history,
  -- keeps the stored value where there is no evidence, answers with the grades given, and changes
  -- nothing else.
  pub admin_rescore_buyers_lem :
      (d : Db)
      → length (laws.view d).buyers ≤ 500
      → let grade = grade_of (laws.view d) in
        let (r, d') = admin_rescore_buyers c d in
        (r ≡ ok (notes grade (laws.view d).buyers))
        × (laws.view d' ≡ record (laws.view d) {
          buyers = map (λ b. with_grade (grade b.id) b) (laws.view d).buyers;
        })
  unfolding admin_rescore_buyers
  admin_rescore_buyers_lem d few =
      let all_rows = laws.buyers.selects (λ b. true) d ∙ filter-true (laws.view d).buyers in
      let snapshot = ap (take 500) all_rows ∙ take-all 500 (laws.view d).buyers few in
      let exact =
        map-regrade-All (grade_of (laws.view d)) _ (laws.view d).buyers
          (All-mem_ids (laws.view d).buyers) in
      let (done, written) = rescore_loop_lem (laws.view d).buyers d in
      rw snapshot (done, written ∙ ap (λ l. record (laws.view d) { buyers = l }) exact)
