-- ===== src/Sms/AlertApi/Own.antt =====
-- A request touches alerts of its user only.
use mathlib.Core.Path.{subst}
use sih.Prelude.{
  Bool, Bool-cases, List, Option, [], ap, arith, filter, inl, inr, is_value, none, not, refl, some,
  sym, ℕ, ◌++◌, ◌==◌, ◌∙◌, ◌∷◌, ◌≡◌, ◌≢◌,
}
use sih.Store.{Result, Table, err, first_or, lift, ok, pure, ◌>>=◌}
use sih.Store.Keys.{List-cases, map-nil, update_where-none}
use sih.Store.Laws.{TableLaws, update_where}
use sih.Sms.AlertApi.{
  AlertCreate, AlertRequest, AlertUpdate, apply_updates, changes, create_alert, creates,
  delete_alert, deletes, new_alert, no_updates, own_alert, serve_alert, update_alert,
}
use sih.Sms.Alerts.{Alert}

-- The alerts of everyone but the user.
abbrev pub others_of : ℕ → List Alert → List Alert
others_of user l = filter (λ a. not (a.user_id == user)) l

others_of-update :
    (user i : ℕ) (u : AlertUpdate) (l : List Alert)
    → others_of user (update_where (own_alert i user) (apply_updates u) l) ≡ others_of user l
others_of-update user i u [] = refl
others_of-update user i u (a ∷ rest) =
    let kept = others_of-update user i u rest in
    elim (Bool-cases (a.id == i)) [
      | inl same ↦ elim (Bool-cases (a.user_id == user)) [
        | inl mine ↦ rw (same, mine, mine) kept
        | inr foreign ↦ rw (same, foreign, foreign) (ap (λ l. a ∷ l) kept)
      ]
      | inr other ↦ elim (Bool-cases (a.user_id == user)) [
        | inl mine ↦ rw (other, mine) kept
        | inr foreign ↦ rw (other, foreign) (ap (λ l. a ∷ l) kept)
      ]
    ]

others_of-delete :
    (user i : ℕ) (l : List Alert)
    → others_of user (filter (λ a. not (own_alert i user a)) l) ≡ others_of user l
others_of-delete user i [] = refl
others_of-delete user i (a ∷ rest) = let kept = others_of-delete user i rest in ground (arith, kept)

others_of-snoc :
    (user : ℕ) (a : Alert) (l : List Alert)
    → a.user_id ≡ user
    → others_of user (l ++ a ∷ []) ≡ others_of user l
others_of-snoc user a [] e = ground (arith, e)
others_of-snoc user a (b ∷ rest) e = let kept = others_of-snoc user a rest e in ground (arith, kept)

filter-not-none :
    (p : Alert → Bool) (l : List Alert) → filter p l ≡ [] → filter (λ a. not (p a)) l ≡ l
filter-not-none p [] h = refl
filter-not-none p (a ∷ rest) h = elim (Bool-cases (p a)) [
  | inl t ↦ let full : a ∷ filter p rest ≡ [] = rw t at h in cc
  | inr f ↦
      let bare : filter p rest ≡ [] = rw f at h in
      rw f (ap (λ l. a ∷ l) (filter-not-none p rest bare))
]

module _ {Db : Type 0} (t : Table Db Alert) (delete : (Alert → Bool) → Db → List Alert × Db)
    (view : Db → List Alert) where
  -- What the deletion of PostgREST does: it returns the rows that pass the filter, and they are gone.
  abbrev pub Deletes : Type 0
  Deletes =
      (p : Alert → Bool) (d : Db)
      → ((delete p d).0 ≡ filter p (view d))
        × (view (delete p d).1 ≡ filter (λ a. not (p a)) (view d))

  abbrev pub AlertTable : Type 0
  AlertTable = TableLaws view (λ l. l) (λ l d. l) t

  -- The alerts of the others are kept, and an error keeps all.
  abbrev pub IsOwn : ℕ → Db → Result (Option Alert) × Db → Type 0
  IsOwn user d end =
      (others_of user (view end.1) ≡ others_of user (view d))
      × ((code : ℕ) → end.0 ≡ err code → view end.1 ≡ view d)

  ok_err : (a : Option Alert) (code : ℕ) → ok a ≢ err code
  ok_err a code h = cc

  answered-IsOwn :
      (user : ℕ) (d : Db) (a : Option Alert) (d' : Db) {end : Result (Option Alert) × Db}
      → end ≡ (ok a, d')
      → others_of user (view d') ≡ others_of user (view d)
      → IsOwn user d end
  answered-IsOwn user d a d' e same =
      subst (IsOwn user d) (sym e) (same, (λ code h. absurd (ok_err a code h)))

  refused-IsOwn :
      (user : ℕ) (d : Db) (code : ℕ) (d' : Db) {end : Result (Option Alert) × Db}
      → end ≡ (err code, d')
      → view d' ≡ view d
      → IsOwn user d end
  refused-IsOwn user d code d' e same =
      subst (IsOwn user d) (sym e) (ap (others_of user) same, (λ c h. same))

  -- What the handlers make of the rows that were returned.
  abbrev answer_of : Db → List Alert → Result (Option Alert) × Db
  answer_of d' rows = (lift (first_or 404 rows) >>= λ row. pure (some row)) d'

  abbrev deleted_answer : Db → List Alert → Result (Option Alert) × Db
  deleted_answer d' rows = elim rows [ [] ↦ (err 404, d') | a ∷ others ↦ (ok none, d') ]

  create_alert-IsOwn :
      (body : AlertCreate) (new_id user : ℕ) (d : Db)
      → AlertTable
      → IsOwn user d (serve_alert t delete (creates body new_id) user d)
  unfolding serve_alert create_alert
  create_alert-IsOwn body new_id user d laws = elim (laws.inserts (new_alert body user new_id) d) [
    | inl (stored, added) ↦
        answered-IsOwn user d (some (new_alert body user new_id))
          (t.insert (new_alert body user new_id) d).1 (ground (arith, stored))
          (ap (others_of user) added
            ∙ others_of-snoc user (new_alert body user new_id) (view d) refl)
    | inr (none_stored, same) ↦
        refused-IsOwn user d 400 (t.insert (new_alert body user new_id) d).1
          (ground (arith, none_stored)) same
  ]

  update_alert-IsOwn :
      (u : AlertUpdate) (alert_id user : ℕ) (d : Db)
      → AlertTable
      → IsOwn user d (update_alert t delete u alert_id user d)
  unfolding update_alert
  update_alert-IsOwn u alert_id user d laws = elim (Bool-cases (is_value u.threshold_price 0)) [
    | inl free ↦ refused-IsOwn user d 400 d (ground (arith, free)) refl
    | inr priced ↦ elim (Bool-cases (no_updates u)) [
      | inl bare ↦ answered-IsOwn user d none d (rw (priced, bare) refl) refl
      | inr full ↦
          let (found, d') = t.update (own_alert alert_id user) (apply_updates u) d in
          let changed = laws.updates (own_alert alert_id user) (apply_updates u) d in
          let rows = laws.returns (own_alert alert_id user) (apply_updates u) d in
          elim (List-cases found) [
            | inl absent ↦
                refused-IsOwn user d 404 d' (rw (priced, full) (ap (answer_of d') absent)) (
                  changed
                  ∙ update_where-none (own_alert alert_id user) (apply_updates u) (view d) (
                      map-nil (apply_updates u) (filter (own_alert alert_id user) (view d))
                        (sym rows ∙ absent)))
            | inr (a, rest, there_it_is) ↦
                answered-IsOwn user d (some a) d'
                  (rw (priced, full) (ap (answer_of d') there_it_is))
                  (ap (others_of user) changed ∙ others_of-update user alert_id u (view d))
          ]
    ]
  ]

  delete_alert-IsOwn :
      (alert_id user : ℕ) (d : Db) → Deletes → IsOwn user d (delete_alert t delete alert_id user d)
  unfolding delete_alert
  delete_alert-IsOwn alert_id user d gone_lem =
      let (gone, d') = delete (own_alert alert_id user) d in
      let (rows, left) = gone_lem (own_alert alert_id user) d in
      elim (List-cases gone) [
        | inl absent ↦
            refused-IsOwn user d 404 d' (ap (deleted_answer d') absent)
              (left ∙ filter-not-none (own_alert alert_id user) (view d) (sym rows ∙ absent))
        | inr (a, rest, found) ↦
            answered-IsOwn user d none d' (ap (deleted_answer d') found)
              (ap (others_of user) left ∙ others_of-delete user alert_id (view d))
      ]

  -- A request of a user on alerts changes no alert of anybody else, and none at all when it is answered
  -- with an error: whether it creates, changes or deletes one.
  pub serve_alert-IsOwn :
      (r : AlertRequest t delete) (user : ℕ) (d : Db)
      → AlertTable
      → Deletes
      → IsOwn user d (serve_alert t delete r user d)
  unfolding serve_alert
  serve_alert-IsOwn (creates body new_id) user d laws gone_lem =
      create_alert-IsOwn body new_id user d laws
  serve_alert-IsOwn (changes u alert_id) user d laws gone_lem =
      update_alert-IsOwn u alert_id user d laws
  serve_alert-IsOwn (deletes alert_id) user d laws gone_lem =
      delete_alert-IsOwn alert_id user d gone_lem
