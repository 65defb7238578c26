-- ===== src/Sms/Alerts/Rollback.antt =====
-- An alert whose message does not go out is left as it was.
use sih.Prelude.{
  All, Bool, Bool-cases, List, Option, Option-cases, [], ap, arith, false, inl, inr, refl, true, ℕ,
  ◌+◌, ◌==◌, ◌∙◌, ◌∷◌, ◌≡◌,
}
use sih.Store.{ok}
use sih.Store.Laws.{update_where}
use sih.Sms.Alerts.{
  Alert, AlertDb, GatewayCall, LogRow, claim, claimed, held_since, notify, roll_back, send_claimed,
  unclaimed,
}
use sih.Sms.Alerts.Claims.{AlertLaws, alerts_in, claim_cases}

restore_claimed :
    (p : Alert → Bool) (now : ℕ) (a : Alert) (l : List Alert)
    → ((x : Alert) → p x ≡ true → x.id ≡ a.id)
    → All (λ r. (r.id == a.id) ≡ true → r ≡ a) l
    → update_where
        (held_since a.id now)
        (unclaimed a)
        (update_where p (claimed now (a.notified_count + 1)) l)
      ≡ l
restore_claimed p now a [] picks only = refl
restore_claimed p now a (x ∷ xs) picks only = elim (Bool-cases (x.id == a.id)) [
  | inl t ↦ let same = only.0 t in ground (arith, t, same, restore_claimed p now a xs picks only.1)
  | inr f ↦ ground (arith, f, picks x, restore_claimed p now a xs picks only.1)
]

module _ {Db : Type 0} (c : AlertDb Db) (laws : AlertLaws c) (now : ℕ) (phone : ℕ → Option ℕ)
    (gateway : ℕ → Alert → ℕ → Bool) where
  log-alerts : (r : LogRow) (d : Db) → alerts_in c laws (c.log.insert r d).1 ≡ alerts_in c laws d
  log-alerts r d = elim (laws.log.inserts r d) [
    | inl (_, stored) ↦ ap (λ s. s.alerts) stored
    | inr (_, same) ↦ ap (λ s. s.alerts) same
  ]

  send_claimed-unsent :
      (a : Alert) (price number : ℕ) (d : Db)
      → (send_claimed c now phone gateway a price number d).0 ≡ ok false
      → alerts_in c laws (send_claimed c now phone gateway a price number d).1
        ≡ update_where (held_since a.id now) (unclaimed a) (alerts_in c laws d)
  unfolding send_claimed roll_back
  send_claimed-unsent a price number d h = elim (Bool-cases (gateway number a price)) [
    | inl out ↦ ground (arith, out)
    | inr failed_to_send ↦
        let g : GatewayCall = record {
          called_for = a.user_id;
          number = number;
          went_out = gateway number a price;
        } in
        let d0 = c.call g d in
        let d1 = (c.alerts.update (held_since a.id now) (unclaimed a) d0).1 in
        let called : alerts_in c laws d0 ≡ alerts_in c laws d =
          ap (λ s. s.alerts) (laws.notes g d) in
        let set : alerts_in c laws d1
            ≡ update_where (held_since a.id now) (unclaimed a) (alerts_in c laws d0) =
          ap (λ s. s.alerts) (laws.alerts.updates (held_since a.id now) (unclaimed a) d0) in
        let row : LogRow = record {
          alert_id = a.id;
          user_id = a.user_id;
          recipient = number;
          sent = gateway number a price;
        } in
        ground (arith, failed_to_send, called, set, log-alerts row d1)
  ]

  -- When no message goes out for an alert (no phone number, a lost claim, or a gateway that fails),
  -- every alert is as it was before, cooldown and count included, so that the alert stays due: for
  -- a snapshot that is the one row with its id.
  pub notify-unsent :
      (cutoff : ℕ) (a : Alert) (price : ℕ) (d : Db)
      → All (λ r. (r.id == a.id) ≡ true → r ≡ a) (alerts_in c laws d)
      → (notify c now phone gateway cutoff a price d).0 ≡ ok false
      → alerts_in c laws (notify c now phone gateway cutoff a price d).1 ≡ alerts_in c laws d
  unfolding notify
  notify-unsent cutoff a price d only h = elim (Option-cases (phone a.user_id)) [
    | inl unreachable ↦ ground (arith, unreachable)
    | inr (number, reachable) ↦ elim (claim_cases c laws now a cutoff d) [
      | inl (lost, same) ↦ ground (arith, reachable, lost, same)
      | inr (p, cur, rest, picks, found, won, set) ↦
          let d1 = (claim c now a cutoff d).1 in
          let unsent : (send_claimed c now phone gateway a price number d1).0 ≡ ok false =
            ground (arith, reachable, won, h) in
          let back = send_claimed-unsent a price number d1 unsent in
          let restored = restore_claimed p now a (alerts_in c laws d) picks only in
          let goes : notify c now phone gateway cutoff a price d
              ≡ send_claimed c now phone gateway a price number d1 =
            ground (arith, reachable, won) in
          rw goes (back ∙ ap (update_where (held_since a.id now) (unclaimed a)) set ∙ restored)
    ]
  ]
