-- ===== src/Sms/Alerts/Cap.antt =====
-- The cap on the messages of one run.
-- The messages that went out to a user, of the calls.
use sih.Prelude.{
  ==_iff, Bool, Bool-cases, List, Option, Option-cases, [], ap, arith, false, filter, if◌then◌else◌,
  inl, inr, leb, length, refl, suc, sym, true, ℕ, ◌&&◌, ◌++◌, ◌+◌, ◌-◌, ◌<◌, ◌==◌, ◌∙◌, ◌∷◌, ◌≡◌,
  ◌≤◌,
}
use sih.Store.{Result-cases, ok}
use sih.Market.Logistics.{counted}
use sih.Sms.Alerts.{
  Alert, AlertDb, GatewayCall, LogRow, before, claim, claim_new, claim_old, claimed, cooldown,
  dispatch, due_alerts, has_rows, held_since, max_sms_per_user, notify, roll_back, run,
  send_claimed, sent_to, unclaimed,
}
use sih.Sms.Alerts.Claims.{AlertLaws}

abbrev pub messages_to : ℕ → List GatewayCall → ℕ
messages_to u calls = length (filter (λ (g : GatewayCall). g.called_for == u && g.went_out) calls)

messages_to-snoc :
    (u : ℕ) (calls : List GatewayCall) (g : GatewayCall)
    → messages_to u (calls ++ g ∷ [])
      ≡ messages_to u calls + (if g.called_for == u && g.went_out then 1 else 0)
messages_to-snoc u [] g = ground arith
messages_to-snoc u (x ∷ xs) g = ground (arith, messages_to-snoc u xs g)

sent_to-cons :
    (u v : ℕ) (users : List ℕ)
    → leb max_sms_per_user (sent_to v users) ≡ false
    → sent_to u users ≤ max_sms_per_user
    → sent_to u (v ∷ users) ≤ max_sms_per_user
sent_to-cons u v users room h = elim (Bool-cases (v == u)) [
  | inr f ↦ ground (arith, f, h)
  | inl t ↦
      let same : u ≡ v = sym ((==_iff v u).0 t) in
      let full : sent_to u users < max_sms_per_user = rw same (ground (arith, room)) in
      ground (arith, t, full)
]

sent_to_lem :
    (u v : ℕ) (users : List ℕ)
    → sent_to u (v ∷ users) ≡ (if v == u then suc (sent_to u users) else sent_to u users)
sent_to_lem u v users = elim (Bool-cases (v == u)) [ inl t ↦ rw t refl | inr f ↦ rw f refl ]

one_more :
    (after before_it between sent all_sent : ℕ) (mine went : Bool)
    → went ≡ true
    → all_sent ≡ (if mine then suc sent else sent)
    → after + all_sent ≤ between + max_sms_per_user
    → between ≡ before_it + (if mine && went then 1 else 0)
    → after + sent ≤ before_it + max_sms_per_user
one_more after before_it between sent all_sent mine went t e h k = ground (arith, t, e, h, k)

no_more :
    (after before_it between sent : ℕ) (mine went : Bool)
    → went ≡ false
    → after + sent ≤ between + max_sms_per_user
    → between ≡ before_it + (if mine && went then 1 else 0)
    → after + sent ≤ before_it + max_sms_per_user
no_more after before_it between sent mine went n h k = ground (arith, n, h, k)

module _ {Db : Type 0} (c : AlertDb Db) (laws : AlertLaws c) (now : ℕ) (phone : ℕ → Option ℕ)
    (gateway : ℕ → Alert → ℕ → Bool) where
  abbrev calls_in : Db → List GatewayCall
  calls_in d = (laws.view d).calls

  update-calls :
      (p : Alert → Bool) (f : Alert → Alert) (d : Db)
      → calls_in (c.alerts.update p f d).1 ≡ calls_in d
  update-calls p f d = ap (λ s. s.calls) (laws.alerts.updates p f d)

  insert-calls : (r : LogRow) (d : Db) → calls_in (c.log.insert r d).1 ≡ calls_in d
  insert-calls r d = elim (laws.log.inserts r d) [
    | inl (_, stored) ↦ ap (λ s. s.calls) stored
    | inr (_, same) ↦ ap (λ s. s.calls) same
  ]

  claim-calls :
      (a : Alert) (cutoff : ℕ) (d : Db)
      → ((went : Bool) × ((claim c now a cutoff d).0 ≡ ok went))
        × (calls_in (claim c now a cutoff d).1 ≡ calls_in d)
  unfolding claim
  claim-calls a cutoff d =
      let f = claimed now (a.notified_count + 1) in
      let d1 = (c.alerts.update (claim_old a.id cutoff) f d).1 in
      let first = update-calls (claim_old a.id cutoff) f d in
      let second = update-calls (claim_new a.id) f d1 in
      elim (Bool-cases (has_rows (c.alerts.update (claim_old a.id cutoff) f d).0)) [
        | inl t ↦ rw t ((true, refl), first)
        | inr n ↦ rw n ((_, refl), second ∙ first)
      ]

  none_more : (u : ℕ) (a : Alert) (n : ℕ) → n ≡ n + (if a.user_id == u && false then 1 else 0)
  none_more u a n = ground arith

  -- A message that goes out is one more, to the user of the alert.
  abbrev CountsOne : ℕ → Alert → Bool → Db → Db → Type 0
  CountsOne u a went d d' =
      messages_to u (calls_in d')
      ≡ messages_to u (calls_in d) + (if a.user_id == u && went then 1 else 0)

  send_claimed-calls :
      (u : ℕ) (a : Alert) (price number : ℕ) (d : Db)
      → let end = send_claimed c now phone gateway a price number d in
        (went : Bool) × (end.0 ≡ ok went) × CountsOne u a went d end.1
  unfolding send_claimed roll_back
  send_claimed-calls u a price number d =
      let went = gateway number a price in
      let g : GatewayCall = record { called_for = a.user_id; number = number; went_out = went } in
      let row : LogRow = record {
        alert_id = a.id;
        user_id = a.user_id;
        recipient = number;
        sent = went;
      } in
      let d0 = c.call g d in
      let called : calls_in d0 ≡ calls_in d ++ g ∷ [] = ap (λ s. s.calls) (laws.notes g d) in
      let counted : CountsOne u a went d d0 =
        ap (messages_to u) called ∙ messages_to-snoc u (calls_in d) g in
      let d1 = (c.alerts.update (held_since a.id now) (unclaimed a) d0).1 in
      let back = update-calls (held_since a.id now) (unclaimed a) d0 in
      elim (Bool-cases went) [
        | inl t ↦
            let same : calls_in (send_claimed c now phone gateway a price number d).1
                ≡ calls_in d0 =
              ground (arith, t, insert-calls row d0) in
            (went, ground (arith, t), ap (messages_to u) same ∙ counted)
        | inr n ↦
            let same : calls_in (send_claimed c now phone gateway a price number d).1
                ≡ calls_in d0 =
              ground (arith, n, insert-calls row d1, back) in
            (went, ground (arith, n), ap (messages_to u) same ∙ counted)
      ]

  notify-calls :
      (u cutoff : ℕ) (a : Alert) (price : ℕ) (d : Db)
      → let end = notify c now phone gateway cutoff a price d in
        (went : Bool) × (end.0 ≡ ok went) × CountsOne u a went d end.1
  unfolding notify
  notify-calls u cutoff a price d = elim (Option-cases (phone a.user_id)) [
    | inl unreachable ↦ (false, ground (arith, unreachable), ground (arith, unreachable))
    | inr (number, reachable) ↦
        let ((won, claimed_now), same) = claim-calls a cutoff d in
        let d1 = (claim c now a cutoff d).1 in
        elim (Bool-cases won) [
          | inr n ↦
              let stays : calls_in (notify c now phone gateway cutoff a price d).1 ≡ calls_in d =
                ground (arith, reachable, claimed_now, n, same) in
              (
                false,
                ground (arith, reachable, claimed_now, n),
                ap (messages_to u) stays ∙ none_more u a (messages_to u (calls_in d)),
              )
          | inl t ↦
              let goes : notify c now phone gateway cutoff a price d
                  ≡ send_claimed c now phone gateway a price number d1 =
                ground (arith, reachable, claimed_now, t) in
              let (went, answered, counted) = send_claimed-calls u a price number d1 in
              rw goes (
                went,
                answered,
                counted
                    ∙ ap (λ l. messages_to u l + (if a.user_id == u && went then 1 else 0)) same,
              )
        ]
  ]

  -- What a loop over due alerts adds stays below the cap with what was sent before.
  dispatch-calls :
      (u cutoff : ℕ) (due : List (Alert × ℕ)) (users : List ℕ) (d : Db)
      → sent_to u users ≤ max_sms_per_user
      → messages_to u (calls_in (dispatch c now phone gateway cutoff users due d).1)
          + sent_to u users
        ≤ messages_to u (calls_in d) + max_sms_per_user
  unfolding dispatch
  dispatch-calls u cutoff [] users d h = omega (arith, h)
  dispatch-calls u cutoff ((a, price) ∷ rest) users d h =
      elim (Bool-cases (leb max_sms_per_user (sent_to a.user_id users))) [
        | inl full ↦ rw full (dispatch-calls u cutoff rest users d h)
        | inr room ↦
            let d1 = (notify c now phone gateway cutoff a price d).1 in
            let (went, answered, counted) = notify-calls u cutoff a price d in
            elim (Bool-cases went) [
              | inl t ↦
                  let goes : dispatch c now phone gateway cutoff users ((a, price) ∷ rest) d
                      ≡ dispatch c now phone gateway cutoff (a.user_id ∷ users) rest d1 =
                    ground (arith, room, answered, t) in
                  let later =
                    dispatch-calls u cutoff rest (a.user_id ∷ users) d1
                      (sent_to-cons u a.user_id users room h) in
                  rw goes (
                    one_more _ (messages_to u (calls_in d)) (messages_to u (calls_in d1))
                      (sent_to u users) (sent_to u (a.user_id ∷ users)) (a.user_id == u) went t
                      (sent_to_lem u a.user_id users) later counted)
              | inr n ↦
                  let goes : dispatch c now phone gateway cutoff users ((a, price) ∷ rest) d
                      ≡ dispatch c now phone gateway cutoff users rest d1 =
                    ground (arith, room, answered, n) in
                  let later = dispatch-calls u cutoff rest users d1 h in
                  rw goes (
                    no_more _ (messages_to u (calls_in d)) (messages_to u (calls_in d1))
                      (sent_to u users) (a.user_id == u) went n later counted)
            ]
      ]

  -- A run sends at most three messages to any user: of the calls of the gateway, at most three more
  -- than before the run are for the user and went out, whatever the series, the rows and the
  -- gateway's answers are.
  pub run-WithinCap :
      (series : Alert → List ℕ) (u : ℕ) (d : Db)
      → messages_to u (laws.view (run c now phone gateway series d).1).calls
        ≤ messages_to u (laws.view d).calls + max_sms_per_user
  unfolding run
  run-WithinCap series u d =
      let expire = λ (a : Alert). a.active && before a.expires_at now in
      let d1 = (c.alerts.update expire (λ a. record a { active = false }) d).1 in
      let due = due_alerts (now - cooldown) series (c.alerts.select (λ a. a.active) d1) in
      let more = dispatch-calls u (now - cooldown) due [] d1 (omega arith) in
      let same = update-calls expire (λ a. record a { active = false }) d in
      let loop = dispatch c now phone gateway (now - cooldown) [] due d1 in
      let goes : (run c now phone gateway series d).1 ≡ loop.1 = elim (Result-cases loop.0) [
        | inl (users, answered) ↦ ground (arith, answered)
        | inr (code, failing) ↦ ground (arith, failing)
      ] in
      rw goes (omega (arith, more, ap (messages_to u) same))
