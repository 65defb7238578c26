-- ===== src/Sms/Alerts.antt =====
-- notifications/alert_checker.py: `AlertChecker.run`. The daily price series of an alert, the
-- profiles' phone numbers and the SMS gateway are arguments. Instants are in microseconds.
pub mod Claims
pub mod Rollback
pub mod Cap
use sih.Prelude.{
  Bool, List, Option, [], false, filter, if◌then◌else◌, is_value, leb, length, ltb, none, some,
  true, ℕ, ◌&&◌, ◌+◌, ◌-◌, ◌==◌, ◌∷◌,
}
use sih.Store.{Action, Table, insert, ok, pure, select, update, ◌>>=◌, ◌>>◌}
use sih.Market.Logistics.{counted}
use sih.Sms.Outbound.{call}

pub data Condition : Type 0 where
  gte lte : Condition

pub record Alert : Type 0 where
  pub id : ℕ
  pub user_id : ℕ
  pub threshold_price : ℕ
  pub condition : Condition
  pub active : Bool
  pub expires_at : Option ℕ
  pub last_notified_at : Option ℕ
  pub notified_count : ℕ

pub record LogRow : Type 0 where
  pub alert_id : ℕ
  pub user_id : ℕ
  pub recipient : ℕ
  pub sent : Bool

-- A call of the gateway, with the user of the alert and whether the message went out.
pub record GatewayCall : Type 0 where
  pub called_for : ℕ
  pub number : ℕ
  pub went_out : Bool

-- The tables, and what keeps the calls of the gateway.
pub record AlertDb (Db : Type 0) : Type 0 where
  pub alerts : Table Db Alert
  pub log : Table Db LogRow
  pub call : GatewayCall → Db → Db

-- A null column compares with nothing.
abbrev pub before : Option ℕ → ℕ → Bool
before none t = false
before (some a) t = ltb a t

abbrev is_null : Option ℕ → Bool
is_null none = true
is_null (some a) = false

-- 24 hours.
abbrev pub cooldown : ℕ
cooldown = 86_400_000_000

abbrev pub max_sms_per_user : ℕ
max_sms_per_user = 3

-- The threshold is crossed by the last step of the series, not just exceeded.
unfoldable pub crosses : Condition → ℕ → ℕ → ℕ → Bool
crosses gte threshold prev last = ltb prev threshold && leb threshold last
crosses lte threshold prev last = ltb threshold prev && leb last threshold

-- The end of `_check_crossing`: the current price when the alert is to fire.
unfoldable pub check_crossing : Alert → List ℕ → Option ℕ
unfolding crosses
check_crossing a [] = none
check_crossing a (x ∷ []) = none
check_crossing a (x ∷ y ∷ []) = if crosses a.condition a.threshold_price x y then some y else none
check_crossing a (x ∷ y ∷ z ∷ rest) = check_crossing a (y ∷ z ∷ rest)

abbrev pub cooling : ℕ → Option ℕ → Bool
cooling cutoff none = false
cooling cutoff (some t) = leb cutoff t

-- The loop over the active alerts: those out of cooldown that cross.
unfoldable pub due_alerts : ℕ → (Alert → List ℕ) → List Alert → List (Alert × ℕ)
unfolding check_crossing
due_alerts cutoff series [] = []
due_alerts cutoff series (a ∷ rest) =
    let later = due_alerts cutoff series rest in
    if cooling cutoff a.last_notified_at
    then later
    else elim (check_crossing a (series a)) [ none ↦ later | some price ↦ (a, price) ∷ later ]

abbrev pub claim_old : ℕ → ℕ → Alert → Bool
claim_old i cutoff a = a.id == i && (a.active && before a.last_notified_at cutoff)

abbrev pub claim_new : ℕ → Alert → Bool
claim_new i a = a.id == i && (a.active && is_null a.last_notified_at)

abbrev pub claimed : ℕ → ℕ → Alert → Alert
claimed now count a = record a { last_notified_at = some now; notified_count = count }

abbrev pub held_since : ℕ → ℕ → Alert → Bool
held_since i now a = a.id == i && is_value a.last_notified_at now

-- The rollback writes back what the snapshot has.
abbrev pub unclaimed : Alert → Alert → Alert
unclaimed old a = record a {
  last_notified_at = old.last_notified_at;
  notified_count = old.notified_count;
}

abbrev pub has_rows : {A : Type 0} → List A → Bool
has_rows [] = false
has_rows (x ∷ xs) = true

-- The number of messages sent to a user in this run.
abbrev pub sent_to : ℕ → List ℕ → ℕ
sent_to u users = length (filter (λ v. v == u) users)

module _ {Db : Type 0} (c : AlertDb Db) (now : ℕ) where
  -- Both claims: for alerts notified before the cooldown, then for those never notified.
  unfoldable pub claim : Alert → ℕ → Action Db Bool
  claim a cutoff = do
    old ← update c.alerts (claim_old a.id cutoff) (claimed now (a.notified_count + 1))
    if has_rows old then pure true else do
      new ← update c.alerts (claim_new a.id) (claimed now (a.notified_count + 1))
      pure (has_rows new)

  unfoldable pub roll_back : Alert → Action Db (Unit {0})
  roll_back a = update c.alerts (held_since a.id now) (unclaimed a) >> pure tt

  abbrev pub note_call : GatewayCall → Action Db (Unit {0})
  note_call g d = (ok tt, c.call g d)

  -- The gateway answers whether the message went out; an exception counts as no.
  module _ (phone : ℕ → Option ℕ) (gateway : ℕ → Alert → ℕ → Bool) where
    -- From the claim on: whether a message went out.
    unfoldable pub send_claimed : Alert → ℕ → ℕ → Action Db Bool
    unfolding roll_back
    send_claimed a price number = do
      let went = gateway number a price
      note_call (record { called_for = a.user_id; number = number; went_out = went })
      if went then pure tt else roll_back a
      insert c.log
          (record { alert_id = a.id; user_id = a.user_id; recipient = number; sent = went })
      pure went

    unfoldable pub notify : ℕ → Alert → ℕ → Action Db Bool
    unfolding claim send_claimed
    notify cutoff a price = elim (phone a.user_id) [
      | none ↦ pure false
      | some number ↦ do
        won ← claim a cutoff
        if won then send_claimed a price number else pure false
    ]

    -- The loop over the due alerts; `users` holds the user of every message sent so far.
    unfoldable pub dispatch : ℕ → List ℕ → List (Alert × ℕ) → Action Db (List ℕ)
    unfolding notify
    dispatch cutoff users [] = pure users
    dispatch cutoff users ((a, price) ∷ rest) =
        let skip = dispatch cutoff users rest in
        let counted = dispatch cutoff (a.user_id ∷ users) rest in
        if leb max_sms_per_user (sent_to a.user_id users)
        then skip
        else do went ← notify cutoff a price; if went then counted else skip

    unfoldable pub run : (Alert → List ℕ) → Action Db ℕ
    unfolding due_alerts dispatch
    run series = do
      update c.alerts (λ a. a.active && before a.expires_at now) (λ a. record a { active = false })
      alerts ← select c.alerts (λ a. a.active)
      users ← dispatch (now - cooldown) [] (due_alerts (now - cooldown) series alerts)
      pure (length users)
