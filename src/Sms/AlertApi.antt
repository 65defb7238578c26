-- ===== src/Sms/AlertApi.antt =====
-- app/routers/alerts.py: the requests on the alerts of a user. The crop and the market of an alert are
-- left out, and so are explicit nulls for columns that the database requires. The deletion, which no
-- other handler uses, is an operation of its own.
pub mod Own
use sih.Prelude.{
  Bool, List, Option, [], false, if◌then◌else◌, is_value, none, some, true, ℕ, ◌&&◌, ◌==◌, ◌∷◌,
}
use sih.Store.{Action, Table, err, first_or, insert, lift, ok, pure, raise, update, ◌>>=◌, ◌>>◌}
use sih.Sms.Alerts.{Alert, Condition}

pub record AlertCreate : Type 0 where
  pub threshold_price : ℕ
  pub condition : Condition
  pub expires_at : Option ℕ

-- None where a field is not set; an expiry may be set to null.
pub record AlertUpdate : Type 0 where
  pub threshold_price : Option ℕ
  pub condition : Option Condition
  pub active : Option Bool
  pub expires_at : Option (Option ℕ)

abbrev pub new_alert : AlertCreate → ℕ → ℕ → Alert
new_alert body user new_id = record {
  id = new_id;
  user_id = user;
  threshold_price = body.threshold_price;
  condition = body.condition;
  active = true;
  expires_at = body.expires_at;
  last_notified_at = none;
  notified_count = 0;
}

abbrev pub keep_or : {A : Type 0} → Option A → A → A
keep_or none a = a
keep_or (some b) a = b

abbrev pub apply_updates : AlertUpdate → Alert → Alert
apply_updates u a = record a {
  threshold_price = keep_or u.threshold_price a.threshold_price;
  condition = keep_or u.condition a.condition;
  active = keep_or u.active a.active;
  expires_at = keep_or u.expires_at a.expires_at;
}

abbrev pub is_none : {A : Type 0} → Option A → Bool
is_none none = true
is_none (some a) = false

abbrev pub no_updates : AlertUpdate → Bool
no_updates u =
    is_none u.threshold_price && is_none u.condition && is_none u.active && is_none u.expires_at

-- The caller's alert of that id.
abbrev pub own_alert : ℕ → ℕ → Alert → Bool
own_alert i user a = a.id == i && a.user_id == user

module _ {Db : Type 0} (t : Table Db Alert) (delete : (Alert → Bool) → Db → List Alert × Db) where
  unfoldable pub create_alert : AlertCreate → ℕ → ℕ → Action Db Alert
  create_alert body user new_id = do
    res ← insert t (new_alert body user new_id)
    lift (first_or 400 res)

  -- Without an update the answer is {"status": "ok"}, here none.
  unfoldable pub update_alert : AlertUpdate → ℕ → ℕ → Action Db (Option Alert)
  update_alert u alert_id user =
      if is_value u.threshold_price 0 then raise 400 else if no_updates u then pure none else do
        res ← update t (own_alert alert_id user) (apply_updates u)
        row ← lift (first_or 404 res)
        pure (some row)

  unfoldable pub delete_alert : ℕ → ℕ → Action Db (Option Alert)
  delete_alert alert_id user d =
      let (gone, d') = delete (own_alert alert_id user) d in
      elim gone [ [] ↦ (err 404, d') | a ∷ others ↦ (ok none, d') ]

  pub data AlertRequest : Type 0 where
    creates : AlertCreate → ℕ → AlertRequest
    changes : AlertUpdate → ℕ → AlertRequest
    deletes : ℕ → AlertRequest

  unfoldable pub serve_alert : AlertRequest → ℕ → Action Db (Option Alert)
  unfolding create_alert update_alert delete_alert
  serve_alert (creates body new_id) user = do a ← create_alert body user new_id; pure (some a)
  serve_alert (changes u alert_id) user = update_alert u alert_id user
  serve_alert (deletes alert_id) user = delete_alert alert_id user
