-- ===== src/Sms/AlertTests.antt =====
-- Alerts on concrete tables.
use sih.Prelude.{
  Bool, List, Option, [], arith, false, filter, none, not, refl, some, true, ℕ, ◌++◌, ◌+◌, ◌∷◌, ◌≡◌,
  ◌≤◌,
}
use sih.Store.{Table, err, ok}
use sih.Store.Memory.{table, table_laws}
use sih.Sms.AlertApi.{delete_alert, deletes, serve_alert}
use sih.Sms.AlertApi.Own.{IsOwn, serve_alert-IsOwn}
use sih.Sms.Alerts.{
  Alert, AlertDb, check_crossing, claim, crosses, dispatch, due_alerts, gte, notify, roll_back, run,
  send_claimed,
}
use sih.Sms.Alerts.Cap.{messages_to, run-WithinCap}
use sih.Sms.Alerts.Claims.{AlertLaws, AlertTables, alerts_in, claim-exclusive}
use sih.Sms.Alerts.Rollback.{notify-unsent}

abbrev alert_memory : AlertDb AlertTables
alert_memory = record {
  alerts = table (λ s. s.alerts) (λ l s. record s { alerts = l });
  log = table (λ s. s.log) (λ l s. record s { log = l });
  call = λ g s. record s { calls = s.calls ++ g ∷ [] };
}

abbrev alert_laws : AlertLaws alert_memory
alert_laws = record {
  view = λ s. s;
  alerts = table_laws (λ s. s.alerts) (λ l s. record s { alerts = l });
  log = table_laws (λ s. s.log) (λ l s. record s { log = l });
  notes = λ g s. refl;
}

abbrev onion_alert : Alert
onion_alert = record {
  id = 1;
  user_id = 7;
  threshold_price = 200_000;
  condition = gte;
  active = true;
  expires_at = none;
  last_notified_at = none;
  notified_count = 0;
}

abbrev one_alert : AlertTables
one_alert = record { alerts = onion_alert ∷ []; log = []; calls = [] }

-- The instant of the run, two days in.
abbrev run_at : ℕ
run_at = 172_800_000_000

abbrev reachable : ℕ → Option ℕ
reachable u = some 55

abbrev gateway_up : ℕ → Alert → ℕ → Bool
gateway_up n a p = true

abbrev gateway_down : ℕ → Alert → ℕ → Bool
gateway_down n a p = false

abbrev rising : Alert → List ℕ
rising a = 190_000 ∷ 195_000 ∷ 205_000 ∷ []

fired : (run alert_memory run_at reachable gateway_up rising one_alert).0 ≡ ok 1
unfolding run due_alerts check_crossing crosses dispatch notify claim send_claimed
fired = refl

claim_won : (claim alert_memory run_at onion_alert 86_400_000_000 one_alert).0 ≡ ok true
unfolding claim
claim_won = refl

claim-exclusive_example :
    let d1 = (claim alert_memory run_at onion_alert 86_400_000_000 one_alert).1 in
    ((claim alert_memory 172_800_000_001 onion_alert 86_400_000_001 d1).0 ≡ ok false)
    × (alerts_in alert_memory alert_laws
          (claim alert_memory 172_800_000_001 onion_alert 86_400_000_001 d1).1
        ≡ alerts_in alert_memory alert_laws d1)
claim-exclusive_example =
    claim-exclusive alert_memory alert_laws run_at 86_400_000_000 onion_alert one_alert (tt, tt)
      claim_won 172_800_000_001 86_400_000_001 onion_alert refl (omega arith)

unsent_now :
    (notify alert_memory run_at reachable gateway_down 86_400_000_000 onion_alert 205_000
      one_alert).0
    ≡ ok false
unfolding notify claim send_claimed roll_back
unsent_now = refl

notify-unsent_example :
    alerts_in alert_memory alert_laws
      (notify alert_memory run_at reachable gateway_down 86_400_000_000 onion_alert 205_000
        one_alert).1
    ≡ alerts_in alert_memory alert_laws one_alert
notify-unsent_example =
    notify-unsent alert_memory alert_laws run_at reachable gateway_down 86_400_000_000 onion_alert
      205_000 one_alert ((λ e. refl), tt) unsent_now

run-WithinCap_example :
    messages_to 7 (run alert_memory run_at reachable gateway_up rising one_alert).1.calls ≤ 0 + 3
run-WithinCap_example =
    run-WithinCap alert_memory alert_laws run_at reachable gateway_up rising 7 one_alert

-- The call of the run.
called_once :
    (run alert_memory run_at reachable gateway_up rising one_alert).1.calls
    ≡ record { called_for = 7; number = 55; went_out = true } ∷ []
unfolding run due_alerts check_crossing crosses dispatch notify claim send_claimed
called_once = refl

-- The alerts alone, with a deletion.
abbrev alert_list : Table (List Alert) Alert
alert_list = table (λ l. l) (λ l s. l)

abbrev delete_from : (Alert → Bool) → List Alert → List Alert × List Alert
delete_from p s = (filter p s, filter (λ a. not (p a)) s)

-- User 8 tries to delete an alert of user 7.
foreign_delete :
    serve_alert alert_list delete_from (deletes 1) 8 (onion_alert ∷ [])
    ≡ (err 404, onion_alert ∷ [])
unfolding serve_alert delete_alert
foreign_delete = refl

serve_alert-IsOwn_example :
    IsOwn alert_list delete_from
      (λ l. l)
      8
      (onion_alert ∷ [])
      (serve_alert alert_list delete_from (deletes 1) 8 (onion_alert ∷ []))
serve_alert-IsOwn_example =
    serve_alert-IsOwn alert_list delete_from (λ l. l) (deletes 1) 8 (onion_alert ∷ [])
      (table_laws (λ l. l) (λ l s. l)) (λ p d. (refl, refl))
