-- ===== src/Sms/InboundTests.antt =====
-- Concrete inbound messages.
use sih.Prelude.{[], arith, false, if◌then◌else◌, none, refl, some, true, ℕ, ◌==◌, ◌∷◌, ◌≡◌, ◌⊎◌}
use sih.Prelude.Sort.{insert_by, sort_by}
use sih.Store.{farmer}
use sih.Advice.Window.{compute_sale_window}
use sih.Market.Logistics.{wait}
use sih.Prices.District.{
  HistoryRow, Quotes, average_of, build_district_daily_series, district_price, keys_of, last_point,
  latest_price_for_user, market_points, near_market,
}
use sih.Prices.Series.{agmarknet, build_daily_series, choose, days_of}
use sih.Sms.Inbound.{
  Answers, Blanks, Channel, Reply, User, advice_for, alias_keys, answer_price, answer_word,
  best_buyer, find_alias, hi, ignored, process_inbound, replied, sale_text, send_within,
  server_error,
}
use sih.Sms.Inbound.Calls.{quiet, request}
use sih.Sms.Inbound.Cap.{Answered, Fails, process_inbound-Answered}
use sih.Sms.Outbound.{allow_outbound}

abbrev asking_user : User
asking_user = record {
  profile = record { id = 7; role = farmer; district = some 1; place = none };
  preferred_language = some hi;
}

-- Two markets of district 1, with a price each on day 9.
abbrev onion_row : ℕ → ℕ → HistoryRow
onion_row market price = record {
  observation = record { day = 9; source = agmarknet; variety = none; modal = price };
  market_id = market;
  market_name = some market;
}

abbrev onion_quotes : Quotes
onion_quotes = record {
  nearest = [];
  markets = record { id = 3; district = some 1 } ∷ record { id = 4; district = some 1 } ∷ [];
  history = onion_row 3 170_000 ∷ onion_row 4 200_000 ∷ [];
}

-- The user has the number 70; the word 5 stands for crop 2.
abbrev desk : Answers
desk = record {
  lookup_profile_by_phone = λ k. if k == 70 then asking_user ∷ [] else [];
  commodity_alias = λ w.
      if w == 5
      then record {
        commodity_id = 2;
        commodities = record { name_en = some 20; name_mr = some 21; name_hi = none };
      }
        ∷ []
      else [];
  quotes = λ c p. onion_quotes;
  fetched =
      λ c. record { prices = []; market_rows = []; forecasts = []; others = []; storage_rows = [] };
  open_lots_for_user = λ u. [];
  buyers = [];
}

abbrev flat : ℕ × ℕ → ℕ × ℕ → ℕ
flat a b = 0

abbrev no_blanks : Blanks
no_blanks = record { market_name = λ n. false; buyer_name = λ b. false }

abbrev quiet_channel : Channel
quiet_channel = record { times = λ _. []; sent = [] }

abbrev answer : Reply × Channel
answer = process_inbound flat (λ w. w) desk no_blanks 10 (some 70) (some 5) quiet_channel

answered :
    answer.0 ≡ replied wait (sale_text hi (some 20) (370_000, 2) (average_of (some 1)) wait none)
unfolding process_inbound answer_word answer_price alias_keys find_alias send_within advice_for
    latest_price_for_user district_price near_market build_district_daily_series keys_of
    market_points build_daily_series choose days_of sort_by insert_by last_point allow_outbound
    best_buyer compute_sale_window
answered = refl

unknown_word :
    (process_inbound flat (λ w. w) desk no_blanks 10 (some 71) (some 6) quiet_channel).0 ≡ ignored
unfolding process_inbound answer_word alias_keys find_alias
unknown_word = refl

process_inbound-Answered_example :
    let reply = process_inbound flat (λ w. w) desk no_blanks 20 (some 70) (some 6) answer.1 in
    Answered 20 70 answer.1 reply ⊎ Fails flat (λ w. w) no_blanks desk 6 asking_user answer.1 reply
process_inbound-Answered_example =
    process_inbound-Answered flat (λ w. w) no_blanks desk 20 70 6 asking_user
      (request quiet desk 10 (some 70) (some 5) (omega arith)) (omega arith) refl

-- The market of the price has a blank name.
abbrev blank_quotes : Quotes
blank_quotes = record onion_quotes { history = onion_row 3 170_000 ∷ [] }

server_fails :
    process_inbound flat
      (λ w. w)
      (record desk { quotes = λ c p. blank_quotes })
      (record { market_name = λ n. true; buyer_name = λ b. false })
      10
      (some 70)
      (some 5)
      quiet_channel
    ≡ (server_error, quiet_channel)
unfolding process_inbound answer_word answer_price alias_keys find_alias send_within advice_for
    latest_price_for_user district_price near_market build_district_daily_series keys_of
    market_points build_daily_series choose days_of sort_by insert_by last_point allow_outbound
    best_buyer compute_sale_window
server_fails = refl
