-- ===== src/Sms/Inbound.antt =====
-- app/routers/sms.py: `_process_inbound`, the answer to an inbound SMS, from the rows that its
-- queries return. The sender is what normalize_phone answers, and of the message its first word; what
-- is sent is the content of a message, without its wording and its template.
pub mod Calls
pub mod Cap
use sih.Prelude.{
  Bool, List, Option, [], false, filter, if◌then◌else◌, ltb, none, some, true, ℕ, ◌++◌, ◌==◌, ◌||◌,
  ◌∷◌,
}
use sih.Store.{Buyer, Lot, Profile, answers, offered, open_lot}
use sih.Advice.Window.{Fetched, compute_sale_window}
use sih.Ingestion.Pages.{fetched}
use sih.Market.Logistics.{SaleAction, wait}
use sih.Matching.{nashik, rank_buyers}
use sih.Prices.District.{MarketName, Quotes, average_of, latest_price_for_user, named}
use sih.Prices.Tests.{blank}
use sih.Sms.Outbound.{Times, allow_outbound}

-- Every other value of the column is treated as English.
pub data Language : Type 0 where
  mr hi en : Language

pub record User : Type 0 where
  pub profile : Profile
  pub preferred_language : Option Language

pub record CommodityNames : Type 0 where
  pub name_en : Option ℕ
  pub name_mr : Option ℕ
  pub name_hi : Option ℕ

pub record AliasRow : Type 0 where
  pub commodity_id : ℕ
  pub commodities : CommodityNames

-- What the queries and the SQL functions return: the profiles of a phone number, the aliases of a
-- word, the prices and the rows for the advice of a crop, a user's lots, the verified buyers.
pub record Answers : Type 0 where
  pub lookup_profile_by_phone : ℕ → List User
  pub commodity_alias : ℕ → List AliasRow
  pub quotes : ℕ → Option (ℕ × ℕ) → Quotes
  pub fetched : ℕ → Fetched
  pub open_lots_for_user : ℕ → List Lot
  pub buyers : List Buyer

pub data Content : Type 0 where
  help_text : Language → Content
  no_data_text : Language → Content
  -- Language, name of the crop, price, name of the market, advice, buyer.
  sale_text : Language → Option ℕ → ℕ × ℕ → MarketName → SaleAction → Option ℕ → Content

-- A call of `gateway.send_sms`, which may raise: `_process_inbound` goes on as if it had not.
pub record Message : Type 0 where
  pub recipient : ℕ
  pub sent_at : ℕ
  pub content : Content

-- `_OUTBOUND`, and the calls of the gateway, the last one last.
pub record Channel : Type 0 where
  pub times : Times
  pub sent : List Message

pub data Reply : Type 0 where
  ignored rate_limited help_sent no_data : Reply
  -- An exception: the webhook answers with a 500.
  server_error : Reply
  replied : SaleAction → Content → Reply

abbrev pub first : {A : Type 0} → List A → Option A
first [] = none
first (x ∷ xs) = some x

abbrev pub language_of : Option User → Language
language_of none = mr
language_of (some u) = elim u.preferred_language [ none ↦ mr | some l ↦ l ]

abbrev pub origin_of : Option User → Option (ℕ × ℕ)
origin_of none = none
origin_of (some u) = u.profile.place

-- `user.get("district", "Nashik")`: a district that is null stays null.
abbrev pub home_district : Option User → Option ℕ
home_district none = some nashik
home_district (some u) = u.profile.district

abbrev pub localized : Language → CommodityNames → Option ℕ
localized mr n = n.name_mr
localized hi n = n.name_hi
localized en n = n.name_en

abbrev pub name_in : Language → CommodityNames → Option ℕ
name_in l n = elim (localized l n) [ none ↦ n.name_en | some x ↦ some x ]

-- The word in capitals first, then as it is.
unfoldable pub alias_keys : (ℕ → ℕ) → ℕ → List ℕ
alias_keys upper word = if upper word == word then word ∷ [] else upper word ∷ word ∷ []

unfoldable pub find_alias : (ℕ → List AliasRow) → List ℕ → Option AliasRow
find_alias aliases [] = none
find_alias aliases (k ∷ ks) =
    let rest = find_alias aliases ks in elim (aliases k) [ [] ↦ rest | r ∷ _ ↦ some r ]

-- `max`: the first of the largest lots.
unfoldable pub largest_lot : Lot → List Lot → Lot
largest_lot best [] = best
largest_lot best (l ∷ ls) =
    let kept_best = largest_lot best ls in
    let new_best = largest_lot l ls in
    if ltb best.quantity_qtl l.quantity_qtl then new_best else kept_best

abbrev pub is_listed : Lot → Bool
is_listed l = elim l.status [ open_lot ↦ true | offered ↦ true | _ ↦ false ]

-- The open and offered lots, or all if there are none.
abbrev pub lots_or : List Lot → List Lot → List Lot
lots_or [] lots = lots
lots_or (l ∷ ls) lots = l ∷ ls

-- A call of the gateway when the cap allows it; else the request is turned away.
unfoldable pub send_within : ℕ → ℕ → Content → Reply → Channel → Reply × Channel
send_within now sender content reply ch =
    let (allowed, times) = allow_outbound now sender ch.times in
    let message : Message = record { recipient = sender; sent_at = now; content = content } in
    if allowed
    then (reply, record { times = times; sent = ch.sent ++ message ∷ [] })
    else (rate_limited, record { times = times; sent = ch.sent })

-- The average of a district has a name that is made for it.
abbrev pub is_blank_market : (ℕ → Bool) → MarketName → Bool
is_blank_market blank (named n) = blank n
is_blank_market blank (average_of district) = false

abbrev pub is_blank_buyer : (ℕ → Bool) → Option ℕ → Bool
is_blank_buyer blank none = false
is_blank_buyer blank (some b) = blank b

-- Whether a name is blank, that is only spaces, of a market and of a buyer with the id.
pub record Blanks : Type 0 where
  pub market_name : ℕ → Bool
  pub buyer_name : ℕ → Bool

-- Whether `format_sale_sms` raises.
abbrev pub names_blank : Blanks → MarketName → Option ℕ → Bool
names_blank blanks market buyer =
    is_blank_market blanks.market_name market || is_blank_buyer blanks.buyer_name buyer

module _ (haversine_km : ℕ × ℕ → ℕ × ℕ → ℕ) (upper : ℕ → ℕ) (answers : Answers) where
  -- The buyer that ranks first for the largest lot of the user.
  unfoldable pub best_buyer : Option User → Option ℕ
  unfolding largest_lot
  best_buyer none = none
  best_buyer (some u) =
      let lots = answers.open_lots_for_user u.profile.id in
      elim (lots_or (filter is_listed lots) lots) [
        | [] ↦ none
        | l ∷ ls ↦
            let verified = filter (λ (b : Buyer). b.verified) answers.buyers in
            let ranked = rank_buyers haversine_km (largest_lot l ls) (some u.profile) verified 10 in
            elim ranked [ [] ↦ none | r ∷ _ ↦ some r.buyer.id ]
      ]

  unfoldable pub advice_for : ℕ → Option User → SaleAction
  advice_for commodity user =
      let window =
        compute_sale_window haversine_km none (origin_of user) (answers.fetched commodity) in
      elim window [ none ↦ wait | some w ↦ w.recommendation ]

  -- From the price on: the first word of a blank name, which `format_sale_sms` takes, is an
  -- IndexError.
  module _ (blanks : Blanks) where
    unfoldable pub answer_price :
        ℕ → ℕ → Option User → AliasRow → Channel → Option ((ℕ × ℕ) × MarketName) → Reply × Channel
    unfolding send_within best_buyer advice_for
    answer_price now sender none row ch none = (no_data, ch)
    answer_price now sender (some u) row ch none =
        send_within now sender (no_data_text (language_of (some u))) no_data ch
    answer_price now sender user row ch (some (price, market)) =
        let lang = language_of user in
        let rec = advice_for row.commodity_id user in
        let reply =
          sale_text lang (name_in lang row.commodities) price market rec (best_buyer user) in
        if names_blank blanks market (best_buyer user)
        then (server_error, ch)
        else send_within now sender reply (replied rec reply) ch

    -- From the row of the alias on.
    unfoldable pub answer_word : ℕ → ℕ → Option User → Channel → Option AliasRow → Reply × Channel
    unfolding answer_price
    answer_word now sender none ch none = (ignored, ch)
    answer_word now sender (some u) ch none =
        send_within now sender (help_text (language_of (some u))) help_sent ch
    answer_word now sender user ch (some row) =
        let quotes = answers.quotes row.commodity_id (origin_of user) in
        answer_price now sender user row ch
          (latest_price_for_user quotes (origin_of user) (home_district user))

    unfoldable pub process_inbound : ℕ → Option ℕ → Option ℕ → Channel → Reply × Channel
    unfolding alias_keys find_alias answer_word
    process_inbound now none word ch = (ignored, ch)
    process_inbound now (some sender) none ch = (ignored, ch)
    process_inbound now (some sender) (some word) ch =
        answer_word now sender (first (answers.lookup_profile_by_phone sender)) ch
          (find_alias answers.commodity_alias (alias_keys upper word))
