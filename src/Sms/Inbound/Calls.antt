-- ===== src/Sms/Inbound/Calls.antt =====
-- What an inbound message does: one call of send_within, or nothing.
use sih.Prelude.{
  Bool-cases, Option, [], ap, inl, inr, none, refl, some, true, ℕ, ◌≡◌, ◌≢◌, ◌≤◌, ◌⊎◌,
}
use sih.Market.Logistics.{SaleAction}
use sih.Prices.District.{MarketName, latest_price_for_user}
use sih.Prices.Tests.{blank}
use sih.Sms.Inbound.{
  AliasRow, Answers, Blanks, Channel, Content, Reply, User, advice_for, alias_keys, answer_price,
  answer_word, best_buyer, find_alias, first, help_sent, home_district, language_of, name_in,
  names_blank, no_data, origin_of, process_inbound, rate_limited, replied, sale_text, send_within,
  server_error,
}

module _ (haversine_km : ℕ × ℕ → ℕ × ℕ → ℕ) (upper : ℕ → ℕ) (blanks : Blanks) where
  -- The states that inbound messages lead to while the clock does not run backwards; what the queries
  -- return differs from one to the next.
  pub data Requests : Channel → ℕ → Type 0 where
    quiet : Requests (record { times = λ _. []; sent = [] }) 0
    request :
        {ch : Channel} {last : ℕ}
        → Requests ch last
        → (found : Answers) (now : ℕ) (sender word : Option ℕ) → last ≤ now
        → Requests (process_inbound haversine_km upper found blanks now sender word ch).1 now

  -- A request sends nothing, or is one call of send_within.
  unfoldable pub IsCall : Answers → ℕ → ℕ → Channel → Reply × Channel → Type 0
  IsCall found now k ch answer =
      (content : Content) × (reply : Reply) × (reply ≢ rate_limited)
      × (answer ≡ send_within now k content reply ch)

  -- The message to be made names a market or a buyer whose name is blank.
  abbrev pub NamesBlank : Answers → Option User → Option ((ℕ × ℕ) × MarketName) → Type 0
  NamesBlank found user price =
      (p : ℕ × ℕ) × (market : MarketName) × (price ≡ some (p, market))
      × (names_blank blanks market (best_buyer haversine_km upper found user) ≡ true)

  replied_not_limited : (a : SaleAction) (text : Content) → replied a text ≢ rate_limited
  replied_not_limited a text e = cc

  abbrev sale_content : Answers → Option User → AliasRow → ℕ × ℕ → MarketName → Content
  sale_content found user row price market =
      sale_text (language_of user) (name_in (language_of user) row.commodities) price market
        (advice_for haversine_km upper found row.commodity_id user)
        (best_buyer haversine_km upper found user)

  -- With a price: one call, or an exception when a name is blank.
  pub priced :
      (found : Answers) (now k : ℕ) (user : Option User) (row : AliasRow) (ch : Channel)
      (price : ℕ × ℕ) (market : MarketName)
      → let answer =
          answer_price haversine_km upper found blanks now k user row ch (some (price, market)) in
        IsCall found now k ch answer
        ⊎ (NamesBlank found user (some (price, market)) × (answer ≡ (server_error, ch)))
  unfolding answer_price IsCall
  priced found now k none row ch price market =
      let advised = advice_for haversine_km upper found row.commodity_id none in
      let text = sale_content found none row price market in
      elim (Bool-cases (names_blank blanks market (best_buyer haversine_km upper found none))) [
        | inl t ↦ inr ((price, market, refl, t), rw t refl)
        | inr f ↦ inl (text, replied advised text, replied_not_limited advised text, rw f refl)
      ]
  priced found now k (some u) row ch price market =
      let advised = advice_for haversine_km upper found row.commodity_id (some u) in
      let text = sale_content found (some u) row price market in
      elim (Bool-cases (names_blank blanks market (best_buyer haversine_km upper found (some u)))) [
        | inl t ↦ inr ((price, market, refl, t), rw t refl)
        | inr f ↦ inl (text, replied advised text, replied_not_limited advised text, rw f refl)
      ]

  answer_price-IsCall :
      (found : Answers) (now k : ℕ) (user : Option User) (row : AliasRow) (ch : Channel)
      (price : Option ((ℕ × ℕ) × MarketName))
      → let answer = answer_price haversine_km upper found blanks now k user row ch price in
        ((user ≡ none) × (answer ≡ (no_data, ch)))
        ⊎ (IsCall found now k ch answer
            ⊎ (NamesBlank found user price × (answer ≡ (server_error, ch))))
  unfolding answer_price IsCall
  answer_price-IsCall found now k none row ch none = inl (refl, refl)
  answer_price-IsCall found now k (some u) row ch none = inr (inl (_, no_data, (λ e. cc), refl))
  answer_price-IsCall found now k user row ch (some (price, market)) =
      inr (priced found now k user row ch price market)

  -- The price that a message is answered with.
  abbrev pub price_for : Answers → Option User → AliasRow → Option ((ℕ × ℕ) × MarketName)
  price_for found user row =
      latest_price_for_user (found.quotes row.commodity_id (origin_of user)) (origin_of user)
        (home_district user)

  pub answer_word-IsCall :
      (found : Answers) (now k : ℕ) (user : Option User) (ch : Channel) (row : Option AliasRow)
      → let answer = answer_word haversine_km upper found blanks now k user ch row in
        ((user ≡ none) × (answer.1 ≡ ch))
        ⊎ (IsCall found now k ch answer
            ⊎ (((r : AliasRow) × (row ≡ some r) × NamesBlank found user (price_for found user r))
                × (answer ≡ (server_error, ch))))
  unfolding answer_word IsCall
  answer_word-IsCall found now k none ch none = inl (refl, refl)
  answer_word-IsCall found now k (some u) ch none = inr (inl (_, help_sent, (λ e. cc), refl))
  answer_word-IsCall found now k user ch (some row) =
      elim (answer_price-IsCall found now k user row ch (price_for found user row)) [
        | inl (stranger, e) ↦ inl (stranger, ap (λ a. a.1) e)
        | inr (inl c) ↦ inr (inl c)
        | inr (inr (blank, e)) ↦ inr (inr ((row, refl, blank), e))
      ]

  pub process_inbound_cases :
      (found : Answers) (now : ℕ) (sender word : Option ℕ) (ch : Channel)
      → let answer = process_inbound haversine_km upper found blanks now sender word ch in
        (answer.1 ≡ ch) ⊎ ((k : ℕ) × IsCall found now k ch answer)
  unfolding process_inbound
  process_inbound_cases found now none word ch = inl refl
  process_inbound_cases found now (some k) none ch = inl refl
  process_inbound_cases found now (some k) (some word) ch =
      elim (answer_word-IsCall found now k (first (found.lookup_profile_by_phone k)) ch
        (find_alias found.commodity_alias (alias_keys upper word))) [
          | inl e ↦ inl e.1
          | inr (inl c) ↦ inr (k, c)
          | inr (inr (blank, e)) ↦ inl (ap (λ a. a.1) e)
        ]
