-- ===== src/Advice/Texts/Length.antt =====
-- When a buyer is named in a message.
use sih.Prelude.{
  Bool, Bool-cases, [], false, inl, inr, leb, leb→le, length, refl, some, take, true, ℕ, ◌∷◌, ◌≡◌,
  ◌≤◌, ◌⊎◌,
}
use sih.Advice.Texts.{
  candidate, first_word, format_sale_sms, market_word, name_buyer, plain_sms, sms_length,
  with_market,
}
use sih.Market.Logistics.{SaleAction}
use sih.Prices.Names.{Text}
use sih.Sms.Inbound.{Language}

module _ (str : ℕ → Text) (is_space : ℕ → Bool) where
  -- The name is missing, or has a word.
  abbrev pub HasWord : Text → Type 0
  HasWord t = (t ≡ []) ⊎ ((w : Text) × (first_word str is_space t ≡ some w))

  abbrev is_empty_text : Text → Bool
  is_empty_text [] = true
  is_empty_text (c ∷ cs) = false

  market_word_lem :
      (market : Text) → HasWord market → (m : Text) × (market_word str is_space market ≡ some m)
  unfolding market_word
  market_word_lem [] h = ([], refl)
  market_word_lem (c ∷ cs) (inl bare) = cc
  market_word_lem (c ∷ cs) (inr (w, e)) = (w, e)

  -- The message without a buyer, or one of at most 70 characters.
  abbrev pub IsShort : Text → Text → Type 0
  IsShort plain m = (m ≡ plain) ⊎ (length m ≤ sms_length)

  name_buyer_lem :
      (plain buyer : Text)
      → HasWord buyer
      → (m : Text) × (name_buyer str is_space plain buyer ≡ some m) × IsShort plain m
  unfolding name_buyer
  name_buyer_lem plain [] h = (plain, refl, inl refl)
  name_buyer_lem plain (c ∷ cs) (inl bare) = cc
  name_buyer_lem plain (c ∷ cs) (inr (w, e)) =
      let longer = candidate str is_space plain (take 12 w) in
      elim (Bool-cases (leb (length longer) sms_length)) [
        | inl fits ↦ (longer, rw (e, name_buyer, fits) refl, inr (leb→le _ _ fits))
        | inr too_long ↦ (plain, rw (e, name_buyer, too_long) refl, inl refl)
      ]

  -- When neither name is only spaces a message is made, and it is the one without a buyer or has at most
  -- 70 characters: naming the buyer never makes a message longer than that.
  pub format_sale_sms_lem :
      (lang : Language) (name : Text) (p : ℕ) (market : Text) (action : SaleAction) (buyer : Text)
      → HasWord market
      → HasWord buyer
      → (plain : Text) × (m : Text) × (format_sale_sms str is_space lang name p market action []
          ≡ some plain)
        × (format_sale_sms str is_space lang name p market action buyer ≡ some m)
        × IsShort plain m
  unfolding format_sale_sms with_market
  format_sale_sms_lem lang name p market action buyer has_market has_buyer =
      let (mkt, e) = market_word_lem market has_market in
      let plain = plain_sms str is_space lang name p mkt action in
      let (m, named_m, short) = name_buyer_lem plain buyer has_buyer in
      (plain, m, rw e refl, rw e named_m, short)
