-- ===== src/Advice/TextTests.antt =====
-- Messages with concrete words.
use sih.Prelude.{inr, refl, some, ℕ, ◌≡◌}
use sih.Advice.Texts.{
  codes, first_word, format_sale_sms, market_word, name_buyer, plain_sms, with_market,
}
use sih.Advice.Texts.Length.{HasWord}
use sih.Market.Logistics.{sell_now}
use sih.Prices.Names.{Text, rstrip, words_from}
use sih.Prices.Tests.{blank}
use sih.Sms.Inbound.{en}

-- Every number is written "1".
abbrev one_digit : ℕ → Text
one_digit n = codes "1"

abbrev spaced_buyer : Text
spaced_buyer = codes "Agro Mill"

sms_now :
    format_sale_sms one_digit blank en
      (codes "Onion")
      2000
      (codes "Yeola APMC")
      sell_now
      spaced_buyer
    ≡ some (codes "KB: Onion ₹1 Yeola. SELL NOW. Agro.")
unfolding format_sale_sms with_market market_word name_buyer plain_sms first_word words_from rstrip
sms_now = refl

has_yeola : HasWord one_digit blank (codes "Yeola APMC")
unfolding first_word words_from
has_yeola = inr (codes "Yeola", refl)

has_agro : HasWord one_digit blank spaced_buyer
unfolding first_word words_from
has_agro = inr (codes "Agro", refl)
