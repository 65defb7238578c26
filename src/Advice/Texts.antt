-- ===== src/Advice/Texts.antt =====
-- notifications/sale_window.py: `apply_sale_language`, `format_sale_sms` and `format_alert_sms`. Texts are
-- lists of character codes; `str` of a whole number and `str.isspace` are parameters, and prices and
-- arrivals are given as the whole numbers that `int(round(float(x)))` makes of them.
use Prim.Native.Char.{code}
use Prim.Native.String.{String}
pub mod Length
use sih.Prelude.{
  Bool, Option, [], head?, if◌then◌else◌, leb, length, none, some, take, ℕ, ◌++◌, ◌==◌, ◌∷◌,
}
use sih.Advice.Supply.{
  ReasonCode, hold_stored, sell_arrivals, sell_forecast, sell_no_storage, wait_normal,
}
use sih.Market.Logistics.{SaleAction, hold, sell_now, wait}
use sih.Prices.Names.{Text, rstrip, split, words_from}
use sih.Sms.Inbound.{Language, en, hi, mr}

abbrev pub codes : String → Text
codes String.[] = []
codes (String.◌∷◌ c s) = code c ∷ codes s

abbrev pub sms_length : ℕ
sms_length = 70

abbrev pub is_dot : ℕ → Bool
is_dot c = c == 46

-- The words for an action, in a message.
abbrev pub verb : Language → SaleAction → Text
verb mr sell_now = codes "आज विका"
verb mr hold = codes "थोडे थांबा"
verb mr wait = codes "थांबा"
verb hi sell_now = codes "आज बेचें"
verb hi hold = codes "थोड़ा रुकें"
verb hi wait = codes "रुकें"
verb en sell_now = codes "SELL NOW"
verb en hold = codes "HOLD"
verb en wait = codes "WAIT"

-- `labels`, the words for an action on the page.
abbrev pub action_label : Language → SaleAction → Text
action_label mr sell_now = codes "आज विका"
action_label mr hold = codes "थोडे थांबा"
action_label mr wait = codes "थांबा"
action_label hi sell_now = codes "आज बेचें"
action_label hi hold = codes "थोड़ा रुकें"
action_label hi wait = codes "रुकें"
action_label en sell_now = codes "Sell Now"
action_label en hold = codes "Hold"
action_label en wait = codes "Wait"

module _ (str : ℕ → Text) where
  -- "₹" with a price.
  abbrev pub rupees_text : ℕ → Text
  rupees_text p = codes "₹" ++ str p

  -- The reason in Marathi, from the code, the price, the forecast, the arrivals and a godown.
  unfoldable pub reason_mr : ReasonCode → ℕ → Option ℕ → Option ℕ → Text → Text
  reason_mr wait_normal p d1 aq godown = codes "आवक सामान्य; घाई नको."
  reason_mr hold_stored p (some d) aq godown =
      codes "अंदाज "
      ++ rupees_text d
      ++ codes " आज "
      ++ rupees_text p
      ++ codes " पेक्षा जास्त. जवळचे गोदाम: "
      ++ godown
      ++ codes ". थोडे थांबा."
  reason_mr hold_stored p none aq godown = codes "जवळचे गोदाम: " ++ godown ++ codes ". थोडे थांबा."
  reason_mr sell_forecast p (some d) aq godown =
      codes "अंदाज "
      ++ rupees_text d
      ++ codes " आज "
      ++ rupees_text p
      ++ codes " पेक्षा कमी; आज विका."
  reason_mr sell_forecast p none aq godown = codes "आज विका."
  reason_mr sell_arrivals p d1 (some a) godown =
      codes "आवक जास्त (" ++ str a ++ codes " क्विंटल); आज विका."
  reason_mr sell_arrivals p d1 none godown = codes "आज विका."
  reason_mr sell_no_storage p d1 aq godown = codes "आवक/अंदाज जास्त पण जवळ गोदाम नाही; आज विका."

  -- The same in Hindi.
  unfoldable pub reason_hi : ReasonCode → ℕ → Option ℕ → Option ℕ → Text → Text
  reason_hi wait_normal p d1 aq godown = codes "आवक सामान्य; जल्दबाजी न करें."
  reason_hi hold_stored p (some d) aq godown =
      codes "अनुमान "
      ++ rupees_text d
      ++ codes " आज "
      ++ rupees_text p
      ++ codes " से ऊपर. नज़दीकी गोदाम: "
      ++ godown
      ++ codes ". थोड़ा रुकें."
  reason_hi hold_stored p none aq godown =
      codes "नज़दीकी गोदाम: " ++ godown ++ codes ". थोड़ा रुकें."
  reason_hi sell_forecast p (some d) aq godown =
      codes "अनुमान " ++ rupees_text d ++ codes " आज " ++ rupees_text p ++ codes " से कम; आज बेचें."
  reason_hi sell_forecast p none aq godown = codes "आज बेचें."
  reason_hi sell_arrivals p d1 (some a) godown =
      codes "आवक ज्यादा (" ++ str a ++ codes " क्विंटल); आज बेचें."
  reason_hi sell_arrivals p d1 none godown = codes "आज बेचें."
  reason_hi sell_no_storage p d1 aq godown =
      codes "आवक/अनुमान ऊँचा है पर नज़दीकी गोदाम नहीं; आज बेचें."

  -- `apply_sale_language`: the label, and the reason, which English keeps.
  unfoldable pub apply_sale_language :
      Language → SaleAction → ReasonCode → ℕ → Option ℕ → Option ℕ → Text → Text → Text × Text
  unfolding reason_mr reason_hi
  apply_sale_language en action reason_code p d1 aq godown reason = (action_label en action, reason)
  apply_sale_language mr action reason_code p d1 aq godown reason =
      (action_label mr action, reason_mr reason_code p d1 aq godown)
  apply_sale_language hi action reason_code p d1 aq godown reason =
      (action_label hi action, reason_hi reason_code p d1 aq godown)

  unfoldable pub format_alert_sms : Language → Text → ℕ → ℕ → Text → Text
  format_alert_sms mr name p t scope =
      codes "KB: "
      ++ name
      ++ codes " "
      ++ rupees_text p
      ++ codes ". मर्यादा "
      ++ rupees_text t
      ++ codes " ओलांडली."
  format_alert_sms hi name p t scope =
      codes "KB: "
      ++ name
      ++ codes " "
      ++ rupees_text p
      ++ codes ". सीमा "
      ++ rupees_text t
      ++ codes " पार."
  format_alert_sms en name p t scope =
      codes "KrishiBazaar Alert: "
      ++ name
      ++ codes " is "
      ++ rupees_text p
      ++ elim scope [ [] ↦ [] | c ∷ cs ↦ codes " (" ++ c ∷ cs ++ codes ")" ]
      ++ codes ". Threshold "
      ++ rupees_text t
      ++ codes "."

  module _ (is_space : ℕ → Bool) where
    -- `text.split()[0]`: none for an IndexError.
    unfoldable pub first_word : Text → Option Text
    unfolding words_from
    first_word t = head? (split is_space t)

    -- The first word of the market, "" without a market.
    unfoldable pub market_word : Text → Option Text
    unfolding first_word
    market_word [] = some []
    market_word (c ∷ cs) = first_word (c ∷ cs)

    unfoldable pub plain_sms : Language → Text → ℕ → Text → SaleAction → Text
    plain_sms mr name p mkt action =
        codes "KB: "
        ++ name
        ++ codes " "
        ++ rupees_text p
        ++ codes ". "
        ++ verb mr action
        ++ codes "."
    plain_sms hi name p mkt action =
        codes "KB: "
        ++ name
        ++ codes " "
        ++ rupees_text p
        ++ codes ". "
        ++ verb hi action
        ++ codes "."
    plain_sms en name p [] action =
        codes "KB: "
        ++ name
        ++ codes " "
        ++ rupees_text p
        ++ codes ". "
        ++ verb en action
        ++ codes "."
    plain_sms en name p (c ∷ cs) action =
        codes "KB: "
        ++ name
        ++ codes " "
        ++ rupees_text p
        ++ codes " "
        ++ (c ∷ cs)
        ++ codes ". "
        ++ verb en action
        ++ codes "."

    abbrev pub candidate : Text → Text → Text
    candidate m short = rstrip is_dot m ++ codes ". " ++ short ++ codes "."

    -- The buyer is named by twelve letters of the first word, where 70 are not exceeded.
    unfoldable pub name_buyer : Text → Text → Option Text
    unfolding first_word rstrip
    name_buyer m [] = some m
    name_buyer m (c ∷ cs) = elim (first_word (c ∷ cs)) [
      | none ↦ none
      | some w ↦
          let longer = candidate m (take 12 w) in
          if leb (length longer) sms_length then some longer else some m
    ]

    unfoldable pub with_market : Option Text → Language → Text → ℕ → SaleAction → Text → Option Text
    unfolding plain_sms name_buyer
    with_market none lang name p action buyer = none
    with_market (some mkt) lang name p action buyer =
        name_buyer (plain_sms lang name p mkt action) buyer

    -- A market or a buyer that is None is the empty text.
    unfoldable pub format_sale_sms : Language → Text → ℕ → Text → SaleAction → Text → Option Text
    unfolding market_word with_market
    format_sale_sms lang name p market action buyer =
        with_market (market_word market) lang name p action buyer
