-- ===== src/Sms/Gateway.antt =====
-- notifications/sms_gateway.py: the gateways. Texts of phone numbers are lists of character codes, and
-- `str.isdigit` is a parameter; templates, keys and messages are numbers. The provider's answer to a
-- request is an argument, and the requests made and the lines of the log are the state.
pub mod Sending
use sih.Prelude.{
  Bool, List, Option, [], false, filter, if◌then◌else◌, length, ltb, none, some, true, ℕ, ◌++◌,
  ◌==◌, ◌∷◌,
}
use sih.Forecast.Models.{last_n}
use sih.Prices.Names.{Text}

-- "***", "+**" with the last four digits.
abbrev pub stars : Text
stars = 42 ∷ 42 ∷ 42 ∷ []

abbrev pub masked_digits : Text → Text
masked_digits ds = if ltb (length ds) 4 then stars else 43 ∷ 42 ∷ 42 ∷ last_n 4 ds

unfoldable pub redact_msisdn : (ℕ → Bool) → Option Text → Text
redact_msisdn is_digit none = stars
redact_msisdn is_digit (some phone) = masked_digits (filter is_digit phone)

pub data GatewayName : Type 0 where
  named_msg91 named_mock : GatewayName

pub record GatewaySettings : Type 0 where
  pub sms_gateway : GatewayName
  -- None where the setting is empty.
  pub msg91_api_key : Option ℕ
  pub msg91_dlt_te_id_en : Option ℕ
  pub msg91_dlt_te_id_mr : Option ℕ
  pub msg91_dlt_te_id_hi : Option ℕ

pub data Gateway : Type 0 where
  mock_gateway : Gateway
  msg91_gateway : ℕ → Gateway

-- Without a key the provider's gateway is not used.
unfoldable pub chosen_gateway : GatewayName → Option ℕ → Gateway
chosen_gateway named_mock key = mock_gateway
chosen_gateway named_msg91 none = mock_gateway
chosen_gateway named_msg91 (some key) = msg91_gateway key

abbrev pub get_sms_gateway : GatewaySettings → Gateway
get_sms_gateway s = chosen_gateway s.sms_gateway s.msg91_api_key

pub data SmsLanguage : Type 0 where
  lang_en lang_mr lang_hi : SmsLanguage

abbrev pub resolve_template : GatewaySettings → SmsLanguage → Option ℕ
resolve_template s lang_en = s.msg91_dlt_te_id_en
resolve_template s lang_mr = s.msg91_dlt_te_id_mr
resolve_template s lang_hi = s.msg91_dlt_te_id_hi

pub data SendStatus : Type 0 where
  mock_sent gateway_sent send_failed : SendStatus

-- What the provider answers: 2xx, another status with the first 200 characters of its text, or
-- httpx.RequestError with its text.
pub data PostAnswer : Type 0 where
  is_success : PostAnswer
  api_error : ℕ → ℕ → PostAnswer
  no_answer : ℕ → PostAnswer

pub record SmsPost : Type 0 where
  pub auth_key : ℕ
  pub template_id : ℕ
  pub mobiles : Text

-- The lines of the log file of the mock and of structlog; a number that is logged is masked first.
pub data LogLine : Type 0 where
  mock_file_entry : Text → Option ℕ → ℕ → LogLine
  mock_sms_sent : Text → Option ℕ → LogLine
  msg91_selected_but_key_missing : LogLine
  msg91_missing_template : Text → LogLine
  msg91_sms_sent : Text → ℕ → LogLine
  msg91_api_error : ℕ → ℕ → Text → LogLine
  msg91_request_error : ℕ → Text → LogLine

pub record SmsWorld : Type 0 where
  pub posts : List SmsPost
  pub log_lines : List LogLine

-- `recipient.lstrip("+")`
abbrev pub lstrip_plus : Text → Text
lstrip_plus [] = []
lstrip_plus (c ∷ cs) = let rest = lstrip_plus cs in if c == 43 then rest else c ∷ cs

abbrev pub status_of_answer : PostAnswer → SendStatus × Bool
status_of_answer is_success = (gateway_sent, true)
status_of_answer (api_error code body) = (send_failed, false)
status_of_answer (no_answer error) = (send_failed, false)

-- What is logged of an answer, for a template and a masked number.
abbrev pub line_of_answer : PostAnswer → ℕ → Text → LogLine
line_of_answer is_success t masked = msg91_sms_sent masked t
line_of_answer (api_error code body) t masked = msg91_api_error code body masked
line_of_answer (no_answer error) t masked = msg91_request_error error masked

abbrev pub add_lines : List LogLine → SmsWorld → SmsWorld
add_lines lines w = record w { log_lines = w.log_lines ++ lines }

-- The request for a number, with the key and the template.
abbrev pub post_of : ℕ → ℕ → Text → SmsPost
post_of key t recipient = record {
  auth_key = key;
  template_id = t;
  mobiles = lstrip_plus recipient;
}

-- What `get_sms_gateway` logs.
unfoldable pub choice_lines : GatewayName → Option ℕ → List LogLine
choice_lines named_mock key = []
choice_lines named_msg91 none = msg91_selected_but_key_missing ∷ []
choice_lines named_msg91 (some key) = []

module _ (is_digit : ℕ → Bool) (provider : SmsPost → PostAnswer) where
  unfoldable pub send_sms :
      Gateway → Text → ℕ → Option ℕ → SmsWorld → (SendStatus × Bool) × SmsWorld
  unfolding redact_msisdn
  send_sms mock_gateway recipient message template w =
      let masked = redact_msisdn is_digit (some recipient) in
      (
        (mock_sent, true),
        add_lines (mock_file_entry masked template message ∷ mock_sms_sent masked template ∷ []) w,
      )
  send_sms (msg91_gateway key) recipient message none w =
      let masked = redact_msisdn is_digit (some recipient) in
      ((send_failed, false), add_lines (msg91_missing_template masked ∷ []) w)
  send_sms (msg91_gateway key) recipient message (some t) w =
      let masked = redact_msisdn is_digit (some recipient) in
      let post = post_of key t recipient in
      let answer = provider post in
      (
        status_of_answer answer,
        add_lines (line_of_answer answer t masked ∷ []) (record w { posts = w.posts ++ post ∷ [] }),
      )

  -- A message in a language, by the gateway of the settings.
  unfoldable pub send_in :
      GatewaySettings → SmsLanguage → Text → ℕ → SmsWorld → (SendStatus × Bool) × SmsWorld
  unfolding chosen_gateway choice_lines send_sms
  send_in s lang recipient message w =
      send_sms (get_sms_gateway s) recipient message (resolve_template s lang)
        (add_lines (choice_lines s.sms_gateway s.msg91_api_key) w)
