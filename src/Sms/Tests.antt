-- ===== src/Sms/Tests.antt =====
-- The SMS channel on concrete requests.
use sih.Prelude.{
  Bool, List, Option, [], arith, false, leb, none, refl, some, true, ℕ, ◌&&◌, ◌+◌, ◌↔◌, ◌∷◌, ◌≡◌,
}
use sih.Store.{err, ok}
use sih.Prices.Names.{Text}
use sih.Sms.Gateway.{
  GatewaySettings, PostAnswer, SmsPost, SmsWorld, choice_lines, chosen_gateway, gateway_sent,
  is_success, lang_en, named_msg91, send_failed, send_in, send_sms,
}
use sih.Sms.Gateway.Sending.{AnswersSame, HaveSameEnd, IsSending, send_in_lem}
use sih.Sms.Phone.{normalize_digits, normalize_phone, with_prefix}
use sih.Sms.Replay.{
  Stamp, WebhookRequest, at_rest, check_signed, instant, remember, verify, verify-no_replay,
}

abbrev ascii_digit : ℕ → Bool
ascii_digit c = leb 48 c && leb c 57

-- "98765 43210"
abbrev mobile : List ℕ
mobile = 57 ∷ 56 ∷ 55 ∷ 54 ∷ 53 ∷ 32 ∷ 52 ∷ 51 ∷ 50 ∷ 49 ∷ 48 ∷ []

abbrev normal_mobile : List ℕ
normal_mobile = with_prefix (57 ∷ 56 ∷ 55 ∷ 54 ∷ 53 ∷ 52 ∷ 51 ∷ 50 ∷ 49 ∷ 48 ∷ [])

normal_now : normalize_phone ascii_digit (some mobile) ≡ some normal_mobile
unfolding normalize_phone normalize_digits
normal_now = refl

-- A sum stands for the HMAC, and every timestamp is read as it is.
abbrev plus : ℕ → ℕ → ℕ
plus a b = a + b

abbrev as_written : ℕ → Option Stamp
as_written t = some (instant t)

-- Signed for an instant five minutes ahead of the clock.
abbrev ahead_request : WebhookRequest
ahead_request = record { signature = some 1_300_000_007; timestamp = some 1_300_000_000; body = 7 }

taken_once : (verify plus as_written 1_000_000_000 1_000_000_000 ahead_request []).0 ≡ ok tt
unfolding verify check_signed remember
taken_once = refl

verify-no_replay_example :
    let seen = (verify plus as_written 1_000_000_000 1_000_000_000 ahead_request []).1 in
    (verify plus as_written 1_300_000_000 1_300_000_000 ahead_request seen).0 ≡ err 403
verify-no_replay_example =
    verify-no_replay plus as_written 1_000_000_000 1_000_000_000 ahead_request [] taken_once at_rest
      1_300_000_000 1_300_000_000 ahead_request refl (omega arith)

-- After 331 seconds the same request is accepted once more.
taken_twice :
    let seen = (verify plus as_written 1_000_000_000 1_000_000_000 ahead_request []).1 in
    (verify plus as_written 1_331_000_000 1_331_000_000 ahead_request seen).0 ≡ ok tt
unfolding verify check_signed remember
taken_twice = refl

-- The provider's gateway with a template for English.
abbrev live_settings : GatewaySettings
live_settings = record {
  sms_gateway = named_msg91;
  msg91_api_key = some 4;
  msg91_dlt_te_id_en = some 8;
  msg91_dlt_te_id_mr = none;
  msg91_dlt_te_id_hi = none;
}

abbrev quiet_world : SmsWorld
quiet_world = record { posts = []; log_lines = [] }

abbrev accepts : SmsPost → PostAnswer
accepts post = is_success

sent_in_english :
    (send_in ascii_digit accepts live_settings lang_en mobile 5 quiet_world).0
    ≡ (gateway_sent, true)
unfolding send_in chosen_gateway choice_lines send_sms
sent_in_english = refl

send_in_lem_example :
    let end = send_in ascii_digit accepts live_settings lang_en mobile 5 quiet_world in
    IsSending ascii_digit accepts (some 4) (some 8) quiet_world end
    × ((end.0.1 ≡ false) ↔ (end.0.0 ≡ send_failed))
    × ((other : Text)
        → HaveSameEnd ascii_digit accepts other mobile
        → AnswersSame ascii_digit accepts other mobile
        → (send_in ascii_digit accepts live_settings lang_en other 5 quiet_world).1.log_lines
          ≡ end.1.log_lines)
send_in_lem_example = send_in_lem ascii_digit accepts live_settings lang_en mobile 5 quiet_world
