-- ===== src/Sms/Gateway/Sending.antt =====
-- What a message needs to be sent.
use sih.Prelude.{
  Bool, Option, [], ap, arith, false, filter, inl, inr, length, ltb, none, refl, some, sym, ℕ, ◌++◌,
  ◌↔◌, ◌∙◌, ◌∷◌, ◌≡◌, ◌≢◌, ◌≤◌, ◌⊎◌,
}
use sih.Forecast.Models.{last_n}
use sih.Prices.Names.{Text}
use sih.Sms.Gateway.{
  Gateway, GatewayName, GatewaySettings, PostAnswer, SendStatus, SmsLanguage, SmsPost, SmsWorld,
  add_lines, api_error, choice_lines, chosen_gateway, gateway_sent, get_sms_gateway, is_success,
  line_of_answer, masked_digits, mock_file_entry, mock_gateway, mock_sms_sent, msg91_gateway,
  msg91_missing_template, named_mock, named_msg91, no_answer, post_of, redact_msisdn,
  resolve_template, send_failed, send_in, send_sms, status_of_answer,
}

module _ (is_digit : ℕ → Bool) (provider : SmsPost → PostAnswer) where
  -- Nothing is posted; or one message is, with the key and with the template, and the provider's answer
  -- decides.
  abbrev pub IsSending : Option ℕ → Option ℕ → SmsWorld → (SendStatus × Bool) × SmsWorld → Type 0
  IsSending key template w ((status, flag), w') =
      ((w'.posts ≡ w.posts) × (status ≢ gateway_sent))
      ⊎ ((post : SmsPost) × (w'.posts ≡ w.posts ++ post ∷ [])
          × (key ≡ some post.auth_key)
          × (template ≡ some post.template_id)
          × ((status ≡ gateway_sent) ↔ (provider post ≡ is_success)))

  abbrev gateway_key : Gateway → Option ℕ
  gateway_key mock_gateway = none
  gateway_key (msg91_gateway key) = some key

  status_of_answer_iff :
      (a : PostAnswer) → ((status_of_answer a).0 ≡ gateway_sent) ↔ (a ≡ is_success)
  status_of_answer_iff is_success = ((λ e. refl), (λ e. refl))
  status_of_answer_iff (api_error code body) = ((λ e. cc), (λ e. cc))
  status_of_answer_iff (no_answer error) = ((λ e. cc), (λ e. cc))

  status_of_answer-failed :
      (a : PostAnswer) → ((status_of_answer a).1 ≡ false) ↔ ((status_of_answer a).0 ≡ send_failed)
  status_of_answer-failed is_success = ((λ e. cc), (λ e. cc))
  status_of_answer-failed (api_error code body) = ((λ e. refl), (λ e. refl))
  status_of_answer-failed (no_answer error) = ((λ e. refl), (λ e. refl))

  send_sms-IsSending :
      (g : Gateway) (recipient : Text) (message : ℕ) (template : Option ℕ) (w : SmsWorld)
      → IsSending
          (gateway_key g)
          template
          w
          (send_sms is_digit provider g recipient message template w)
  unfolding send_sms
  send_sms-IsSending mock_gateway recipient message template w = inl (refl, (λ e. cc))
  send_sms-IsSending (msg91_gateway key) recipient message none w = inl (refl, (λ e. cc))
  send_sms-IsSending (msg91_gateway key) recipient message (some t) w =
      let post = post_of key t recipient in
      inr (post, refl, refl, refl, status_of_answer_iff (provider post))

  send_sms-failed :
      (g : Gateway) (recipient : Text) (message : ℕ) (template : Option ℕ) (w : SmsWorld)
      → let end = send_sms is_digit provider g recipient message template w in
        (end.0.1 ≡ false) ↔ (end.0.0 ≡ send_failed)
  unfolding send_sms
  send_sms-failed mock_gateway recipient message template w = ((λ e. cc), (λ e. cc))
  send_sms-failed (msg91_gateway key) recipient message none w = ((λ e. refl), (λ e. refl))
  send_sms-failed (msg91_gateway key) recipient message (some t) w =
      status_of_answer-failed (provider (post_of key t recipient))

  -- The numbers end with the same four digits.
  abbrev pub HaveSameEnd : Text → Text → Type 0
  HaveSameEnd a b =
      (last_n 4 (filter is_digit a) ≡ last_n 4 (filter is_digit b))
      × (4 ≤ length (filter is_digit a))
      × (4 ≤ length (filter is_digit b))

  masked_digits_lem : (ds : Text) → 4 ≤ length ds → masked_digits ds ≡ 43 ∷ 42 ∷ 42 ∷ last_n 4 ds
  masked_digits_lem ds h = let long : ltb (length ds) 4 ≡ false = ground (arith, h) in rw long refl

  redact_msisdn-same :
      (a b : Text)
      → HaveSameEnd a b
      → redact_msisdn is_digit (some a) ≡ redact_msisdn is_digit (some b)
  unfolding redact_msisdn
  redact_msisdn-same a b (e, h, k) =
      masked_digits_lem (filter is_digit a) h
      ∙ ap (λ l. 43 ∷ 42 ∷ 42 ∷ l) e
      ∙ sym (masked_digits_lem (filter is_digit b) k)

  -- The provider does not tell the numbers apart.
  abbrev pub AnswersSame : Text → Text → Type 0
  AnswersSame a b = (key t : ℕ) → provider (post_of key t a) ≡ provider (post_of key t b)

  send_sms-log :
      (g : Gateway) (a b : Text) (message : ℕ) (template : Option ℕ) (w : SmsWorld)
      → HaveSameEnd a b
      → AnswersSame a b
      → (send_sms is_digit provider g a message template w).1.log_lines
        ≡ (send_sms is_digit provider g b message template w).1.log_lines
  unfolding send_sms
  send_sms-log mock_gateway a b message template w same alike =
      ap
        (λ (t : Text).
          w.log_lines ++ mock_file_entry t template message ∷ mock_sms_sent t template ∷ [])
        (redact_msisdn-same a b same)
  send_sms-log (msg91_gateway key) a b message none w same alike =
      ap (λ (t : Text). w.log_lines ++ msg91_missing_template t ∷ []) (redact_msisdn-same a b same)
  send_sms-log (msg91_gateway key) a b message (some t) w same alike =
      ap (λ (m : Text). w.log_lines ++ line_of_answer (provider (post_of key t a)) t m ∷ [])
        (redact_msisdn-same a b same)
      ∙ ap
          (λ (x : PostAnswer).
            w.log_lines ++ line_of_answer x t (redact_msisdn is_digit (some b)) ∷ [])
          (alike key t)

  -- The gateway has a key only if the settings have it.
  gateway_key_lem :
      (name : GatewayName) (key : Option ℕ)
      → (gateway_key (chosen_gateway name key) ≡ none)
        ⊎ (key ≡ gateway_key (chosen_gateway name key))
  unfolding chosen_gateway
  gateway_key_lem named_mock key = inl refl
  gateway_key_lem named_msg91 none = inl refl
  gateway_key_lem named_msg91 (some key) = inr refl

  none-some : {A : Type 0} {a : A} {o : Option A} → o ≡ none → o ≢ some a
  none-some e h = cc

  -- A message that is sent in a language is at most one request to the provider, with the key and with
  -- the registered template of the language; the status is that it was sent exactly when the provider
  -- accepts that request, and the flag says failure exactly when the status does. Two numbers of at
  -- least four digits with the same last four leave the same log, if the provider answers the
  -- requests for them alike: the text of a refusal is logged.
  pub send_in_lem :
      (s : GatewaySettings) (lang : SmsLanguage) (recipient : Text) (message : ℕ) (w : SmsWorld)
      → let end = send_in is_digit provider s lang recipient message w in
        IsSending s.msg91_api_key (resolve_template s lang) w end
        × ((end.0.1 ≡ false) ↔ (end.0.0 ≡ send_failed))
        × ((other : Text)
            → HaveSameEnd other recipient
            → AnswersSame other recipient
            → (send_in is_digit provider s lang other message w).1.log_lines ≡ end.1.log_lines)
  unfolding send_in
  send_in_lem s lang recipient message w =
      let g = get_sms_gateway s in
      let template = resolve_template s lang in
      let w1 = add_lines (choice_lines s.sms_gateway s.msg91_api_key) w in
      (
        elim (send_sms-IsSending g recipient message template w1) [
          | inl unposted ↦ inl unposted
          | inr (post, after, key, t, accepted_iff) ↦
              elim (gateway_key_lem s.sms_gateway s.msg91_api_key) [
                | inl bare ↦ absurd (none-some bare key)
                | inr same ↦ inr (post, after, same ∙ key, t, accepted_iff)
              ]
        ],
        send_sms-failed g recipient message template w1,
        (λ other same alike. send_sms-log g other recipient message template w1 same alike),
      )
