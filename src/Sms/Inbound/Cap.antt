-- ===== src/Sms/Inbound/Cap.antt =====
-- Inbound messages are answered up to the cap.
use mathlib.Core.Path.{subst}
use mathlib.Core.List.{append-nil}
use sih.Prelude.{
  ==_iff, Bool-cases, List, [], ap, arith, false, filter, if◌then◌else◌, inl, inr, length, map,
  refl, some, sym, true, ℕ, ◌++◌, ◌<◌, ◌==◌, ◌∙◌, ◌∷◌, ◌≡◌, ◌≢◌, ◌≤◌, ◌⊎◌,
}
use sih.Sms.Inbound.{
  AliasRow, Answers, Blanks, Channel, Content, Message, Reply, User, alias_keys, find_alias, first,
  process_inbound, rate_limited, send_within, server_error,
}
use sih.Sms.Inbound.Calls.{
  IsCall, NamesBlank, Requests, answer_word-IsCall, price_for, process_inbound_cases, quiet,
  request,
}
use sih.Sms.Outbound.{
  Calls, Calls-recent, Times, allow_outbound, allow_outbound_iff, call, note, outbound_max, recent,
  start,
}

-- The instants of the messages sent to a number.
abbrev pub log_of : List Message → ℕ → List ℕ
log_of sent k = map (λ (m : Message). m.sent_at) (filter (λ (m : Message). m.recipient == k) sent)

log_of-snoc :
    (sent : List Message) (m : Message) (k : ℕ)
    → log_of (sent ++ m ∷ []) k ≡ log_of sent k ++ (if m.recipient == k then m.sent_at ∷ [] else [])
log_of-snoc [] m k = elim (Bool-cases (m.recipient == k)) [ inl t ↦ rw t refl | inr f ↦ rw f refl ]
log_of-snoc (x ∷ xs) m k = elim (Bool-cases (x.recipient == k)) [
  | inl t ↦ rw t (ap (λ l. x.sent_at ∷ l) (log_of-snoc xs m k))
  | inr f ↦ rw f (log_of-snoc xs m k)
]

-- What the cap keeps agrees with the messages sent.
abbrev pub Tallies : Channel → ℕ → Type 0
Tallies ch last =
    (log : Times) × (at : ℕ) × (at ≤ last)
    × Calls ch.times log at
    × ((k : ℕ) → log k ≡ log_of ch.sent k)

send_within-times :
    (now k : ℕ) (content : Content) (reply : Reply) (ch : Channel)
    → (send_within now k content reply ch).1.times ≡ (allow_outbound now k ch.times).1
unfolding send_within
send_within-times now k content reply ch = elim (Bool-cases (allow_outbound now k ch.times).0) [
  | inl t ↦ rw t refl
  | inr f ↦ rw f refl
]

send_within-sent :
    (now k : ℕ) (content : Content) (reply : Reply) (ch : Channel) (log : Times) (j : ℕ)
    → ((i : ℕ) → log i ≡ log_of ch.sent i)
    → note now k (allow_outbound now k ch.times).0 log j
      ≡ log_of (send_within now k content reply ch).1.sent j
unfolding send_within
send_within-sent now k content reply ch log j same =
    let message : Message = record { recipient = k; sent_at = now; content = content } in
    elim (Bool-cases (allow_outbound now k ch.times).0) [
      | inr f ↦ rw f (same j)
      | inl t ↦
          let snoc = log_of-snoc ch.sent message j in
          elim (Bool-cases (j == k)) [
            | inr f ↦
                let other : (k == j) ≡ false = ground (arith, f) in
                let unchanged : log_of (ch.sent ++ message ∷ []) j ≡ log_of ch.sent j =
                  snoc ∙ rw other (append-nil (log_of ch.sent j)) in
                rw (t, f) (same j ∙ sym unchanged)
            | inl e ↦
                let mine : (k == j) ≡ true = ground (arith, e) in
                let longer : log_of (ch.sent ++ message ∷ []) j ≡ log_of ch.sent j ++ now ∷ [] =
                  snoc ∙ rw mine refl in
                let known : log k ≡ log_of ch.sent j =
                  same k ∙ ap (λ i. log_of ch.sent i) (sym ((==_iff j k).0 e)) in
                rw (t, e) (ap (λ l. l ++ now ∷ []) known ∙ sym longer)
          ]
    ]

send_within-Tallies :
    (now k : ℕ) (content : Content) (reply : Reply) (ch : Channel) (last : ℕ)
    → last ≤ now
    → Tallies ch last
    → Tallies (send_within now k content reply ch).1 now
send_within-Tallies now k content reply ch last later (log, at, early, path, same) = (
  note now k (allow_outbound now k ch.times).0 log,
  now,
  omega arith,
  subst (λ m. Calls m (note now k (allow_outbound now k ch.times).0 log) now)
      (sym (send_within-times now k content reply ch))
      (call path now k (omega (arith, later, early))),
  (λ j. send_within-sent now k content reply ch log j same),
)

Tallies-later : (ch : Channel) (last now : ℕ) → last ≤ now → Tallies ch last → Tallies ch now
Tallies-later ch last now later (log, at, early, path, same) =
    (log, at, omega (arith, later, early), path, same)

-- What a number with a profile gets for a message that has a word.
abbrev pub Answered : ℕ → ℕ → Channel → Reply × Channel → Type 0
Answered now k ch (reply, ch') =
    let recently = length (filter (recent now) (log_of ch.sent k)) in
    ((recently < outbound_max)
      × (reply ≢ rate_limited)
      × ((content : Content) × (ch'.sent
            ≡ ch.sent ++ (record { recipient = k; sent_at = now; content = content }) ∷ [])))
    ⊎ ((recently ≡ outbound_max) × (reply ≡ rate_limited) × (ch'.sent ≡ ch.sent))

send_within-Answered :
    (now k : ℕ) (content : Content) (reply : Reply) (ch : Channel)
    → reply ≢ rate_limited
    → Tallies ch now
    → Answered now k ch (send_within now k content reply ch)
unfolding send_within
send_within-Answered now k content reply ch fit (log, at, early, path, same) =
    let counted : length (filter (recent now) (log k))
        ≡ length (filter (recent now) (log_of ch.sent k)) =
      ap (λ l. length (filter (recent now) l)) (same k) in
    let (allow, full) = allow_outbound_iff now k path early in
    let most = Calls-recent now k path early in
    elim (Bool-cases (allow_outbound now k ch.times).0) [
      | inl t ↦ rw t (inl (omega (arith, allow t, counted), fit, (content, refl)))
      | inr f ↦
          let none_left : ¬ (length (filter (recent now) (log k)) < outbound_max) =
            λ h. ground (arith, full h, f) in
          rw f (inr (omega (arith, none_left, most, counted), refl, refl))
    ]

module _ (haversine_km : ℕ × ℕ → ℕ × ℕ → ℕ) (upper : ℕ → ℕ) (blanks : Blanks) where
  Requests-Tallies :
      {ch : Channel} {last : ℕ} → Requests haversine_km upper blanks ch last → Tallies ch last
  unfolding IsCall
  Requests-Tallies quiet = ((λ _. []), 0, omega arith, start, (λ k. refl))
  Requests-Tallies (request {ch} {last} path found now sender word later) =
      let before = Requests-Tallies path in
      elim (process_inbound_cases haversine_km upper blanks found now sender word ch) [
        | inl e ↦ subst (λ c. Tallies c now) (sym e) (Tallies-later ch last now later before)
        | inr (k, (content, reply, answered, e)) ↦
            subst (λ a. Tallies a.1 now) (sym e)
              (send_within-Tallies now k content reply ch last later before)
      ]

  -- The server fails on a message: it would name a blank market or a blank buyer. Nothing is sent.
  abbrev pub Fails : Answers → ℕ → User → Channel → Reply × Channel → Type 0
  Fails found word u ch answer =
      ((r : AliasRow) × (find_alias found.commodity_alias (alias_keys upper word) ≡ some r)
        × NamesBlank haversine_km upper blanks found (some u)
            (price_for haversine_km upper blanks found (some u) r))
      × (answer ≡ (server_error, ch))

  -- After any inbound messages, a message with a word from a number that has a profile is answered by
  -- exactly one SMS to that number if fewer than five were sent to it in the hour before; otherwise
  -- exactly five were, nothing is sent, and the reply says so. The one exception: the word is of a crop
  -- with a price, and the name of the price's market or of the best buyer is only spaces; then the
  -- server fails, and sends and counts nothing.
  pub process_inbound-Answered :
      {ch : Channel} {last : ℕ} (found : Answers) (now k word : ℕ) (u : User)
      → Requests haversine_km upper blanks ch last
      → last ≤ now
      → first (found.lookup_profile_by_phone k) ≡ some u
      → let answer = process_inbound haversine_km upper found blanks now (some k) (some word) ch in
        Answered now k ch answer ⊎ Fails found word u ch answer
  unfolding process_inbound IsCall
  process_inbound-Answered {ch} {last} found now k word u path later known =
      let row = find_alias found.commodity_alias (alias_keys upper word) in
      rw known (elim (answer_word-IsCall haversine_km upper blanks found now k (some u) ch row) [
        | inl (stranger, e) ↦ cc
        | inr (inl (content, reply, fit, e)) ↦ inl (
            subst (λ a. Answered now k ch a) (sym e)
              (send_within-Answered now k content reply ch fit
                (Tallies-later ch last now later (Requests-Tallies path))))
        | inr (inr (nameless, e)) ↦ inr (nameless, e)
      ])
