-- ===== src/Sms/Replay.antt =====
-- notifications/inbound_verifier.py: the check of a webhook request. Texts are numbers; the HMAC of a
-- body with its timestamp, and the reading of a timestamp, are parameters. Instants are in
-- microseconds.
use sih.Prelude.{
  ==_iff, Bool, Bool-cases, List, Option, Option-cases, [], any, ap, arith, false, filter,
  if◌then◌else◌, inl, inr, leb, ltb, none, not, some, sym, true, ℕ, ◌&&◌, ◌++◌, ◌+◌, ◌-◌, ◌<◌, ◌==◌,
  ◌∙◌, ◌∷◌, ◌≡◌, ◌⊎◌,
}
use sih.Store.{Result, err, ok}
use sih.Store.Keys.{any-append_left}

-- 300 seconds.
abbrev pub max_drift : ℕ
max_drift = 300_000_000

-- 330 seconds.
abbrev pub replay_ttl : ℕ
replay_ttl = 330_000_000

-- What `float(timestamp)` gives, when it gives anything.
pub data Stamp : Type 0 where
  instant : ℕ → Stamp
  nan : Stamp

-- `_SEEN_SIGNATURES`: signatures with the instants at which they expire.
abbrev pub Seen : Type 0
Seen = List (ℕ × ℕ)

abbrev pub purge_expired : ℕ → Seen → Seen
purge_expired now seen = filter (λ e. ltb now e.1) seen

abbrev pub is_seen : ℕ → Seen → Bool
is_seen signature seen = any (λ e. e.0 == signature) seen

-- `abs(time.time() - ts_float) > 300`, which is false for NaN.
abbrev pub drifts : ℕ → Stamp → Bool
drifts now (instant t) = ltb max_drift ((now - t) + (t - now))
drifts now nan = false

pub record WebhookRequest : Type 0 where
  pub signature : Option ℕ
  pub timestamp : Option ℕ
  pub body : ℕ

module _ (hmac : ℕ → ℕ → ℕ) (read_stamp : ℕ → Option Stamp) where
  -- The replay cache, under its lock.
  unfoldable pub remember : ℕ → ℕ → Seen → Result (Unit {0}) × Seen
  remember now signature seen =
      let live = purge_expired now seen in
      if is_seen signature live
      then (err 403, live)
      else (ok tt, live ++ (signature, now + replay_ttl) ∷ [])

  -- `now` is the time of the drift check, `later` that of the replay check.
  unfoldable pub check_signed : ℕ → ℕ → ℕ → ℕ → ℕ → Seen → Result (Unit {0}) × Seen
  unfolding remember
  check_signed now later body signature timestamp seen = elim (read_stamp timestamp) [
    | none ↦ (err 403, seen)
    | some stamp ↦
        if drifts now stamp
        then (err 403, seen)
        else if not (hmac body timestamp == signature)
        then (err 403, seen)
        else remember later signature seen
  ]

  unfoldable pub verify : ℕ → ℕ → WebhookRequest → Seen → Result (Unit {0}) × Seen
  unfolding check_signed
  verify now later request seen = elim request.signature [
    | none ↦ (err 403, seen)
    | some signature ↦ elim request.timestamp [
      | none ↦ (err 403, seen)
      | some timestamp ↦ check_signed now later request.body signature timestamp seen
    ]
  ]

  -- Any requests up to an instant.
  pub data Requests (limit : ℕ) (from : Seen) : Seen → Type 0 where
    at_rest : Requests limit from from
    served :
        {seen : Seen}
        → Requests limit from seen
        → (now later : ℕ) (request : WebhookRequest) → later < limit
        → Requests limit from (verify now later request seen).1

  -- The signature is in the cache until the instant at least.
  abbrev pub Held : ℕ → ℕ → Seen → Type 0
  Held signature limit seen = any (λ e. e.0 == signature && leb limit e.1) seen ≡ true

  -- Refused with the cache as it was, or all checks but that of the cache have passed.
  abbrev Passes : ℕ → ℕ → WebhookRequest → Seen → Type 0
  Passes now later request seen =
      (signature : ℕ) × (timestamp : ℕ) × (stamp : Stamp) × (request.signature ≡ some signature)
      × (request.timestamp ≡ some timestamp)
      × (read_stamp timestamp ≡ some stamp)
      × (drifts now stamp ≡ false)
      × (signature ≡ hmac request.body timestamp)
      × (verify now later request seen ≡ remember later signature seen)

  verify_cases :
      (now later : ℕ) (request : WebhookRequest) (seen : Seen)
      → (verify now later request seen ≡ (err 403, seen)) ⊎ Passes now later request seen
  unfolding verify check_signed
  verify_cases now later request seen = elim (Option-cases request.signature) [
    | inl unsigned ↦ inl (ground (arith, unsigned))
    | inr (signature, signed) ↦ elim (Option-cases request.timestamp) [
      | inl untimed ↦ inl (ground (arith, signed, untimed))
      | inr (timestamp, timed) ↦ elim (Option-cases (read_stamp timestamp)) [
        | inl unread ↦ inl (ground (arith, signed, timed, unread))
        | inr (stamp, read) ↦ elim (Bool-cases (drifts now stamp)) [
          | inl late ↦ inl (ground (arith, signed, timed, read, late))
          | inr prompt ↦ elim (Bool-cases (hmac request.body timestamp == signature)) [
            | inr forged ↦ inl (ground (arith, signed, timed, read, prompt, forged))
            | inl genuine ↦ inr (
              signature,
              timestamp,
              stamp,
              signed,
              timed,
              read,
              prompt,
              sym ((==_iff (hmac request.body timestamp) signature).0 genuine),
              ground (arith, signed, timed, read, prompt, genuine),
            )
          ]
        ]
      ]
    ]
  ]

  purge-Held :
      (signature limit later : ℕ) (seen : Seen)
      → later < limit
      → Held signature limit seen
      → Held signature limit (purge_expired later seen)
  purge-Held signature limit later [] e h = h
  purge-Held signature limit later (x ∷ xs) e h =
      ground (arith, h, purge-Held signature limit later xs e)

  remember-Held :
      (signature limit later other : ℕ) (seen : Seen)
      → later < limit
      → Held signature limit seen
      → Held signature limit (remember later other seen).1
  unfolding remember
  remember-Held signature limit later other seen e h =
      let live = purge_expired later seen in
      let held = purge-Held signature limit later seen e h in
      elim (Bool-cases (is_seen other live)) [
        | inl again ↦ rw again held
        | inr fresh ↦
            rw fresh (any-append_left (λ x. x.0 == signature && leb limit x.1) live _ held)
      ]

  verify-Held :
      (signature limit now later : ℕ) (request : WebhookRequest) (seen : Seen)
      → later < limit
      → Held signature limit seen
      → Held signature limit (verify now later request seen).1
  verify-Held signature limit now later request seen e h =
      elim (verify_cases now later request seen) [
        | inl refused ↦ rw refused h
        | inr (other, _, _, _, _, _, _, _, goes) ↦
            rw goes (remember-Held signature limit later other seen e h)
      ]

  Requests-Held :
      (signature : ℕ) {limit : ℕ} {from seen : Seen}
      → Requests limit from seen
      → Held signature limit from
      → Held signature limit seen
  Requests-Held signature at_rest h = h
  Requests-Held signature {limit} (served {seen} path now later request e) h =
      verify-Held signature limit now later request seen e (Requests-Held signature path h)

  Held-seen :
      (signature limit : ℕ) (seen : Seen)
      → Held signature limit seen
      → is_seen signature seen ≡ true
  Held-seen signature limit [] h = cc
  Held-seen signature limit (x ∷ xs) h = ground (arith, Held-seen signature limit xs)

  remember-new :
      (later signature : ℕ) (seen : Seen)
      → (remember later signature seen).0 ≡ ok tt
      → Held signature (later + replay_ttl) (remember later signature seen).1
  unfolding remember
  remember-new later signature seen h =
      elim (Bool-cases (is_seen signature (purge_expired later seen))) [
        | inl again ↦ ground (arith, again)
        | inr fresh ↦ rw fresh (last_held (purge_expired later seen))
      ]
    where
      last_held :
          (l : Seen)
          → Held signature (later + replay_ttl) (l ++ (signature, later + replay_ttl) ∷ [])
      last_held [] = ground arith
      last_held (x ∷ xs) = ground (arith, last_held xs)

  remember-again :
      (later signature : ℕ) (seen : Seen)
      → is_seen signature (purge_expired later seen) ≡ true
      → (remember later signature seen).0 ≡ err 403
  unfolding remember
  remember-again later signature seen h = ground (arith, h)

  some_injective : {a b : ℕ} → some a ≡ some b → a ≡ b
  some_injective e = cc

  -- A request that is accepted carries the HMAC of its body and timestamp, and its timestamp is
  -- within five minutes of the clock, when it is a number.
  pub verify-genuine :
      (now later : ℕ) (request : WebhookRequest) (seen : Seen)
      → (verify now later request seen).0 ≡ ok tt
      → Passes now later request seen
  verify-genuine now later request seen h = elim (verify_cases now later request seen) [
    | inl refused ↦ let clash = ap (λ r. r.0) refused in cc
    | inr passes ↦ passes
  ]

  -- For 330 seconds after a request has been accepted, every request with its signature is refused,
  -- whatever requests come in between, while the clock stays below that limit.
  pub verify-no_replay :
      (now later : ℕ) (request : WebhookRequest) (seen : Seen) {seen' : Seen}
      → (verify now later request seen).0 ≡ ok tt
      → Requests (later + replay_ttl) (verify now later request seen).1 seen'
      → (now' later' : ℕ) (again : WebhookRequest) → again.signature ≡ request.signature
      → later' < later + replay_ttl
      → (verify now' later' again seen').0 ≡ err 403
  verify-no_replay now later request seen {seen'} taken path now' later' again same e =
      let (signature, _, _, signed, _, _, _, _, goes) =
        verify-genuine now later request seen taken in
      let limit = later + replay_ttl in
      let new : Held signature limit (verify now later request seen).1 =
        rw goes (remember-new later signature seen (rw goes at taken)) in
      let held = Requests-Held signature path new in
      let live = Held-seen signature limit _ (purge-Held signature limit later' seen' e held) in
      elim (verify_cases now' later' again seen') [
        | inl refused ↦ ap (λ r. r.0) refused
        | inr (other, _, _, signed', _, _, _, _, goes') ↦
            let one : other ≡ signature = some_injective (sym signed' ∙ same ∙ signed) in
            rw (goes', one) (remember-again later' signature seen' live)
      ]
