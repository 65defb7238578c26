-- ===== src/Sms/Outbound.antt =====
-- app/routers/sms.py: the cap on the messages to one sender. Instants are in microseconds.
use mathlib.Core.Path.{subst}
use sih.Prelude.{
  ==_iff, Bool, Bool-cases, List, [], ap, arith, false, filter, filter-append, if◌then◌else◌, inl,
  inr, leb, length, length-append, ltb, refl, sym, true, ℕ, ◌++◌, ◌+◌, ◌<◌, ◌==◌, ◌↔◌, ◌∙◌, ◌∷◌,
  ◌≡◌, ◌≤◌,
}

abbrev pub outbound_max : ℕ
outbound_max = 5

-- 3600 seconds.
abbrev pub outbound_window : ℕ
outbound_window = 3_600_000_000

-- `_OUTBOUND`: the instants kept for each sender.
abbrev pub Times : Type 0
Times = ℕ → List ℕ

abbrev pub put : ℕ → List ℕ → Times → Times
put k l m j = if j == k then l else m j

-- `now - t < _OUTBOUND_WINDOW_SEC`
abbrev pub recent : ℕ → ℕ → Bool
recent now t = ltb now (t + outbound_window)

unfoldable pub allow_outbound : ℕ → ℕ → Times → Bool × Times
allow_outbound now sender m =
    let times = filter (recent now) (m sender) in
    if leb outbound_max (length times)
    then (false, put sender times m)
    else (true, put sender (times ++ now ∷ []) m)

-- All calls that were allowed, as a reader of the log sees them.
abbrev pub note : ℕ → ℕ → Bool → Times → Times
note now sender allowed log = if allowed then put sender (log sender ++ now ∷ []) log else log

-- The states that calls lead to while the clock does not run backwards: the instants kept, all calls
-- allowed so far, and the time of the last call.
pub data Calls : Times → Times → ℕ → Type 0 where
  start : Calls (λ s. []) (λ s. []) 0
  call :
      {m log : Times} {last : ℕ}
      → Calls m log last
      → (now sender : ℕ) → last ≤ now
      → Calls
          (allow_outbound now sender m).1
          (note now sender (allow_outbound now sender m).0 log)
          now

filter-recent :
    (now t : ℕ) (l : List ℕ)
    → t ≤ now
    → filter (recent now) (filter (recent t) l) ≡ filter (recent now) l
filter-recent now t [] h = refl
filter-recent now t (x ∷ xs) h = ground (arith, filter-recent now t xs h)

-- The instants kept are the calls allowed, but for those too old to count.
Agrees : Times → Times → ℕ → Type 0
Agrees m log last =
    (now sender : ℕ)
    → last ≤ now
    → filter (recent now) (m sender) ≡ filter (recent now) (log sender)

call-Agrees :
    (m log : Times) (last at caller : ℕ)
    → last ≤ at
    → Agrees m log last
    → let (allowed, m') = allow_outbound at caller m in Agrees m' (note at caller allowed log) at
unfolding Agrees allow_outbound
call-Agrees m log last at caller later h now sender k =
    let times = filter (recent at) (m caller) in
    let before : last ≤ now = omega arith in
    let kept_times : filter (recent now) times ≡ filter (recent now) (log caller) =
      filter-recent now at (m caller) k ∙ h now caller before in
    let longer = filter-append (recent now) times (at ∷ []) in
    let longer_log = filter-append (recent now) (log caller) (at ∷ []) in
    elim (Bool-cases (leb outbound_max (length times))) [
      | inl full ↦ elim (Bool-cases (sender == caller)) [
        | inl t ↦
            rw (full, t)
              (kept_times
                ∙ ap (λ s. filter (recent now) (log s)) (sym ((==_iff sender caller).0 t)))
        | inr f ↦ rw (full, f) (h now sender before)
      ]
      | inr room ↦ elim (Bool-cases (sender == caller)) [
        | inl t ↦
            rw (room, t)
              (longer ∙ ap (λ l. l ++ filter (recent now) (at ∷ [])) kept_times ∙ sym longer_log)
        | inr f ↦ rw (room, f) (h now sender before)
      ]
    ]

Calls-Agrees : {m log : Times} {last : ℕ} → Calls m log last → Agrees m log last
unfolding Agrees
Calls-Agrees start now sender h = refl
Calls-Agrees (call {m} {log} {last} path at caller later) now sender h =
    call-Agrees m log last at caller later (Calls-Agrees path) now sender h

allowed_iff :
    (now sender : ℕ) (m : Times)
    → ((allow_outbound now sender m).0 ≡ true)
      ↔ (length (filter (recent now) (m sender)) < outbound_max)
unfolding allow_outbound
allowed_iff now sender m = ground arith

-- A message to a sender is allowed exactly when fewer than five were allowed to that sender in the
-- hour before, after any calls for any senders, while the clock does not run backwards.
pub allow_outbound_iff :
    {m log : Times} {last : ℕ} (now sender : ℕ)
    → Calls m log last
    → last ≤ now
    → ((allow_outbound now sender m).0 ≡ true)
      ↔ (length (filter (recent now) (log sender)) < outbound_max)
unfolding Agrees
allow_outbound_iff {m} {log} now sender path later =
    subst (λ l. ((allow_outbound now sender m).0 ≡ true) ↔ (length l < outbound_max))
      (Calls-Agrees path now sender later) (allowed_iff now sender m)

length-filter_le : (p : ℕ → Bool) (l : List ℕ) → length (filter p l) ≤ length l
length-filter_le p [] = omega arith
length-filter_le p (x ∷ xs) = ground (arith, length-filter_le p xs)

-- No more than five instants are kept for a sender.
call-bounds :
    (m : Times) (now caller sender : ℕ)
    → length (m caller) ≤ outbound_max
    → length (m sender) ≤ outbound_max
    → length ((allow_outbound now caller m).1 sender) ≤ outbound_max
unfolding allow_outbound
call-bounds m now caller sender h k =
    let times = filter (recent now) (m caller) in
    let shorter = length-filter_le (recent now) (m caller) in
    let longer = length-append times (now ∷ []) in
    elim (Bool-cases (leb outbound_max (length times))) [
      | inl full ↦ elim (Bool-cases (sender == caller)) [
        | inl t ↦ rw (full, t) (omega (arith, shorter, h))
        | inr f ↦ rw (full, f) k
      ]
      | inr room ↦ elim (Bool-cases (sender == caller)) [
        | inl t ↦ rw (room, t) (ground (arith, longer, room))
        | inr f ↦ rw (room, f) k
      ]
    ]

Calls-bounds :
    {m log : Times} {last : ℕ} (sender : ℕ) → Calls m log last → length (m sender) ≤ outbound_max
Calls-bounds sender start = omega arith
Calls-bounds sender (call {m} path at caller later) =
    call-bounds m at caller sender (Calls-bounds caller path) (Calls-bounds sender path)

pub Calls-recent :
    {m log : Times} {last : ℕ} (now sender : ℕ)
    → Calls m log last
    → last ≤ now
    → length (filter (recent now) (log sender)) ≤ outbound_max
unfolding Agrees
Calls-recent {m} {log} now sender path later =
    subst (λ l. length l ≤ outbound_max) (Calls-Agrees path now sender later)
      (omega (arith, length-filter_le (recent now) (m sender), Calls-bounds sender path))
