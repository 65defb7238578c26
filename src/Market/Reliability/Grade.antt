-- ===== src/Market/Reliability/Grade.antt =====
-- How the grade depends on the history.
use sih.Prelude.{Bool, Option, arith, false, leb, none, some, ℕ, ◌*◌, ◌+◌, ◌<◌, ◌==◌, ◌↔◌, ◌≡◌, ◌≤◌}
use sih.Prelude.Int.{+ℤ_parts, -ℤ_parts, leb_ℤ, neg_part, pos, pos_part, ◌+ℤ◌, ◌-ℤ◌}
use sih.Store.{Reliability, high, low, medium}
use sih.Market.Reliability.{History, score, score_payment_reliability}

abbrev pub no_evidence : History → Bool
no_evidence h = h.paid + h.failed + h.disputed + h.grief == 0

-- The score, its negative parts on the other side.
abbrev lost : History → ℕ
lost h = 20 * h.failed + 30 * h.disputed + 15 * h.grief

score_parts : (h : History) → pos_part (score h) + lost h ≡ neg_part (score h) + 50 + 15 * h.paid
unfolding score
score_parts h =
    let a = pos 50 +ℤ pos (15 * h.paid) in
    let b = a -ℤ pos (20 * h.failed) in
    let e = b -ℤ pos (30 * h.disputed) in
    omega (
      arith,
      +ℤ_parts (pos 50) (pos (15 * h.paid)),
      -ℤ_parts a (pos (20 * h.failed)),
      -ℤ_parts b (pos (30 * h.disputed)),
      -ℤ_parts e (pos (15 * h.grief)),
    )

reaches : (k : ℕ) (h : History) → leb_ℤ (pos k) (score h) ≡ leb (k + lost h) (50 + 15 * h.paid)
reaches k h = ground (arith, score_parts h)

-- high above medium above low.
abbrev pub rank : Option Reliability → ℕ
rank none = 0
rank (some low) = 1
rank (some medium) = 2
rank (some high) = 3

-- A buyer is graded exactly when there is evidence: high from a score of 70 on, medium from 40 on,
-- low below.
pub score_payment_reliability_iff :
    (h : History)
    → ((score_payment_reliability h ≡ none) ↔ (h.paid + h.failed + h.disputed + h.grief ≡ 0))
      × ((score_payment_reliability h ≡ some high)
          ↔ (20 + 20 * h.failed + 30 * h.disputed + 15 * h.grief ≤ 15 * h.paid))
      × ((score_payment_reliability h ≡ some low)
          ↔ (10 + 15 * h.paid < 20 * h.failed + 30 * h.disputed + 15 * h.grief))
unfolding score_payment_reliability
score_payment_reliability_iff h = ground (arith, reaches 70 h, reaches 40 h)

-- A better history never lowers the grade: more payments made and no more failures, disputes and
-- open grievances, when there is evidence before and after.
pub score_payment_reliability_mono :
    (h k : History)
    → h.paid ≤ k.paid
    → k.failed ≤ h.failed
    → k.disputed ≤ h.disputed
    → k.grief ≤ h.grief
    → no_evidence k ≡ false
    → rank (score_payment_reliability h) ≤ rank (score_payment_reliability k)
unfolding score_payment_reliability
score_payment_reliability_mono h k p f d g e =
    ground (arith, reaches 70 h, reaches 40 h, reaches 70 k, reaches 40 k)
