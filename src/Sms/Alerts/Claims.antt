-- ===== src/Sms/Alerts/Claims.antt =====
-- Claims: no alert is sent twice, and an alert that is not sent is left as it was.
use sih.Prelude.{
  All, Bool, Bool-cases, List, [], ap, arith, false, filter, inl, inr, map, refl, some, sym, true,
  ℕ, ◌++◌, ◌+◌, ◌==◌, ◌∙◌, ◌∷◌, ◌≡◌, ◌≤◌, ◌⊎◌,
}
use sih.Store.{Result, ok}
use sih.Store.Keys.{List-cases, UniqueBy, first_passes, only_key, update_where-none}
use sih.Store.Laws.{TableLaws, update_where}
use sih.Sms.Alerts.{Alert, AlertDb, GatewayCall, LogRow, claim, claim_new, claim_old, claimed}

pub record AlertTables : Type 0 where
  pub alerts : List Alert
  pub log : List LogRow
  pub calls : List GatewayCall

pub record AlertLaws {Db : Type 0} (c : AlertDb Db) : Type 0 where
  pub view : Db → AlertTables
  pub alerts : TableLaws view (λ s. s.alerts) (λ l s. record s { alerts = l }) c.alerts
  pub log : TableLaws view (λ s. s.log) (λ l s. record s { log = l }) c.log
  -- A call of the gateway changes no table.
  pub notes :
      (g : GatewayCall) (d : Db)
      → view (c.call g d) ≡ record (view d) { calls = (view d).calls ++ g ∷ [] }

-- The alert with the id is claimed at the instant.
abbrev pub IsClaimed : ℕ → ℕ → List Alert → Type 0
IsClaimed i now l = All (λ r. (r.id == i) ≡ true → r.last_notified_at ≡ some now) l

claimed-IsClaimed :
    (i now n : ℕ) (p : Alert → Bool) (cur : Alert) (l : List Alert)
    → p cur ≡ true
    → All (λ r. (r.id == i) ≡ true → r ≡ cur) l
    → IsClaimed i now (update_where p (claimed now n) l)
claimed-IsClaimed i now n p cur [] h only = tt
claimed-IsClaimed i now n p cur (x ∷ xs) h only = (
  elim (Bool-cases (p x)) [
    | inl t ↦ rw t (λ _. refl)
    | inr f ↦ rw f (λ e. absurd (clash (only.0 e) f))
  ],
  claimed-IsClaimed i now n p cur xs h only.1,
)
  where
    clash : x ≡ cur → p x ≡ false → ⊥
    clash a b = cc

no_claim_old :
    (i now cutoff : ℕ) (l : List Alert)
    → cutoff ≤ now
    → IsClaimed i now l
    → filter (claim_old i cutoff) l ≡ []
no_claim_old i now cutoff [] h k = refl
no_claim_old i now cutoff (x ∷ xs) h k = elim (Bool-cases (x.id == i)) [
  | inr f ↦ ground (arith, f, no_claim_old i now cutoff xs h k.1)
  | inl t ↦ let e = k.0 t in ground (arith, t, e, h, no_claim_old i now cutoff xs h k.1)
]

no_claim_new : (i now : ℕ) (l : List Alert) → IsClaimed i now l → filter (claim_new i) l ≡ []
no_claim_new i now [] k = refl
no_claim_new i now (x ∷ xs) k = elim (Bool-cases (x.id == i)) [
  | inr f ↦ ground (arith, f, no_claim_new i now xs k.1)
  | inl t ↦ let e = k.0 t in ground (arith, t, e, no_claim_new i now xs k.1)
]

module _ {Db : Type 0} (c : AlertDb Db) (laws : AlertLaws c) where
  abbrev pub alerts_in : Db → List Alert
  alerts_in d = (laws.view d).alerts

  abbrev set_old : ℕ → Alert → ℕ → Db → List Alert × Db
  set_old now a cutoff d =
      c.alerts.update (claim_old a.id cutoff) (claimed now (a.notified_count + 1)) d

  abbrev set_new : ℕ → Alert → Db → List Alert × Db
  set_new now a d = c.alerts.update (claim_new a.id) (claimed now (a.notified_count + 1)) d

  -- Without a row to claim nothing changes.
  claim-lost :
      (now : ℕ) (a : Alert) (cutoff : ℕ) (d : Db)
      → filter (claim_old a.id cutoff) (alerts_in d) ≡ []
      → filter (claim_new a.id) (alerts_in d) ≡ []
      → ((claim c now a cutoff d).0 ≡ ok false)
        × (alerts_in (claim c now a cutoff d).1 ≡ alerts_in d)
  unfolding claim
  claim-lost now a cutoff d none_old none_new =
      let f = claimed now (a.notified_count + 1) in
      let d1 = (set_old now a cutoff d).1 in
      let d2 = (set_new now a d1).1 in
      let wrote : (set_old now a cutoff d).0
          ≡ map f (filter (claim_old a.id cutoff) (alerts_in d)) =
        laws.alerts.returns (claim_old a.id cutoff) f d in
      let same : alerts_in d1 ≡ alerts_in d =
        ap (λ s. s.alerts) (laws.alerts.updates (claim_old a.id cutoff) f d)
        ∙ update_where-none (claim_old a.id cutoff) f (alerts_in d) none_old in
      let wrote2 : (set_new now a d1).0 ≡ map f (filter (claim_new a.id) (alerts_in d1)) =
        laws.alerts.returns (claim_new a.id) f d1 in
      let set2 : alerts_in d2 ≡ update_where (claim_new a.id) f (alerts_in d1) =
        ap (λ s. s.alerts) (laws.alerts.updates (claim_new a.id) f d1) in
      (
        ground (arith, wrote, none_old, wrote2, same, none_new),
        ground (
          arith,
          wrote,
          none_old,
          wrote2,
          same,
          none_new,
          set2,
          update_where-none (claim_new a.id) f (alerts_in d) none_new,
        ),
      )

  -- Which update claims, and what it leaves: one of them, or none and the alerts as they were.
  abbrev pub Claims : ℕ → Alert → ℕ → Db → Result Bool × Db → Type 0
  Claims now a cutoff d r =
      (p : Alert → Bool) × (cur : Alert) × (rest : List Alert) × ((x : Alert)
        → p x ≡ true
        → x.id ≡ a.id)
      × (filter p (alerts_in d) ≡ cur ∷ rest)
      × (r.0 ≡ ok true)
      × (alerts_in r.1 ≡ update_where p (claimed now (a.notified_count + 1)) (alerts_in d))

  pub claim_cases :
      (now : ℕ) (a : Alert) (cutoff : ℕ) (d : Db)
      → ((claim c now a cutoff d).0 ≡ ok false)
          × (alerts_in (claim c now a cutoff d).1 ≡ alerts_in d)
        ⊎ Claims now a cutoff d (claim c now a cutoff d)
  unfolding claim
  claim_cases now a cutoff d =
      let f = claimed now (a.notified_count + 1) in
      let d1 = (set_old now a cutoff d).1 in
      let wrote : (set_old now a cutoff d).0
          ≡ map f (filter (claim_old a.id cutoff) (alerts_in d)) =
        laws.alerts.returns (claim_old a.id cutoff) f d in
      let set : alerts_in d1 ≡ update_where (claim_old a.id cutoff) f (alerts_in d) =
        ap (λ s. s.alerts) (laws.alerts.updates (claim_old a.id cutoff) f d) in
      elim (List-cases (filter (claim_old a.id cutoff) (alerts_in d))) [
        | inr (cur, rest, found) ↦ inr (
          claim_old a.id cutoff,
          cur,
          rest,
          (λ x t. ground (arith, t)),
          found,
          ground (arith, wrote, found),
          ground (arith, wrote, found, set),
        )
        | inl none_old ↦
            let same : alerts_in d1 ≡ alerts_in d =
              set ∙ update_where-none (claim_old a.id cutoff) f (alerts_in d) none_old in
            let d2 = (set_new now a d1).1 in
            let wrote2 : (set_new now a d1).0 ≡ map f (filter (claim_new a.id) (alerts_in d1)) =
              laws.alerts.returns (claim_new a.id) f d1 in
            let set2 : alerts_in d2 ≡ update_where (claim_new a.id) f (alerts_in d1) =
              ap (λ s. s.alerts) (laws.alerts.updates (claim_new a.id) f d1) in
            elim (List-cases (filter (claim_new a.id) (alerts_in d))) [
              | inr (cur, rest, found) ↦ inr (
                claim_new a.id,
                cur,
                rest,
                (λ x t. ground (arith, t)),
                found,
                ground (arith, wrote, none_old, wrote2, same, found),
                ground (arith, wrote, none_old, wrote2, same, found, set2),
              )
              | inl none_new ↦ inl (claim-lost now a cutoff d none_old none_new)
            ]
      ]

  -- Once an alert is claimed, no other run claims it within its cooldown, whatever snapshot of the
  -- alert it works with, and its attempt changes no alert: for unique ids of alerts.
  pub claim-exclusive :
      (now cutoff : ℕ) (a : Alert) (d : Db)
      → UniqueBy (λ r. r.id) (alerts_in d)
      → (claim c now a cutoff d).0 ≡ ok true
      → (now' cutoff' : ℕ) (b : Alert) → b.id ≡ a.id
      → cutoff' ≤ now
      → let d1 = (claim c now a cutoff d).1 in
        ((claim c now' b cutoff' d1).0 ≡ ok false)
        × (alerts_in (claim c now' b cutoff' d1).1 ≡ alerts_in d1)
  claim-exclusive now cutoff a d unique won now' cutoff' b same early =
      elim (claim_cases now a cutoff d) [
        | inl (lost, _) ↦ let clash = sym lost ∙ won in cc
        | inr (p, cur, rest, picks, found, _, set) ↦
            let d1 = (claim c now a cutoff d).1 in
            let only = only_key (λ r. r.id) a.id p picks (alerts_in d) cur rest unique found in
            let taken : IsClaimed b.id now (alerts_in d1) =
              rw (set, same)
                (claimed-IsClaimed a.id now (a.notified_count + 1) p cur (alerts_in d)
                  (first_passes p (alerts_in d) cur rest found) only) in
            claim-lost now' b cutoff' d1 (no_claim_old b.id now cutoff' (alerts_in d1) early taken)
              (no_claim_new b.id now (alerts_in d1) taken)
      ]
