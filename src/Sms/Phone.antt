-- ===== src/Sms/Phone.antt =====
-- notifications/alert_checker.py: `normalize_phone`. Texts are lists of character codes, and
-- `str.isdigit` is a parameter, since it accepts the digits of every script.
use sih.Prelude.{
  All, All-filter, Bool, Bool-cases, List, Option, [], arith, false, filter, if◌then◌else◌, inl,
  inr, length, none, not, refl, some, true, ℕ, ◌&&◌, ◌==◌, ◌∷◌, ◌≡◌,
}

abbrev starts_with_0 : List ℕ → Bool
starts_with_0 [] = false
starts_with_0 (c ∷ cs) = c == 48

abbrev starts_with_91 : List ℕ → Bool
starts_with_91 (c ∷ d ∷ cs) = c == 57 && d == 49
starts_with_91 _ = false

abbrev rest_of : List ℕ → List ℕ
rest_of [] = []
rest_of (c ∷ cs) = cs

-- "+91" in front.
abbrev pub with_prefix : List ℕ → List ℕ
with_prefix ds = 43 ∷ 57 ∷ 49 ∷ ds

unfoldable pub normalize_digits : List ℕ → Option (List ℕ)
normalize_digits ds =
    if length ds == 10 && not (starts_with_0 ds)
    then some (with_prefix ds)
    else if length ds == 11 && starts_with_0 ds
    then some (with_prefix (rest_of ds))
    else if length ds == 12 && starts_with_91 ds
    then some (43 ∷ ds)
    else none

filter-All : (p : ℕ → Bool) (l : List ℕ) → All (λ c. p c ≡ true) l → filter p l ≡ l
filter-All p [] h = refl
filter-All p (c ∷ cs) h = ground (arith, h.0, filter-All p cs h.1)

module _ (is_digit : ℕ → Bool) where
  unfoldable pub normalize_phone : Option (List ℕ) → Option (List ℕ)
  unfolding normalize_digits
  normalize_phone none = none
  normalize_phone (some s) = normalize_digits (filter is_digit s)

  -- Ten digits behind "+91".
  abbrev pub IsNumber : List ℕ → Type 0
  IsNumber n =
      (ds : List ℕ) × (n ≡ with_prefix ds) × (length ds ≡ 10) × All (λ c. is_digit c ≡ true) ds

  national :
      (ds n : List ℕ)
      → All (λ c. is_digit c ≡ true) ds
      → (length ds == 12) ≡ true
      → starts_with_91 ds ≡ true
      → n ≡ 43 ∷ ds
      → IsNumber n
  national [] n all_digits l s e = cc
  national (c ∷ []) n all_digits l s e = cc
  national (c ∷ d ∷ ds) n all_digits l s e =
      (ds, ground (arith, l, s, e), ground (arith, l), all_digits.1.1)

  trunk :
      (ds n : List ℕ)
      → All (λ c. is_digit c ≡ true) ds
      → (length ds == 11) ≡ true
      → n ≡ with_prefix (rest_of ds)
      → IsNumber n
  trunk [] n all_digits l e = absurd (ground (arith, l))
  trunk (c ∷ ds) n all_digits l e = (ds, e, ground (arith, l), all_digits.1)

  normalize_digits-IsNumber :
      (ds n : List ℕ) → All (λ c. is_digit c ≡ true) ds → normalize_digits ds ≡ some n → IsNumber n
  unfolding normalize_digits
  normalize_digits-IsNumber ds n all_digits h =
      elim (Bool-cases (length ds == 10 && not (starts_with_0 ds))) [
        | inl ten ↦ (ds, ground (arith, ten), ground (arith, ten), all_digits)
        | inr other ↦ elim (Bool-cases (length ds == 11 && starts_with_0 ds)) [
          | inl eleven ↦
              trunk ds n all_digits (ground (arith, eleven)) (ground (arith, other, eleven))
          | inr neither ↦ elim (Bool-cases (length ds == 12 && starts_with_91 ds)) [
            | inl twelve ↦
                national ds n all_digits (ground (arith, twelve)) (ground (arith, twelve))
                  (ground (arith, other, neither, twelve))
            | inr wrong ↦ ground (arith, other, neither, wrong)
          ]
        ]
      ]

  -- A number that is answered is "+91" with ten digits behind it, and it is its own normal form,
  -- when "9" and "1" are digits and "+" is none.
  pub normalize_phone_lem :
      (p : Option (List ℕ)) (n : List ℕ)
      → is_digit 43 ≡ false
      → is_digit 57 ≡ true
      → is_digit 49 ≡ true
      → normalize_phone p ≡ some n
      → IsNumber n × (normalize_phone (some n) ≡ some n)
  unfolding normalize_phone normalize_digits
  normalize_phone_lem none n plus nine one h = cc
  normalize_phone_lem (some s) n plus nine one h =
      let (ds, shape, ten, all_digits) =
        normalize_digits-IsNumber (filter is_digit s) n (All-filter is_digit s) h in
      let kept_digits = filter-All is_digit ds all_digits in
      ((ds, shape, ten, all_digits), ground (arith, shape, plus, nine, one, kept_digits, ten))
