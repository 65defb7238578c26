-- ===== src/Prelude/Sort/Stable.antt =====
-- Two stable sorts in a row sort by the second test, and where it does not decide by the first.
use sih.Prelude.{
  All, Bool, Bool-cases, List, [], arith, false, inl, inr, not, true, ◌&&◌, ◌||◌, ◌∷◌, ◌≡◌,
}
use sih.Prelude.Sort.{IsSorted, insert_by, insert_by-All, sort_by, sort_by-All}

module _ {ℓ} {A : Type ℓ} where
  pub insert_by-All-back {κ} :
      (ahead : A → A → Bool) (P : A → Type κ) (x : A) (l : List A)
      → All P (insert_by ahead x l)
      → P x × All P l
  unfolding insert_by
  insert_by-All-back ahead P x [] h = h
  insert_by-All-back ahead P x (y ∷ ys) h = elim (Bool-cases (ahead x y)) [
    | inl t ↦ let h' : All P (x ∷ y ∷ ys) = rw t at h in h'
    | inr f ↦
        let h' : All P (y ∷ insert_by ahead x ys) = rw f at h in
        let (here_x, others) = insert_by-All-back ahead P x ys h'.1 in (here_x, (h'.0, others))
  ]

  -- What holds of all that is sorted holds of all that was to be sorted.
  pub sort_by-All-back {κ} :
      (ahead : A → A → Bool) (P : A → Type κ) (l : List A) → All P (sort_by ahead l) → All P l
  unfolding sort_by
  sort_by-All-back ahead P [] h = tt
  sort_by-All-back ahead P (x ∷ xs) h =
      let (here_x, others) = insert_by-All-back ahead P x (sort_by ahead xs) h in
      (here_x, sort_by-All-back ahead P xs others)

-- `second` counts first, and `first` among those that it does not tell apart.
abbrev pub lex {ℓ} : {A : Type ℓ} → (A → A → Bool) → (A → A → Bool) → A → A → Bool
lex first second x y = second x y && (not (second y x) || first x y)

module _ {ℓ} {A : Type ℓ} (first second : A → A → Bool)
    (total : (a b : A) → second a b ≡ false → second b a ≡ true)
    (trans : (a b c : A) → second a b ≡ true → second b c ≡ true → second a c ≡ true) where
  lex-second : (x y : A) → lex first second x y ≡ true → second x y ≡ true
  lex-second x y h = ground (arith, h)

  lex-both : (x y : A) → second x y ≡ true → first x y ≡ true → lex first second x y ≡ true
  lex-both x y h k = ground (arith, h, k)

  lex-ahead : (x y : A) → second x y ≡ false → lex first second y x ≡ true
  lex-ahead x y f = let t = total x y f in ground (arith, t, f)

  All-lex :
      (x y : A) (l : List A)
      → second x y ≡ true
      → All (λ z. lex first second y z ≡ true) l
      → All (λ z. first x z ≡ true) l
      → All (λ z. lex first second x z ≡ true) l
  All-lex x y [] t h k = tt
  All-lex x y (z ∷ zs) t h k =
      (lex-both x z (trans x y z t (lex-second y z h.0)) k.0, All-lex x y zs t h.1 k.1)

  insert_by-lex :
      (x : A) (l : List A)
      → All (λ z. first x z ≡ true) l
      → IsSorted (lex first second) l
      → IsSorted (lex first second) (insert_by second x l)
  unfolding insert_by
  insert_by-lex x [] k h = (tt, tt)
  insert_by-lex x (y ∷ ys) k h = elim (Bool-cases (second x y)) [
    | inl t ↦ rw t ((lex-both x y t k.0, All-lex x y ys t h.0 k.1), h)
    | inr f ↦ rw f (
      insert_by-All second (λ z. lex first second y z ≡ true) x ys (lex-ahead x y f) h.0,
      insert_by-lex x ys k.1 h.1,
    )
  ]

  -- A stable sort of what is sorted by the first test.
  pub sort_by-lex : (l : List A) → IsSorted first l → IsSorted (lex first second) (sort_by second l)
  unfolding sort_by
  sort_by-lex [] h = tt
  sort_by-lex (x ∷ xs) h =
      insert_by-lex x (sort_by second xs) (sort_by-All second (λ z. first x z ≡ true) xs h.0)
        (sort_by-lex xs h.1)
