-- ===== src/Store/Keys.antt =====
-- Tables with a primary key, and what updates do to their rows.
use sih.Prelude.{
  ==_iff, All, All-append, All-map, Bool, Bool-cases, List, [], any, arith, false, filter,
  if◌then◌else◌, inl, inr, map, refl, sym, true, ℕ, ◌++◌, ◌==◌, ◌||◌, ◌∙◌, ◌∷◌, ◌≡◌, ◌≢◌, ◌⊎◌,
}
use sih.Store.Laws.{update_where}

-- No two rows have the same key.
abbrev pub UniqueBy : {Row : Type 0} → (Row → ℕ) → List Row → Type 0
UniqueBy key [] = Unit
UniqueBy key (x ∷ xs) = All (λ y. key x ≢ key y) xs × UniqueBy key xs

-- A query by key selects one row at most.
module _ {Row : Type 0} (key : Row → ℕ) (k : ℕ) (p : Row → Bool)
    (picks : (r : Row) → p r ≡ true → key r ≡ k) where
  no_match :
      (x : Row) (xs : List Row)
      → key x ≡ k
      → All (λ y. key x ≢ key y) xs
      → (cur : Row) → All (λ r. p r ≡ true → r ≡ cur) xs
  no_match x [] e h cur = tt
  no_match x (y ∷ ys) e h cur = (λ t. absurd (h.0 (cc (picks y t))), no_match x ys e h.1 cur)

  pub only_match :
      (l : List Row) (cur : Row) (rest : List Row)
      → UniqueBy key l
      → filter p l ≡ cur ∷ rest
      → All (λ r. p r ≡ true → r ≡ cur) l
  only_match [] cur rest u e = tt
  only_match (x ∷ xs) cur rest u e = elim (Bool-cases (p x)) [
    | inl t ↦
        let e' : x ∷ filter p xs ≡ cur ∷ rest = rw t at e in
        (λ _. cc, no_match x xs (picks x t) u.0 cur)
    | inr f ↦
        let e' : filter p xs ≡ cur ∷ rest = rw f at e in ((λ t. cc), only_match xs cur rest u.1 e')
  ]

module _ {Row : Type 0} (p : Row → Bool) (f : Row → Row) where
  -- An update that matches no row changes nothing.
  pub update_where-none : (l : List Row) → filter p l ≡ [] → update_where p f l ≡ l
  update_where-none [] e = refl
  update_where-none (x ∷ xs) e = ground (arith, update_where-none xs)

  -- Keys are kept by an update that keeps them row by row.
  pub UniqueBy-update_where :
      (key : Row → ℕ)
      → ((r : Row) → key (f r) ≡ key r)
      → (l : List Row) → UniqueBy key l
      → UniqueBy key (update_where p f l)
  UniqueBy-update_where key keeps [] u = tt
  UniqueBy-update_where key keeps (x ∷ xs) u =
      (fresh x xs u.0, UniqueBy-update_where key keeps xs u.1)
    where
      fresh :
          (x : Row) (xs : List Row)
          → All (λ y. key x ≢ key y) xs
          → All (λ y. key (if p x then f x else x) ≢ key y) (update_where p f xs)
      fresh x [] h = tt
      fresh x (y ∷ ys) h = (ground (arith, keeps x, keeps y, h.0), fresh x ys h.1)

pub map-nil : {A B : Type 0} (f : A → B) (l : List A) → map f l ≡ [] → l ≡ []
map-nil f [] e = refl
map-nil f (x ∷ xs) e = cc

pub List-cases : {A : Type 0} (l : List A) → (l ≡ []) ⊎ ((x : A) × (xs : List A) × (l ≡ x ∷ xs))
List-cases [] = inl refl
List-cases (x ∷ xs) = inr (x, xs, refl)

pub map-eq-cons :
    {A B : Type 0} (f : A → B) (l : List A) (y : B) (ys : List B)
    → map f l ≡ y ∷ ys
    → (x : A) × (xs : List A) × (l ≡ x ∷ xs) × (y ≡ f x)
map-eq-cons f [] y ys e = cc
map-eq-cons f (x ∷ xs) y ys e = (x, xs, refl, cc)

-- A row appended under a key that no row has.
pub UniqueBy-snoc :
    {Row : Type 0} (key : Row → ℕ) (l : List Row) (r : Row)
    → All (λ x. key x ≢ key r) l
    → UniqueBy key l
    → UniqueBy key (l ++ r ∷ [])
UniqueBy-snoc key [] r h u = (tt, tt)
UniqueBy-snoc key (x ∷ xs) r h u =
    (All-append (λ y. key x ≢ key y) xs (r ∷ []) u.0 (h.0, tt), UniqueBy-snoc key xs r h.1 u.1)

-- A row that a test finds is still found when the update keeps it passing.
pub any-update_where :
    {Row : Type 0} (q p : Row → Bool) (f : Row → Row) (l : List Row)
    → All (λ r. q r ≡ true → p r ≡ true → q (f r) ≡ true) l
    → any q l ≡ true
    → any q (update_where p f l) ≡ true
any-update_where q p f [] keep h = h
any-update_where q p f (x ∷ xs) keep h = ground (arith, keep.0, any-update_where q p f xs keep.1)

pub any-append_left :
    {A : Type 0} (q : A → Bool) (xs ys : List A) → any q xs ≡ true → any q (xs ++ ys) ≡ true
any-append_left q [] ys h = cc
any-append_left q (x ∷ xs) ys h = ground (arith, any-append_left q xs ys)

-- What holds of every row holds of the first one that a filter keeps.
pub All-filter_head :
    {Row : Type 0} (P : Row → Type 0) (p : Row → Bool) (l : List Row) (cur : Row) (rest : List Row)
    → filter p l ≡ cur ∷ rest
    → All P l
    → P cur × (p cur ≡ true)
All-filter_head P p [] cur rest e h = cc
All-filter_head P p (x ∷ xs) cur rest e h = elim (Bool-cases (p x)) [
  | inl t ↦
      let e' : x ∷ filter p xs ≡ cur ∷ rest = rw t at e in
      let same : x ≡ cur = cc in (rw same at h.0, rw same at t)
  | inr f ↦ let e' : filter p xs ≡ cur ∷ rest = rw f at e in All-filter_head P p xs cur rest e' h.1
]

-- The row that a query by key selects is the only one with its key.
pub only_key :
    {Row : Type 0} (key : Row → ℕ) (k : ℕ) (p : Row → Bool)
    → ((r : Row) → p r ≡ true → key r ≡ k)
    → (l : List Row) (cur : Row) (rest : List Row) → UniqueBy key l
    → filter p l ≡ cur ∷ rest
    → All (λ r. (key r == k) ≡ true → r ≡ cur) l
only_key key k p picks [] cur rest u e = tt
only_key key k p picks (x ∷ xs) cur rest u e = elim (Bool-cases (p x)) [
  | inl t ↦
      let e' : x ∷ filter p xs ≡ cur ∷ rest = rw t at e in
      let key_x = picks x t in
      (
        (λ _. cc),
        All-map (λ r far near. absurd (far (key_x ∙ sym ((==_iff (key r) k).0 near)))) xs u.0,
      )
  | inr f ↦
      let e' : filter p xs ≡ cur ∷ rest = rw f at e in
      let (far, found) = All-filter_head (λ y. key x ≢ key y) p xs cur rest e' u.0 in
      (
        (λ near. absurd (far ((==_iff (key x) k).0 near ∙ sym (picks cur found)))),
        only_key key k p picks xs cur rest u.1 e',
      )
]

-- The first row that a filter keeps passes it.
pub first_passes :
    {Row : Type 0} (p : Row → Bool) (l : List Row) (cur : Row) (rest : List Row)
    → filter p l ≡ cur ∷ rest
    → p cur ≡ true
first_passes p [] cur rest e = cc
first_passes p (x ∷ xs) cur rest e = elim (Bool-cases (p x)) [
  | inl t ↦
      let e' : x ∷ filter p xs ≡ cur ∷ rest = rw t at e in let same : x ≡ cur = cc in rw same at t
  | inr f ↦ first_passes p xs cur rest (rw f at e)
]

-- Two updates that set the same value are one.
pub update_where-update_where :
    {Row : Type 0} (p q : Row → Bool) (f : Row → Row)
    → ((r : Row) → p (f r) ≡ p r)
    → ((r : Row) → f (f r) ≡ f r)
    → (l : List Row) → update_where p f (update_where q f l) ≡ update_where (λ r. q r || p r) f l
update_where-update_where p q f kp idem [] = refl
update_where-update_where p q f kp idem (x ∷ xs) =
    ground (arith, kp x, idem x, update_where-update_where p q f kp idem xs)

filter-false : {A : Type 0} (l : List A) → filter (λ x. false) l ≡ []
filter-false [] = refl
filter-false (x ∷ xs) = filter-false xs

pub update_where-false :
    {Row : Type 0} (f : Row → Row) (l : List Row) → update_where (λ r. false) f l ≡ l
update_where-false f l = update_where-none (λ r. false) f l (filter-false l)
