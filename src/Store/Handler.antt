-- ===== src/Store/Handler.antt =====
-- A request handler: it may raise `HTTPException(code)`, and what it wrote before stays written.
use sih.Prelude.{Bool, List, [], arith, if◌then◌else◌, inl, inr, refl, ℕ, ◌∷◌, ◌≡◌, ◌⊎◌}
use sih.Store.Interface.{Table}

pub data Result (A : Type 0) : Type 0 where
  ok : A → Result A
  err : (code : ℕ) → Result A

abbrev pub Action : Type 0 → Type 0 → Type 0
Action Db A = Db → Result A × Db

infixl 5 ◌>>=◌ ◌>>◌
abbrev pub ◌>>=◌ : {Db A B : Type 0} → Action Db A → (A → Action Db B) → Action Db B
◌>>=◌ m f d = let (r, d') = m d in elim r [ ok a ↦ f a d' | err e ↦ (err e, d') ]

abbrev pub ◌>>◌ : {Db A B : Type 0} → Action Db A → Action Db B → Action Db B
m >> k = m >>= λ _. k

-- `rows[0]`, or the exception that an empty answer raises.
abbrev pub first_or : {A : Type 0} → ℕ → List A → Result A
first_or e [] = err e
first_or e (x ∷ xs) = ok x

module _ {Db : Type 0} where
  abbrev pub pure : {A : Type 0} → A → Action Db A
  pure a d = (ok a, d)

  abbrev pub raise : {A : Type 0} → ℕ → Action Db A
  raise e d = (err e, d)

  abbrev pub raise_if : Bool → ℕ → Action Db (Unit {0})
  raise_if b e d = (if b then err e else ok tt, d)

  module _ {Row : Type 0} (t : Table Db Row) where
    abbrev pub select : (Row → Bool) → Action Db (List Row)
    select p d = (ok (t.select p d), d)

    abbrev pub update : (Row → Bool) → (Row → Row) → Action Db (List Row)
    update p f d = let (rows, d') = t.update p f d in (ok rows, d')

    abbrev pub insert : Row → Action Db (List Row)
    insert r d = let (rows, d') = t.insert r d in (ok rows, d')

  abbrev pub lift : {A : Type 0} → Result A → Action Db A
  lift r d = (r, d)

pub Result-cases : {A : Type 0} (r : Result A) → ((a : A) × (r ≡ ok a)) ⊎ ((e : ℕ) × (r ≡ err e))
Result-cases (ok a) = inl (a, refl)
Result-cases (err e) = inr (e, refl)

-- A `return` after a step leaves the state of the step.
pub then_pure_state :
    {Db A B : Type 0} (m : Action Db A) (b : B) (d : Db) → ((m >> pure b) d).1 ≡ (m d).1
then_pure_state m b d = ground arith

-- So does a `raise`.
pub then_raise_state :
    {Db A : Type 0} (B : Type 0) (m : Action Db A) (e : ℕ) (d : Db)
    → ((m >> raise {A = B} e) d).1 ≡ (m d).1
then_raise_state B m e d = ground arith

-- A step that only reads: it answers, or raises, in the state that it found.
pub data Reads {Db A : Type 0} (d : Db) (r : Result A × Db) : Type 0 where
  answers : (a : A) → r ≡ (ok a, d) → Reads d r
  raises : (e : ℕ) → r ≡ (err e, d) → Reads d r

-- A step that is known to raise ends the handler; one that answers hands on its state.
module _ {Db A B : Type 0} (m : Action Db A) (k : Action Db B) {d d' : Db} where
  pub then_raises : {e : ℕ} → m d ≡ (err e, d') → (m >> k) d ≡ (err e, d')
  then_raises h = ground (arith, h)

  pub then_goes_on : {a : A} → m d ≡ (ok a, d') → (m >> k) d ≡ k d'
  then_goes_on h = ground (arith, h)
