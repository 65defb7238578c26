-- ===== src/Access/Guards.antt =====
-- What a guarded handler needs before it runs.
use mathlib.Core.Path.{subst}
use sih.Prelude.{
  Bool-cases, List, Option, Option-cases, [], ap, inl, inr, none, refl, some, sym, true, ℕ, ◌==◌,
  ◌∙◌, ◌∷◌, ◌≡◌, ◌≢◌, ◌⊎◌,
}
use sih.Store.{
  Action, Client, Profile, Result, Role, err, lift, ok, select, then_goes_on, then_raises, ◌>>=◌,
}
use sih.Access.{
  HttpRequest, TokenClaims, check_role, decode_access_token, decode_token, get_current_user,
  is_among, require_role, token_of, with_role,
}
use sih.Prices.Names.{Text}

module _ (jwt_decode : Text → Option TokenClaims) {Db : Type 0} (c : Client Db) where
  -- The request has a token that is not empty and that is verified to be of the user.
  abbrev pub IsFrom : HttpRequest → ℕ → Type 0
  IsFrom req user_id =
      (t : Text) × (who : TokenClaims) × (token_of req ≡ some t)
      × (t ≢ [])
      × (jwt_decode t ≡ some who)
      × (who.sub ≡ some user_id)

  -- The user's profile has one of the roles.
  abbrev pub HasRole : List Role → Db → ℕ → Type 0
  HasRole roles d user_id =
      (p : Profile) × (ps : List Profile) × (c.profiles.select (λ p. p.id == user_id) d ≡ p ∷ ps)
      × (is_among p.role roles ≡ true)

  decode_access_token_cases :
      (t : Text)
      → ((who : TokenClaims) × (u : ℕ) × (jwt_decode t ≡ some who)
          × (who.sub ≡ some u)
          × (decode_access_token jwt_decode t ≡ ok u))
        ⊎ (decode_access_token jwt_decode t ≡ err 401)
  unfolding decode_access_token
  decode_access_token_cases t = elim (Option-cases (jwt_decode t)) [
    | inl bad ↦ inr (rw (bad, decode_access_token) refl)
    | inr (who, good) ↦ elim (Option-cases who.sub) [
      | inl bare ↦ inr (rw (good, bare, decode_access_token) refl)
      | inr (u, sub) ↦ inl (who, u, good, sub, rw (good, sub, decode_access_token) refl)
    ]
  ]

  decode_token_cases :
      (o : Option Text)
      → ((t : Text) × (who : TokenClaims) × (u : ℕ) × (o ≡ some t)
          × (t ≢ [])
          × (jwt_decode t ≡ some who)
          × (who.sub ≡ some u)
          × (decode_token jwt_decode o ≡ ok u))
        ⊎ (decode_token jwt_decode o ≡ err 401)
  unfolding decode_token
  decode_token_cases none = inr refl
  decode_token_cases (some []) = inr refl
  decode_token_cases (some (x ∷ xs)) = elim (decode_access_token_cases (x ∷ xs)) [
    | inr bad ↦ inr bad
    | inl (who, u, good, sub, e) ↦ inl (x ∷ xs, who, u, refl, (λ k. cc), good, sub, e)
  ]

  -- The user of a request is verified.
  get_current_user_cases :
      (req : HttpRequest)
      → ((u : ℕ) × IsFrom req u × (get_current_user jwt_decode req ≡ ok u))
        ⊎ (get_current_user jwt_decode req ≡ err 401)
  unfolding get_current_user
  get_current_user_cases req = elim (decode_token_cases (token_of req)) [
    | inr bad ↦ inr bad
    | inl (t, who, u, given, listed, good, sub, e) ↦ inl (u, (t, who, given, listed, good, sub), e)
  ]

  decode_token-full :
      (t : Text) (who : TokenClaims) (u : ℕ)
      → t ≢ []
      → jwt_decode t ≡ some who
      → who.sub ≡ some u
      → decode_token jwt_decode (some t) ≡ ok u
  unfolding decode_token decode_access_token
  decode_token-full [] who u full good sub = absurd (full refl)
  decode_token-full (x ∷ xs) who u full good sub = rw (good, sub, decode_access_token) refl

  IsFrom-user : (req : HttpRequest) (u : ℕ) → IsFrom req u → get_current_user jwt_decode req ≡ ok u
  unfolding get_current_user
  IsFrom-user req u (t, who, given, full, good, sub) =
      ap (decode_token jwt_decode) given ∙ decode_token-full t who u full good sub

  clash : {B : Type 0} (code : ℕ) (b : B) → err code ≢ ok b
  clash code b h = cc

  check_role_ok :
      (roles : List Role) (ps : List Profile) (p : Profile) (rest : List Profile)
      → ps ≡ p ∷ rest
      → is_among p.role roles ≡ true
      → check_role jwt_decode c roles ps ≡ ok tt
  check_role_ok roles ps p rest e t = ap (check_role jwt_decode c roles) e ∙ rw t refl

  check_role_cases :
      (roles : List Role) (ps : List Profile)
      → ((p : Profile) × (rest : List Profile) × (ps ≡ p ∷ rest) × (is_among p.role roles ≡ true))
        ⊎ (check_role jwt_decode c roles ps ≡ err 403)
  check_role_cases roles [] = inr refl
  check_role_cases roles (p ∷ rest) = elim (Bool-cases (is_among p.role roles)) [
    | inl t ↦ inl (p, rest, refl, t)
    | inr f ↦ inr (rw f refl)
  ]

  require_role-ok :
      (roles : List Role) (req : HttpRequest) (d : Db) (u : ℕ)
      → get_current_user jwt_decode req ≡ ok u
      → require_role jwt_decode c roles req d
        ≡ (check_role jwt_decode c roles (c.profiles.select (λ p. p.id == u) d), d)
  unfolding require_role
  require_role-ok roles req d u e =
      ap
        (λ (r : Result ℕ).
          (lift r >>= λ user_id. select c.profiles (λ p. p.id == user_id) >>= λ row.
          lift (check_role jwt_decode c roles row))
            d)
        e

  require_role-err :
      (roles : List Role) (req : HttpRequest) (d : Db) (code : ℕ)
      → get_current_user jwt_decode req ≡ err code
      → require_role jwt_decode c roles req d ≡ (err code, d)
  unfolding require_role
  require_role-err roles req d code e =
      ap
        (λ (r : Result ℕ).
          (lift r >>= λ user_id. select c.profiles (λ p. p.id == user_id) >>= λ row.
          lift (check_role jwt_decode c roles row))
            d)
        e

  -- A handler behind a role runs exactly when the request has a verified token, in the header or else
  -- in the cookie, of a user whose profile has one of the roles. Otherwise nothing is written, and the
  -- answer is 401 or 403.
  pub with_role-guards :
      {A : Type 0} (roles : List Role) (req : HttpRequest) (handler : Action Db A) (d : Db)
      → let end = with_role jwt_decode c roles req handler d in
        ((user_id : ℕ) × IsFrom req user_id × HasRole roles d user_id × (end ≡ handler d))
        ⊎ ((e : ℕ) × ((e ≡ 401) ⊎ (e ≡ 403))
            × (end ≡ (err e, d))
            × ((user_id : ℕ) → IsFrom req user_id → HasRole roles d user_id → ⊥))
  unfolding with_role require_role
  with_role-guards roles req handler d = elim (get_current_user_cases req) [
    | inr bad ↦ inr (
      401,
      inl refl,
      then_raises (require_role jwt_decode c roles req) handler
          (require_role-err roles req d 401 bad),
      (λ u from_u role. clash 401 u (sym bad ∙ IsFrom-user req u from_u)),
    )
    | inl (u, from_u, e) ↦
        let profiles = c.profiles.select (λ p. p.id == u) d in
        let run_check = require_role-ok roles req d u e in
        elim (check_role_cases roles profiles) [
          | inl (p, ps, found, among) ↦
              let allowed = check_role_ok roles profiles p ps found among in
              inl (
                u,
                from_u,
                (p, ps, found, among),
                then_goes_on (require_role jwt_decode c roles req) handler
                    (run_check ∙ ap (λ r. (r, d)) allowed),
              )
          | inr bad ↦ inr (
            403,
            inr refl,
            then_raises (require_role jwt_decode c roles req) handler
                (run_check ∙ ap (λ r. (r, d)) bad),
            (λ v from_v (p, ps, found, among).
                let e' = sym e ∙ IsFrom-user req v from_v in
                let same : u ≡ v = cc in
                let bad_v =
                  subst
                    (λ w.
                      check_role jwt_decode c roles (c.profiles.select (λ p. p.id == w) d)
                      ≡ err 403)
                    same bad in
                clash 403 tt (
                  sym bad_v
                  ∙ check_role_ok roles (c.profiles.select (λ p. p.id == v) d) p ps found among)),
          )
        ]
  ]
