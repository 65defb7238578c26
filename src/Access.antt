-- ===== src/Access.antt =====
-- app/auth.py and app/deps.py: whom a request is from, and the dependencies that guard a handler. PyJWT's
-- check of a token, with the secret, the audience and the issuer of the settings, is a parameter: none
-- is an InvalidTokenError. Texts are lists of character codes.
pub mod Guards
pub mod Tests
use sih.Prelude.{Bool, List, Option, [], false, if◌then◌else◌, none, some, true, ℕ, ◌==◌, ◌||◌, ◌∷◌}
use sih.Store.{
  Action, Client, Profile, Result, Role, admin, buyer_role, err, farmer, fpo, lift, ok, select,
  ◌>>=◌, ◌>>◌,
}
use sih.Prices.Names.{Text}

pub record TokenClaims : Type 0 where
  -- "sub": none when it is empty.
  pub sub : Option ℕ

pub record HttpRequest : Type 0 where
  pub authorization : Option Text
  -- The cookie kb_admin.
  pub cookie : Option Text

-- "Bearer "
abbrev pub bearer : Text
bearer = 66 ∷ 101 ∷ 97 ∷ 114 ∷ 101 ∷ 114 ∷ 32 ∷ []

-- The rest of a text that starts with a prefix.
unfoldable pub after_prefix : Text → Text → Option Text
after_prefix [] t = some t
after_prefix (c ∷ cs) [] = none
after_prefix (c ∷ cs) (d ∷ ds) = let rest = after_prefix cs ds in if c == d then rest else none

abbrev pub bearer_token : Option Text → Option Text
bearer_token none = none
bearer_token (some h) = after_prefix bearer h

abbrev pub or_cookie : Option Text → Option Text → Option Text
or_cookie none cookie = cookie
or_cookie (some t) cookie = some t

-- The header's token, empty or not, and the cookie only without one.
unfoldable pub token_of : HttpRequest → Option Text
unfolding after_prefix
token_of r = or_cookie (bearer_token r.authorization) r.cookie

abbrev pub same_role : Role → Role → Bool
same_role farmer farmer = true
same_role admin admin = true
same_role buyer_role buyer_role = true
same_role fpo fpo = true
same_role _ _ = false

abbrev pub is_among : Role → List Role → Bool
is_among r [] = false
is_among r (s ∷ ss) = same_role r s || is_among r ss

module _ (jwt_decode : Text → Option TokenClaims) where
  unfoldable pub decode_access_token : Text → Result ℕ
  decode_access_token t = elim (jwt_decode t) [
    | none ↦ err 401
    | some who ↦ elim who.sub [ none ↦ err 401 | some user_id ↦ ok user_id ]
  ]

  unfoldable pub decode_token : Option Text → Result ℕ
  unfolding decode_access_token
  decode_token none = err 401
  decode_token (some []) = err 401
  decode_token (some (c ∷ cs)) = decode_access_token (c ∷ cs)

  unfoldable pub get_current_user : HttpRequest → Result ℕ
  unfolding token_of decode_token
  get_current_user r = decode_token (token_of r)

  -- The client of a user needs the header: the cookie is not enough.
  unfoldable pub get_supabase_as_user : HttpRequest → Result Unit
  unfolding after_prefix decode_access_token
  get_supabase_as_user r = elim (bearer_token r.authorization) [
    | none ↦ err 401
    | some t ↦ elim (decode_access_token t) [ err e ↦ err e | ok user_id ↦ ok tt ]
  ]

  module _ {Db : Type 0} (c : Client Db) where
    abbrev pub check_role : List Role → List Profile → Result Unit
    check_role roles [] = err 403
    check_role roles (p ∷ ps) = if is_among p.role roles then ok tt else err 403

    -- `require_role`
    unfoldable pub require_role : List Role → HttpRequest → Action Db Unit
    unfolding get_current_user
    require_role roles req = do
      user_id ← lift (get_current_user req)
      row ← select c.profiles (λ p. p.id == user_id)
      lift (check_role roles row)

    -- A handler behind `Depends(require_role(...))`.
    unfoldable pub with_role : {A : Type 0} → List Role → HttpRequest → Action Db A → Action Db A
    unfolding require_role
    with_role roles req handler = do require_role roles req; handler

    -- A handler that takes the user and the user's client.
    unfoldable pub with_user : {A : Type 0} → HttpRequest → (ℕ → Action Db A) → Action Db A
    unfolding get_current_user get_supabase_as_user
    with_user req handler = do
      user_id ← lift (get_current_user req)
      lift (get_supabase_as_user req)
      handler user_id
