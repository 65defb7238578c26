-- ===== src/Access/Tests.antt =====
-- A request of an admin, with its token in the cookie.
use sih.Prelude.{Option, [], if◌then◌else◌, none, refl, some, ℕ, ◌∷◌, ◌≡◌, ◌⊎◌}
use sih.Store.{admin, err}
use sih.Store.Laws.{Tables}
use sih.Store.Memory.{memory}
use sih.Access.{
  HttpRequest, TokenClaims, decode_access_token, decode_token, get_current_user, require_role,
  token_of, with_role,
}
use sih.Access.Guards.{HasRole, IsFrom, with_role-guards}
use sih.Market.Admin.{admin_rescore_buyers}
use sih.Prices.Names.{Text, same_text}

-- The only valid token is one letter, of user 9.
abbrev one_token : Text → Option TokenClaims
one_token t = if same_text t (120 ∷ []) then some (record { sub = some 9 }) else none

abbrev admin_request : HttpRequest
admin_request = record { authorization = none; cookie = some (120 ∷ []) }

abbrev admin_tables : Tables
admin_tables = record {
  lots = [];
  offers = [];
  payments = [];
  buyers = [];
  grievances = [];
  bookings = [];
  options = [];
  profiles = record { id = 9; role = admin; district = none; place = none } ∷ [];
}

admin_let_in :
    (with_role one_token memory
      (admin ∷ [])
      admin_request
      (admin_rescore_buyers memory)
      admin_tables).0
    ≡ (admin_rescore_buyers memory admin_tables).0
unfolding with_role require_role get_current_user token_of decode_token decode_access_token
admin_let_in = refl

with_role-guards_example :
    let end =
      with_role one_token memory
        (admin ∷ [])
        admin_request
        (admin_rescore_buyers memory)
        admin_tables in
    ((user_id : ℕ) × IsFrom one_token memory admin_request user_id
      × HasRole one_token memory (admin ∷ []) admin_tables user_id
      × (end ≡ admin_rescore_buyers memory admin_tables))
    ⊎ ((e : ℕ) × ((e ≡ 401) ⊎ (e ≡ 403))
        × (end ≡ (err e, admin_tables))
        × ((user_id : ℕ)
            → IsFrom one_token memory admin_request user_id
            → HasRole one_token memory (admin ∷ []) admin_tables user_id
            → ⊥))
with_role-guards_example =
    with_role-guards one_token memory (admin ∷ []) admin_request (admin_rescore_buyers memory)
      admin_tables
