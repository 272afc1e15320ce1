-- ===== src/Auth/Tests.antt =====
-- A user of the tenant 4, with tokens that are their own claims.
use live_kit_voice_agent.Prelude.{
  ℕ, ◌*◌, ◌<◌, ◌≡◌, ◌≢◌, refl, Bool, true, false, none, some, List, [], ◌∷◌, if◌then◌else◌, find,
  leb, Memᴰ, arith,
}
use live_kit_voice_agent.Prelude.Text.{text}
use live_kit_voice_agent.Auth.Tokens.{
  Principal, access, refresh, Claims, Decoded, claims, expired, second, Jwt, JwtLaws, Settings,
  verified, rejected, wrong_kind, create_token, decode_token, token_issued_at,
}
use live_kit_voice_agent.Auth.Accounts.{
  RoleRow, tenant, User, Accounts, is_user, principal_for, revoke_sessions, Draws, refresh_tokens,
}
use live_kit_voice_agent.Auth.Requests.{authenticated, get_principal, get_tenant_scope}
use live_kit_voice_agent.Auth.Repository.{
  Row, scoped, Operation, gets, counts, adds, deletes, operate_all,
}
use live_kit_voice_agent.Auth.RoundTrip.{with_claims, one_scope, IsSame, decode_token-create_token}
use live_kit_voice_agent.Auth.Admission.{get_principal-revoke_sessions}
use live_kit_voice_agent.Auth.Refreshing.{refresh_tokens-revoke_sessions}
use live_kit_voice_agent.Auth.Isolation.{get_principal-scoped}
use live_kit_voice_agent.Auth.Roles.{assign_to, principal_for-assign_to}
use live_kit_voice_agent.Auth.SignIn.{get_principal-create_token}

abbrev read_at : ℕ → Claims → Decoded
read_at now c = if leb (c.exp * second) now then expired else claims c

abbrev jwt : Jwt Claims
jwt = record { encode = λ c. c; decode = read_at; issued_at = λ c. some c.iat }

read_at-lt : (now : ℕ) (c : Claims) → now < c.exp * second → read_at now c ≡ claims c
read_at-lt now c h = ground (arith, h)

jwt_laws : JwtLaws jwt
jwt_laws = record { decode-encode = λ now c h k. read_at-lt now c k; issued_at-encode = λ c. refl }

abbrev settings : Settings
settings = record { access_token_ttl_minutes = 15; refresh_token_ttl_days = 7 }

abbrev user : User
user = record {
  id = 9;
  email = text "a@b";
  password_hash = text "h";
  is_active = true;
  tokens_valid_from = none;
  is_platform_user = false;
  tenant_id = some 4;
  last_login_at = none;
}

abbrev role_rows : List RoleRow
role_rows =
    record {
      user_id = 9;
      tenant_id = some 4;
      name = text "W";
      scope = tenant;
      code = some (text "b");
    }
    ∷ record {
      user_id = 9;
      tenant_id = some 4;
      name = text "W";
      scope = tenant;
      code = some (text "a");
    }
    ∷ []

abbrev accounts : Accounts
accounts = record { users = user ∷ []; role_rows = role_rows }

abbrev principal : Principal
principal = principal_for role_rows (some (text "s")) user

principal-one_scope : one_scope principal ≡ true
unfolding one_scope principal_for
principal-one_scope = refl

abbrev token : Claims
token = create_token jwt settings 5000000 (text "1") (text "s") access principal

decode_token-create_token_example :
    ((q : Principal) × (decode_token jwt 6000000 access token ≡ verified q) × IsSame principal q)
    × (decode_token jwt 7000000 access
          (create_token jwt settings 5000000 (text "2") (text "s") refresh principal)
        ≡ rejected wrong_kind)
decode_token-create_token_example =
    decode_token-create_token jwt jwt_laws settings 5000000 6000000 7000000 (text "1") (text "2")
      (text "s") principal principal-one_scope (omega arith) (omega arith) (omega arith)
      (omega arith)

user_found : find (is_user user.id) accounts.users ≡ some user
user_found = refl

admitted :
    get_principal jwt 6000000 accounts.users (some token)
    ≡ authenticated (with_claims (text "s") principal)
admitted =
    get_principal-create_token jwt jwt_laws settings 5000000 6000000 (text "1") (text "s")
      accounts.users role_rows (some (text "s")) user user_found refl refl principal-one_scope
      (omega arith) (omega arith)

get_principal-create_token_example :
    get_principal jwt 6000000 accounts.users (some token)
    ≡ authenticated (with_claims (text "s") principal)
get_principal-create_token_example =
    get_principal-create_token jwt jwt_laws settings 5000000 6000000 (text "1") (text "s")
      accounts.users role_rows (some (text "s")) user user_found refl refl principal-one_scope
      (omega arith) (omega arith)

-- The sessions of another user are revoked, and the user is still admitted.
other_revoked :
    get_principal jwt 7000000 (revoke_sessions 6000000 8 accounts).users (some token)
    ≡ authenticated (with_claims (text "s") principal)
unfolding get_principal revoke_sessions create_token principal_for with_claims
other_revoked = refl

issued : token_issued_at jwt token ≡ some 5000000
unfolding create_token
issued = refl

get_principal-revoke_sessions_example : (with_claims (text "s") principal).user_id ≢ 8
get_principal-revoke_sessions_example =
    get_principal-revoke_sessions jwt 6000000 8 accounts 7000000 5000000 token
      (with_claims (text "s") principal) issued (omega arith) other_revoked

abbrev draws : Draws jwt settings
draws = record { access_jti = text "3"; refresh_jti = text "4"; session = text "t" }

refresh_tokens-revoke_sessions_example :
    refresh_tokens jwt settings 7000000 draws
      (revoke_sessions 6000000 9 accounts)
      (create_token jwt settings 5000000 (text "2") (text "s") refresh principal)
    ≡ refresh_tokens jwt settings 7000000 draws accounts
        (create_token jwt settings 5000000 (text "2") (text "s") refresh principal)
refresh_tokens-revoke_sessions_example =
    refresh_tokens-revoke_sessions jwt settings draws 7000000 9 6000000 accounts
      (create_token jwt settings 5000000 (text "2") (text "s") refresh principal)

abbrev rows : List (Row Bool)
rows =
    record { id = 1; tenant_id = 5; value = true }
    ∷ record { id = 2; tenant_id = 4; value = true }
    ∷ []

abbrev operations : List (Operation Bool)
operations =
    gets 1
    ∷ counts
    ∷ deletes 1
    ∷ adds (record { id = 3; tenant_id = none; value = false })
    ∷ adds (record { id = 4; tenant_id = some 5; value = false })
    ∷ []

scope : get_tenant_scope (with_claims (text "s") principal) ≡ some 4
unfolding with_claims principal_for
scope = refl

get_principal-scoped_example :
    ((v : User) × Memᴰ v accounts.users
      × (v.id ≡ (with_claims (text "s") principal).user_id)
      × (v.is_active ≡ true)
      × (v.tenant_id ≡ some 4))
    × (scoped 5 (operate_all 4 operations rows).1 ≡ scoped 5 rows)
    × ((operate_all 4 operations rows).0 ≡ (operate_all 4 operations (scoped 4 rows)).0)
get_principal-scoped_example =
    get_principal-scoped jwt 6000000 accounts.users token (with_claims (text "s") principal) 4 5
      operations rows admitted scope refl

principal_for-assign_to_example :
    principal_for (assign_to (some 6) role_rows) none user ≡ principal_for role_rows none user
principal_for-assign_to_example = principal_for-assign_to (some 6) none user role_rows
