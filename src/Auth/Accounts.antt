-- ===== src/Auth/Accounts.antt =====
-- The users: hash_password of services/configuration-api/app/core/security.py,
-- services/auth_service.py beside it in app, and `refresh` of app/api/v1/auth.py. Hashing is an
-- argument.
use live_kit_voice_agent.Prelude.{
  ℕ, ◌+◌, Bool, true, false, not, ◌&&◌, Option, none, some, List, [], ◌∷◌, if◌then◌else◌, find, ltb,
  ◌==◌, length,
}
use live_kit_voice_agent.Prelude.Text.{Text, text_eq, lower}
use live_kit_voice_agent.Auth.Tokens.{
  Principal, access, refresh, Jwt, Settings, session_or, Verified, verified, rejected, TokenError,
  create_token, decode_token,
}

pub data RoleScope : Type 0 where
  platform tenant : RoleScope

-- A row of the joined query of `resolve_permissions`, with the tenant of the assignment, which the
-- query does not read.
pub record RoleRow : Type 0 where
  pub user_id : ℕ
  pub tenant_id : Option ℕ
  pub name : Text
  pub scope : RoleScope
  pub code : Option Text

pub record User : Type 0 where
  pub id : ℕ
  pub email : Text
  pub password_hash : Text
  pub is_active : Bool
  pub tokens_valid_from : Option ℕ
  pub is_platform_user : Bool
  pub tenant_id : Option ℕ
  pub last_login_at : Option ℕ

pub record Accounts : Type 0 where
  pub users : List User
  pub role_rows : List RoleRow

abbrev pub is_user : ℕ → User → Bool
is_user i u = u.id == i

abbrev pub has_tenant : Option ℕ → Bool
has_tenant none = false
has_tenant (some t) = true

-- A role of the tenants counts for a user with one, a role of the platform for platform staff.
abbrev pub scope_counts : RoleScope → User → Bool
scope_counts tenant u = has_tenant u.tenant_id
scope_counts platform u = u.is_platform_user

abbrev pub row_counts : User → RoleRow → Bool
row_counts u r = r.user_id == u.id && scope_counts r.scope u

abbrev pub role_names : User → List RoleRow → List Text
role_names u [] = []
role_names u (r ∷ rs) = if row_counts u r then r.name ∷ role_names u rs else role_names u rs

abbrev pub add_code : Option Text → List Text → List Text
add_code none codes = codes
add_code (some []) codes = codes
add_code (some (c ∷ cs)) codes = (c ∷ cs) ∷ codes

abbrev pub permission_codes : User → List RoleRow → List Text
permission_codes u [] = []
permission_codes u (r ∷ rs) =
    let rest = permission_codes u rs in if row_counts u r then add_code r.code rest else rest

-- The principal of a user, with the roles and the permissions of `resolve_permissions`.
unfoldable pub principal_for : List RoleRow → Option Text → User → Principal
principal_for rs session u = record {
  user_id = u.id;
  email = u.email;
  tenant_id = u.tenant_id;
  roles = role_names u rs;
  permissions = permission_codes u rs;
  is_platform_user = u.is_platform_user;
  session_id = session;
}

-- The users with the email, in a column that ignores case.
abbrev pub with_email : Text → List User → List User
with_email email [] = []
with_email email (u ∷ us) =
    if text_eq (lower u.email) (lower email) then u ∷ with_email email us else with_email email us

-- The row of the user is changed.
unfoldable pub update_user : ℕ → (User → User) → List User → List User
update_user i f [] = []
update_user i f (u ∷ us) = (if is_user i u then f u else u) ∷ update_user i f us

abbrev pub revoke : ℕ → User → User
revoke now u = record u { tokens_valid_from = some now }

-- `revoke_sessions`
unfoldable pub revoke_sessions : ℕ → ℕ → Accounts → Accounts
unfolding update_user
revoke_sessions now i a = record a { users = update_user i (revoke now) a.users }

-- The bytes of a code point in UTF-8.
abbrev pub utf8_length : ℕ → ℕ
utf8_length c = if ltb c 128 then 1 else if ltb c 2048 then 2 else if ltb c 65536 then 3 else 4

abbrev pub byte_length : Text → ℕ
byte_length [] = 0
byte_length (c ∷ cs) = utf8_length c + byte_length cs

pub data Failure : Type 0 where
  invalid_credentials account_disabled password_mismatch same_password password_too_long : Failure
  password_too_short multiple_results : Failure
  bad_token : TokenError → Failure

-- A call returns a value and leaves the rows, or raises.
pub data Outcome {ℓ} (A : Type ℓ) : Type ℓ where
  returns : A → Outcome A
  fails : Failure → Outcome A

-- passlib's context: `hash`, `verify` with False for a hash that it cannot read, and `needs_update`.
pub record Hasher : Type 0 where
  pub hash : Text → Text
  pub verify : Text → Text → Bool
  pub needs_update : Text → Bool

-- `hash_password`
unfoldable pub hash_password : Hasher → Text → Outcome Text
hash_password h password =
    if ltb 72 (byte_length password)
    then fails password_too_long
    else if ltb (length password) 12
    then fails password_too_short
    else returns (h.hash password)

abbrev pub set_password : ℕ → ℕ → Accounts → Outcome Text → Outcome Accounts
set_password now i a (fails e) = fails e
set_password now i a (returns hash) = returns (record a {
  users =
      update_user i (λ u. record u { password_hash = hash; tokens_valid_from = some now }) a.users;
})

abbrev pub change_for : Hasher → ℕ → Text → Text → Accounts → Option User → Outcome Accounts
change_for h now current new a none = fails invalid_credentials
change_for h now current new a (some u) =
    if not u.is_active
    then fails invalid_credentials
    else if not (h.verify current u.password_hash)
    then fails password_mismatch
    else if text_eq current new
    then fails same_password
    else set_password now u.id a (hash_password h new)

-- `change_own_password`
unfoldable pub change_own_password : Hasher → ℕ → ℕ → Text → Text → Accounts → Outcome Accounts
unfolding hash_password update_user
change_own_password h now i current new a =
    change_for h now current new a (find (is_user i) a.users)

module _ {T : Type 0} (jwt : Jwt T) (settings : Settings) where
  -- `TokenPair`
  pub record TokenPair : Type 0 where
    pub access_token : T
    pub refresh_token : T

  -- What is drawn for the two tokens: their identifiers and a session.
  pub record Draws : Type 0 where
    pub access_jti : Text
    pub refresh_jti : Text
    pub session : Text

  abbrev pub issue : ℕ → Draws → Principal → TokenPair
  issue now draws p = record {
    access_token = create_token jwt settings now draws.access_jti draws.session access p;
    refresh_token = create_token jwt settings now draws.refresh_jti draws.session refresh p;
  }

  abbrev pub refresh_for : ℕ → Draws → List RoleRow → Principal → Option User → Outcome TokenPair
  refresh_for now draws rs p none = fails invalid_credentials
  refresh_for now draws rs p (some u) =
      if not u.is_active
      then fails invalid_credentials
      else returns
          (issue now draws (principal_for rs (some (session_or p.session_id draws.session)) u))

  -- `refresh` of the service.
  unfoldable pub refresh_pair : ℕ → Draws → Accounts → Principal → Outcome TokenPair
  refresh_pair now draws a p =
      refresh_for now draws a.role_rows p (find (is_user p.user_id) a.users)

  abbrev pub refresh_verified : ℕ → Draws → Accounts → Verified → Outcome TokenPair
  refresh_verified now draws a (rejected e) = fails (bad_token e)
  refresh_verified now draws a (verified p) = refresh_pair now draws a p

  -- `refresh` of the endpoint.
  unfoldable pub refresh_tokens : ℕ → Draws → Accounts → T → Outcome TokenPair
  unfolding refresh_pair
  refresh_tokens now draws a token =
      refresh_verified now draws a (decode_token jwt now refresh token)

  -- The hash is renewed where its parameters are outdated, and the login is noted.
  abbrev pub sign_in : ℕ → Draws → Accounts → User → Option Text → Accounts × TokenPair
  sign_in now draws a u hash = (
    record a {
      users =
          update_user u.id
            (λ v. record v {
              password_hash = elim hash [ none ↦ v.password_hash | some t ↦ t ];
              last_login_at = some now;
            })
            a.users;
    },
    issue now draws (principal_for a.role_rows (some draws.session) u),
  )

  abbrev pub sign_in_with :
      ℕ → Draws → Accounts → User → Outcome Text → Outcome (Accounts × TokenPair)
  sign_in_with now draws a u (fails e) = fails e
  sign_in_with now draws a u (returns hash) = returns (sign_in now draws a u (some hash))

  -- `scalar_one_or_none()` of the query by the email, which raises on two rows.
  abbrev pub authenticate_user :
      Hasher → ℕ → Draws → Text → Accounts → List User → Outcome (Accounts × TokenPair)
  authenticate_user h now draws password a [] = fails invalid_credentials
  authenticate_user h now draws password a (u ∷ v ∷ us) = fails multiple_results
  authenticate_user h now draws password a (u ∷ []) =
      if not (h.verify password u.password_hash)
      then fails invalid_credentials
      else if not u.is_active
      then fails account_disabled
      else if h.needs_update u.password_hash
      then sign_in_with now draws a u (hash_password h password)
      else returns (sign_in now draws a u none)

  -- `authenticate`
  unfoldable pub authenticate :
      Hasher → ℕ → Draws → Text → Text → Accounts → Outcome (Accounts × TokenPair)
  unfolding hash_password update_user
  authenticate h now draws email password a =
      authenticate_user h now draws password a (with_email email a.users)
