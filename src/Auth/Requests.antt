-- ===== src/Auth/Requests.antt =====
-- Who a request acts for and within which tenant: services/configuration-api/app/core/dependencies.py.
use live_kit_voice_agent.Prelude.{
  ℕ, Bool, true, false, not, ◌&&◌, ◌||◌, Option, none, some, List, [], ◌∷◌, if◌then◌else◌, find,
  ltb, ◌==◌, any,
}
use live_kit_voice_agent.Prelude.Sorting.{all}
use live_kit_voice_agent.Prelude.Text.{Text, text, text_eq, is_truthy, starts_with}
use live_kit_voice_agent.Auth.Tokens.{
  Principal, access, Jwt, Verified, verified, rejected, TokenError, decode_token, token_issued_at,
  has_permission, is_super_admin, require_tenant,
}
use live_kit_voice_agent.Auth.Accounts.{User, is_user}

pub data Denial : Type 0 where
  no_token no_account disabled revoked moved : Denial
  bad_token : TokenError → Denial

pub data Caller : Type 0 where
  authenticated : Principal → Caller
  unauthenticated : Denial → Caller

abbrev pub same_tenant : Option ℕ → Option ℕ → Bool
same_tenant none none = true
same_tenant none (some j) = false
same_tenant (some i) none = false
same_tenant (some i) (some j) = i == j

abbrev pub same_bool : Bool → Bool → Bool
same_bool true b = b
same_bool false b = not b

-- Whether the token was issued before the sessions of the user were last revoked.
abbrev pub is_revoked : Option ℕ → Option ℕ → Bool
is_revoked none issued = false
is_revoked (some from) none = true
is_revoked (some from) (some issued) = ltb issued from

-- The checks of the user's row.
abbrev pub check_user : Option ℕ → Principal → Option User → Caller
check_user issued p none = unauthenticated no_account
check_user issued p (some u) =
    if not u.is_active
    then unauthenticated disabled
    else if is_revoked u.tokens_valid_from issued
    then unauthenticated revoked
    else if not (same_bool u.is_platform_user p.is_platform_user)
        || not (same_tenant u.tenant_id p.tenant_id)
    then unauthenticated moved
    else authenticated p

abbrev pub check_verified : Option ℕ → List User → Verified → Caller
check_verified issued users (rejected e) = unauthenticated (bad_token e)
check_verified issued users (verified p) = check_user issued p (find (is_user p.user_id) users)

module _ {T : Type 0} (jwt : Jwt T) where
  -- `get_principal`
  unfoldable pub get_principal : ℕ → List User → Option T → Caller
  unfolding decode_token
  get_principal now users none = unauthenticated no_token
  get_principal now users (some token) =
      check_verified (token_issued_at jwt token) users (decode_token jwt now access token)

-- `require_permission`, which refuses where this is false.
unfoldable pub require_permission : List Text → Principal → Bool
unfolding has_permission
require_permission codes p = all (λ code. has_permission code p) codes

-- `require_platform_user`
abbrev pub require_platform_user : Principal → Bool
require_platform_user p = p.is_platform_user

-- `require_super_admin`
abbrev pub require_super_admin : Principal → Bool
require_super_admin p = is_super_admin p

-- `get_tenant_scope`: the tenant that the request acts within, or a refusal.
abbrev pub get_tenant_scope : Principal → Option ℕ
get_tenant_scope p = require_tenant p

-- What a request brings. The body is there as the names at its top level, if it is a JSON object.
pub record Request : Type 0 where
  pub query_params : List Text
  pub x_tenant_id : Text
  pub method : Text
  pub content_type : Text
  pub body_fields : Option (List Text)

abbrev pub forbidden_tenant_fields : List Text
forbidden_tenant_fields = text "tenant_id" ∷ text "tenantId" ∷ text "tenant" ∷ []

abbrev pub is_among : List Text → Text → Bool
is_among names t = any (text_eq t) names

abbrev pub is_write : Text → Bool
is_write m = is_among (text "POST" ∷ text "PUT" ∷ text "PATCH" ∷ []) m

abbrev pub fields_of : Option (List Text) → List Text
fields_of none = []
fields_of (some names) = names

-- `reject_client_tenant_id`, which refuses where this is true.
unfoldable pub reject_client_tenant_id : Request → Bool
reject_client_tenant_id r =
    any (is_among r.query_params) forbidden_tenant_fields
    || (is_truthy r.x_tenant_id
        || (is_write r.method
            && (starts_with r.content_type (text "application/json")
                && any (is_among (fields_of r.body_fields)) forbidden_tenant_fields)))
