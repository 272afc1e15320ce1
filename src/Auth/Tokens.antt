-- ===== src/Auth/Tokens.antt =====
-- `Principal`, `create_token`, `decode_token` and `token_issued_at` of
-- services/configuration-api/app/core/security.py. Times are microseconds since the epoch, and those
-- inside a token are seconds. A frozen set is a list of which only the members count. Signing is an
-- argument.
use live_kit_voice_agent.Prelude.{
  ℕ, ◌+◌, ◌*◌, ◌/◌, ◌≤◌, ◌<◌, ◌≡◌, Bool, true, false, ◌||◌, Option, none, some, List, [],
  if◌then◌else◌, any,
}
use live_kit_voice_agent.Prelude.Sorting.{sorted}
use live_kit_voice_agent.Prelude.Text.{Text, text, text_eq, text_le, is_truthy}

pub record Principal : Type 0 where
  pub user_id : ℕ
  pub email : Text
  pub tenant_id : Option ℕ
  pub roles : List Text
  pub permissions : List Text
  pub is_platform_user : Bool
  pub session_id : Option Text

-- `code in self.permissions`
abbrev pub is_member : Text → List Text → Bool
is_member t ts = any (text_eq t) ts

abbrev pub super_admin : Text
super_admin = text "SUPER_ADMIN"

abbrev pub is_super_admin : Principal → Bool
is_super_admin p = is_member super_admin p.roles

unfoldable pub has_permission : Text → Principal → Bool
has_permission code p = is_super_admin p || is_member code p.permissions

-- `require_tenant`, where no tenant is an `AuthError`.
abbrev pub require_tenant : Principal → Option ℕ
require_tenant p = p.tenant_id

pub data TokenType : Type 0 where
  access refresh : TokenType

abbrev pub is_kind : TokenType → TokenType → Bool
is_kind access access = true
is_kind access refresh = false
is_kind refresh access = false
is_kind refresh refresh = true

-- A claim that should be a UUID.
pub data Identifier : Type 0 where
  uuid : ℕ → Identifier
  malformed : Identifier

pub record Claims : Type 0 where
  pub sub : Identifier
  pub email : Text
  pub typ : TokenType
  pub iat : ℕ
  pub exp : ℕ
  pub jti : Text
  pub sid : Option Text
  pub plat : Bool
  pub tid : Option Identifier
  pub roles : Option (List Text)
  pub perms : Option (List Text)

pub data Decoded : Type 0 where
  claims : Claims → Decoded
  expired invalid : Decoded

abbrev pub second : ℕ
second = 1000000

-- The signing of PyJWT: `encode`, `decode` with the secret at a time, and the `iat` of a token whose
-- signature is not verified.
pub record Jwt (T : Type 0) : Type 0 where
  pub encode : Claims → T
  pub decode : ℕ → T → Decoded
  pub issued_at : T → Option ℕ

-- What the code relies on: a token holds what was encoded, from the time it was issued at until it
-- expires.
pub record JwtLaws {T : Type 0} (jwt : Jwt T) : Type 0 where
  pub decode-encode :
      (now : ℕ) (c : Claims)
      → c.iat * second ≤ now
      → now < c.exp * second
      → jwt.decode now (jwt.encode c) ≡ claims c
  pub issued_at-encode : (c : Claims) → jwt.issued_at (jwt.encode c) ≡ some c.iat

pub record Settings : Type 0 where
  pub access_token_ttl_minutes : ℕ
  pub refresh_token_ttl_days : ℕ

abbrev pub expires_in : Settings → TokenType → ℕ
expires_in s access = s.access_token_ttl_minutes * 60 * second
expires_in s refresh = s.refresh_token_ttl_days * 86400 * second

-- `principal.session_id or uuid.uuid4().hex`
abbrev pub session_or : Option Text → Text → Text
session_or none fresh = fresh
session_or (some t) fresh = if is_truthy t then t else fresh

-- Only an access token has them.
abbrev pub authority : TokenType → List Text → Option (List Text)
authority access names = some (sorted text_le names)
authority refresh names = none

abbrev pub tenant_claim : Option ℕ → Option Identifier
tenant_claim none = none
tenant_claim (some t) = some (uuid t)

-- The claims of `create_token`, with the identifiers that it draws.
unfoldable pub claims_of : Settings → ℕ → Text → Text → TokenType → Principal → Claims
claims_of s now jti fresh kind p = record {
  sub = uuid p.user_id;
  email = p.email;
  typ = kind;
  iat = now / second;
  exp = (now + expires_in s kind) / second;
  jti = jti;
  sid = some (session_or p.session_id fresh);
  plat = p.is_platform_user;
  tid = tenant_claim p.tenant_id;
  roles = authority kind p.roles;
  perms = authority kind p.permissions;
}

pub data TokenError : Type 0 where
  token_expired token_invalid wrong_kind bad_subject bad_tenant both_scopes : TokenError

pub data Verified : Type 0 where
  verified : Principal → Verified
  rejected : TokenError → Verified

-- `claims.get("roles") or ()`
abbrev pub names_or_none : Option (List Text) → List Text
names_or_none none = []
names_or_none (some names) = names

abbrev pub principal_of : Claims → ℕ → Option ℕ → Principal
principal_of c user tenant = record {
  user_id = user;
  email = c.email;
  tenant_id = tenant;
  roles = names_or_none c.roles;
  permissions = names_or_none c.perms;
  is_platform_user = c.plat;
  session_id = c.sid;
}

abbrev pub verify_tenant : Claims → ℕ → Option Identifier → Verified
verify_tenant c user none = verified (principal_of c user none)
verify_tenant c user (some malformed) = rejected bad_tenant
verify_tenant c user (some (uuid t)) =
    if c.plat then rejected both_scopes else verified (principal_of c user (some t))

abbrev pub verify_subject : Claims → Identifier → Verified
verify_subject c malformed = rejected bad_subject
verify_subject c (uuid user) = verify_tenant c user c.tid

unfoldable pub verify_claims : TokenType → Decoded → Verified
verify_claims expected expired = rejected token_expired
verify_claims expected invalid = rejected token_invalid
verify_claims expected (claims c) =
    if is_kind c.typ expected then verify_subject c c.sub else rejected wrong_kind

module _ {T : Type 0} (jwt : Jwt T) where
  unfoldable pub create_token : Settings → ℕ → Text → Text → TokenType → Principal → T
  unfolding claims_of
  create_token s now jti fresh kind p = jwt.encode (claims_of s now jti fresh kind p)

  unfoldable pub decode_token : ℕ → TokenType → T → Verified
  unfolding verify_claims
  decode_token now expected token = verify_claims expected (jwt.decode now token)

  -- `token_issued_at`
  abbrev pub token_issued_at : T → Option ℕ
  token_issued_at token = elim (jwt.issued_at token) [ none ↦ none | some i ↦ some (i * second) ]
