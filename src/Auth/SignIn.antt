-- ===== src/Auth/SignIn.antt =====
-- That who is issued a token is admitted with it.
use live_kit_voice_agent.Prelude.{
  ℕ, ◌+◌, ◌*◌, ◌/◌, ◌≤◌, ◌<◌, ◌≡◌, refl, ap, ◌∙◌, Bool, true, false, Option, none, some, List, find,
  ==_iff,
}
use live_kit_voice_agent.Prelude.Text.{Text}
use live_kit_voice_agent.Auth.Tokens.{
  Principal, access, second, Jwt, JwtLaws, Settings, expires_in, claims_of, create_token,
  decode_token, token_issued_at,
}
use live_kit_voice_agent.Auth.Accounts.{RoleRow, User, is_user, principal_for}
use live_kit_voice_agent.Auth.Requests.{
  authenticated, same_tenant, same_bool, is_revoked, check_user, check_verified, get_principal,
}
use live_kit_voice_agent.Auth.RoundTrip.{with_claims, one_scope, decode_token-access}

same_tenant_refl : (t : Option ℕ) → same_tenant t t ≡ true
same_tenant_refl none = refl
same_tenant_refl (some i) = (==_iff i i).1 refl

same_bool_refl : (b : Bool) → same_bool b b ≡ true
same_bool_refl true = refl
same_bool_refl false = refl

check_user-own :
    (issued : Option ℕ) (rs : List RoleRow) (session : Option Text) (fresh : Text) (u : User)
    → u.is_active ≡ true
    → is_revoked u.tokens_valid_from issued ≡ false
    → check_user issued (with_claims fresh (principal_for rs session u)) (some u)
      ≡ authenticated (with_claims fresh (principal_for rs session u))
unfolding with_claims principal_for
check_user-own issued rs session fresh u a v =
    let tenant = same_tenant_refl u.tenant_id in
    let scope = same_bool_refl u.is_platform_user in rw (a, v, tenant, scope) refl

module _ {T : Type 0} (jwt : Jwt T) (laws : JwtLaws jwt) (s : Settings) where
  issued_at-create :
      (now : ℕ) (jti fresh : Text) (p : Principal)
      → token_issued_at jwt (create_token jwt s now jti fresh access p)
        ≡ some (now / second * second)
  unfolding create_token claims_of
  issued_at-create now jti fresh p =
      ap (λ o. elim o [ none ↦ none | some i ↦ some (i * second) ])
        (laws.issued_at-encode (claims_of s now jti fresh access p))

  -- An active user who is issued an access token is admitted with it until it expires, with the
  -- permissions that the user's roles give, where the user is not both of the platform and of a tenant
  -- and the sessions have not been revoked after the second that the token was issued in.
  pub get_principal-create_token :
      (now later : ℕ) (jti fresh : Text) (users : List User) (rs : List RoleRow)
      (session : Option Text) (u : User)
      → find (is_user u.id) users ≡ some u
      → u.is_active ≡ true
      → is_revoked u.tokens_valid_from (some (now / second * second)) ≡ false
      → one_scope (principal_for rs session u) ≡ true
      → now ≤ later
      → later < (now + expires_in s access) / second * second
      → get_principal jwt later users
          (some (create_token jwt s now jti fresh access (principal_for rs session u)))
        ≡ authenticated (with_claims fresh (principal_for rs session u))
  unfolding get_principal with_claims principal_for
  get_principal-create_token now later jti fresh users rs session u f a v o h k =
      let p = principal_for rs session u in
      let token = create_token jwt s now jti fresh access p in
      ap (λ x. check_verified x users (decode_token jwt later access token))
        (issued_at-create now jti fresh p)
      ∙ (ap (check_verified (some (now / second * second)) users)
            (decode_token-access jwt laws s now later jti fresh p o h k)
          ∙ (ap (check_user (some (now / second * second)) (with_claims fresh p)) f
              ∙ check_user-own (some (now / second * second)) rs session fresh u a v))
