-- ===== src/Auth/RoundTrip.antt =====
-- What a token tells of the principal that it was made for.
use live_kit_voice_agent.Prelude.{
  ℕ, ◌+◌, ◌*◌, ◌/◌, ◌≤◌, ◌<◌, ◌≡◌, refl, ap, sym, ◌∙◌, Bool, true, not, ◌&&◌, ◌||◌, Option, none,
  some, List, [], ◌∷◌, if◌then◌else◌, any, is_some, arith, Bool-cases, inl, inr,
}
use live_kit_voice_agent.Prelude.Sorting.{insert, sorted}
use live_kit_voice_agent.Prelude.Text.{Text, text_eq, text_le}
use live_kit_voice_agent.Auth.Tokens.{
  Principal, super_admin, is_super_admin, has_permission, TokenType, access, refresh, claims,
  second, Jwt, JwtLaws, Settings, expires_in, session_or, claims_of, verified, rejected, wrong_kind,
  create_token, decode_token, tenant_claim, verify_tenant, both_scopes, principal_of,
}

any-insert {ℓ} :
    {A : Type ℓ} (le : A → A → Bool) (p : A → Bool) (x : A) (ys : List A)
    → any p (insert le x ys) ≡ (p x || any p ys)
unfolding insert
any-insert le p x [] = refl
any-insert le p x (y ∷ ys) = let rest = any-insert le p x ys in ground (arith, rest)

pub any-sorted {ℓ} :
    {A : Type ℓ} (le : A → A → Bool) (p : A → Bool) (xs : List A) → any p (sorted le xs) ≡ any p xs
unfolding sorted
any-sorted le p [] = refl
any-sorted le p (x ∷ xs) =
    let rest = any-sorted le p xs in
    let step = any-insert le p x (sorted le xs) in ground (arith, rest, step)

-- The principal that an access token is verified to: the sets in the order of the claims, and the
-- session that was drawn where there was none.
unfoldable pub with_claims : Text → Principal → Principal
with_claims fresh p = record p {
  roles = sorted text_le p.roles;
  permissions = sorted text_le p.permissions;
  session_id = some (session_or p.session_id fresh);
}

-- Who a token stands for, in every respect that a decision about a request reads.
pub record IsSame (p q : Principal) : Type 0 where
  pub user_id : q.user_id ≡ p.user_id
  pub email : q.email ≡ p.email
  pub tenant_id : q.tenant_id ≡ p.tenant_id
  pub is_platform_user : q.is_platform_user ≡ p.is_platform_user
  pub super : is_super_admin q ≡ is_super_admin p
  pub permissions : (code : Text) → has_permission code q ≡ has_permission code p

with_claims-IsSame : (fresh : Text) (p : Principal) → IsSame p (with_claims fresh p)
unfolding has_permission with_claims
with_claims-IsSame fresh p =
    let roles = any-sorted text_le (text_eq super_admin) p.roles in
    record {
      user_id = refl;
      email = refl;
      tenant_id = refl;
      is_platform_user = refl;
      super = roles;
      permissions = λ code.
          (let held = any-sorted text_le (text_eq code) p.permissions in
            ground (arith, roles, held));
    }

-- A principal of the database: platform staff have no tenant.
unfoldable pub one_scope : Principal → Bool
one_scope p = not (p.is_platform_user && is_some p.tenant_id)

verify_tenant-access :
    (s : Settings) (now : ℕ) (jti fresh : Text) (p : Principal) (t : Option ℕ)
    → p.tenant_id ≡ t
    → not (p.is_platform_user && is_some t) ≡ true
    → verify_tenant (claims_of s now jti fresh access p) p.user_id (tenant_claim t)
      ≡ verified (with_claims fresh p)
unfolding claims_of with_claims
verify_tenant-access s now jti fresh p none e h =
    ap (λ o. verified (record (with_claims fresh p) { tenant_id = o })) (sym e)
verify_tenant-access s now jti fresh p (some t) e h = elim (Bool-cases p.is_platform_user) [
  | inl k ↦ absurd (ground (arith, k))
  | inr k ↦
      ap
        (λ b.
          if b
          then rejected both_scopes
          else verified (principal_of (claims_of s now jti fresh access p) p.user_id (some t)))
        k
      ∙ ap (λ o. verified (record (with_claims fresh p) { tenant_id = o })) (sym e)
]

module _ {T : Type 0} (jwt : Jwt T) (laws : JwtLaws jwt) (s : Settings) where
  decode-create :
      (now later : ℕ) (jti fresh : Text) (kind : TokenType) (p : Principal)
      → now ≤ later
      → later < (now + expires_in s kind) / second * second
      → jwt.decode later (create_token jwt s now jti fresh kind p)
        ≡ claims (claims_of s now jti fresh kind p)
  unfolding create_token claims_of
  decode-create now later jti fresh kind p h k =
      laws.decode-encode later (claims_of s now jti fresh kind p) (omega (arith, h)) k

  pub decode_token-access :
      (now later : ℕ) (jti fresh : Text) (p : Principal)
      → one_scope p ≡ true
      → now ≤ later
      → later < (now + expires_in s access) / second * second
      → decode_token jwt later access (create_token jwt s now jti fresh access p)
        ≡ verified (with_claims fresh p)
  unfolding decode_token one_scope claims_of
  decode_token-access now later jti fresh p o h k =
      rw (decode-create now later jti fresh access p h k)
        (verify_tenant-access s now jti fresh p p.tenant_id refl o)

  decode_token_kind :
      (now later : ℕ) (jti fresh : Text) (p : Principal)
      → now ≤ later
      → later < (now + expires_in s refresh) / second * second
      → decode_token jwt later access (create_token jwt s now jti fresh refresh p)
        ≡ rejected wrong_kind
  unfolding decode_token claims_of
  decode_token_kind now later jti fresh p h k =
      rw (decode-create now later jti fresh refresh p h k) refl

  -- An access token that was made for a principal is verified, until it expires, to one with the same
  -- identity, tenant, scope and permissions, where the principal is not both of the platform and of a
  -- tenant; and a refresh token that was made for it is refused as an access token until it expires.
  pub decode_token-create_token :
      (now later later' : ℕ) (jti jti' fresh : Text) (p : Principal)
      → one_scope p ≡ true
      → now ≤ later
      → later < (now + expires_in s access) / second * second
      → now ≤ later'
      → later' < (now + expires_in s refresh) / second * second
      → ((q : Principal) × (decode_token jwt later access
              (create_token jwt s now jti fresh access p)
            ≡ verified q)
          × IsSame p q)
        × (decode_token jwt later' access (create_token jwt s now jti' fresh refresh p)
            ≡ rejected wrong_kind)
  decode_token-create_token now later later' jti jti' fresh p o h k h' k' = (
    (
      with_claims fresh p,
      decode_token-access now later jti fresh p o h k,
      with_claims-IsSame fresh p,
    ),
    decode_token_kind now later' jti' fresh p h' k',
  )
