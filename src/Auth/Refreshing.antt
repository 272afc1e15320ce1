-- ===== src/Auth/Refreshing.antt =====
-- What a refresh token is exchanged for: services/configuration-api/app/services/auth_service.py.
use live_kit_voice_agent.Prelude.{
  ℕ, ◌≡◌, refl, ap, ◌∙◌, Bool, true, false, not, ◌&&◌, Option, none, some, List, [], ◌∷◌,
  if◌then◌else◌, find, ◌==◌,
}
use live_kit_voice_agent.Prelude.Text.{Text}
use live_kit_voice_agent.Auth.Tokens.{
  Principal, refresh, Jwt, Settings, Verified, verified, rejected, decode_token, session_or,
}
use live_kit_voice_agent.Auth.Accounts.{
  RoleRow, User, Accounts, is_user, principal_for, update_user, revoke, revoke_sessions, fails,
  returns, invalid_credentials, role_names, permission_codes, row_counts, scope_counts, RoleScope,
  platform, tenant, add_code, Draws, issue, refresh_for, refresh_pair, refresh_verified,
  refresh_tokens,
}

abbrev revoked_row : ℕ → ℕ → Option User → Option User
revoked_row i now none = none
revoked_row i now (some u) = some (if is_user i u then revoke now u else u)

revoked_id :
    (b : Bool) (j now : ℕ) (u : User) → is_user j (if b then revoke now u else u) ≡ is_user j u
revoked_id true j now u = refl
revoked_id false j now u = refl

if_revoked :
    (c : Bool) (i now : ℕ) (u : User) (o : Option User)
    → (if c then some (if is_user i u then revoke now u else u) else revoked_row i now o)
      ≡ revoked_row i now (if c then some u else o)
if_revoked true i now u o = refl
if_revoked false i now u o = refl

find-update_user :
    (i j now : ℕ) (us : List User)
    → find (is_user j) (update_user i (revoke now) us) ≡ revoked_row i now (find (is_user j) us)
unfolding update_user
find-update_user i j now [] = refl
find-update_user i j now (u ∷ us) =
    let v = if is_user i u then revoke now u else u in
    let later = find (is_user j) (update_user i (revoke now) us) in
    ap (λ c. if c then some v else later) (revoked_id (is_user i u) j now u)
    ∙ (ap (λ o. if is_user j u then some v else o) (find-update_user i j now us)
        ∙ if_revoked (is_user j u) i now u (find (is_user j) us))

scope_counts-revoke :
    (scope : RoleScope) (now : ℕ) (u : User)
    → scope_counts scope (revoke now u) ≡ scope_counts scope u
scope_counts-revoke platform now u = refl
scope_counts-revoke tenant now u = refl

row_counts-revoke :
    (now : ℕ) (u : User) (r : RoleRow) → row_counts (revoke now u) r ≡ row_counts u r
row_counts-revoke now u r = ap (λ b. r.user_id == u.id && b) (scope_counts-revoke r.scope now u)

role_names-revoke :
    (now : ℕ) (u : User) (rs : List RoleRow) → role_names (revoke now u) rs ≡ role_names u rs
role_names-revoke now u [] = refl
role_names-revoke now u (r ∷ rs) =
    let rest = role_names (revoke now u) rs in
    ap (λ b. if b then r.name ∷ rest else rest) (row_counts-revoke now u r)
    ∙ ap (λ names. if row_counts u r then r.name ∷ names else names) (role_names-revoke now u rs)

permission_codes-revoke :
    (now : ℕ) (u : User) (rs : List RoleRow)
    → permission_codes (revoke now u) rs ≡ permission_codes u rs
permission_codes-revoke now u [] = refl
permission_codes-revoke now u (r ∷ rs) =
    let rest = permission_codes (revoke now u) rs in
    ap (λ b. if b then add_code r.code rest else rest) (row_counts-revoke now u r)
    ∙ ap (λ codes. if row_counts u r then add_code r.code codes else codes)
        (permission_codes-revoke now u rs)

principal_for-revoke :
    (now : ℕ) (rs : List RoleRow) (session : Option Text) (u : User)
    → principal_for rs session (revoke now u) ≡ principal_for rs session u
unfolding principal_for
principal_for-revoke now rs session u =
    ap (λ names. record (principal_for rs session (revoke now u)) { roles = names })
      (role_names-revoke now u rs)
    ∙ ap (λ codes. record (principal_for rs session u) { permissions = codes })
        (permission_codes-revoke now u rs)

module _ {T : Type 0} (jwt : Jwt T) (s : Settings) (draws : Draws jwt s) where
  refresh_one :
      (b : Bool) (later now : ℕ) (rs : List RoleRow) (p : Principal) (u : User)
      → refresh_for jwt s later draws rs p (some (if b then revoke now u else u))
        ≡ refresh_for jwt s later draws rs p (some u)
  refresh_one false later now rs p u = refl
  refresh_one true later now rs p u =
      ap
        (λ q.
          if not u.is_active
          then fails invalid_credentials
          else returns (issue jwt s later draws q))
        (principal_for-revoke now rs (some (session_or p.session_id draws.session)) u)

  refresh_for-revoke :
      (later i now : ℕ) (rs : List RoleRow) (p : Principal) (o : Option User)
      → refresh_for jwt s later draws rs p (revoked_row i now o)
        ≡ refresh_for jwt s later draws rs p o
  refresh_for-revoke later i now rs p none = refl
  refresh_for-revoke later i now rs p (some u) = refresh_one (is_user i u) later now rs p u

  refresh_verified-revoke :
      (later i now : ℕ) (a : Accounts) (v : Verified)
      → refresh_verified jwt s later draws (revoke_sessions now i a) v
        ≡ refresh_verified jwt s later draws a v
  unfolding refresh_pair revoke_sessions
  refresh_verified-revoke later i now a (rejected e) = refl
  refresh_verified-revoke later i now a (verified p) =
      ap (refresh_for jwt s later draws a.role_rows p) (find-update_user i p.user_id now a.users)
      ∙ refresh_for-revoke later i now a.role_rows p (find (is_user p.user_id) a.users)

  -- The revocation of a user's sessions has no bearing on what any refresh token is exchanged for:
  -- one that was issued before is still exchanged for a new pair.
  pub refresh_tokens-revoke_sessions :
      (later i now : ℕ) (a : Accounts) (token : T)
      → refresh_tokens jwt s later draws (revoke_sessions now i a) token
        ≡ refresh_tokens jwt s later draws a token
  unfolding refresh_tokens
  refresh_tokens-revoke_sessions later i now a token =
      refresh_verified-revoke later i now a (decode_token jwt later refresh token)
