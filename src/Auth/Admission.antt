-- ===== src/Auth/Admission.antt =====
-- Whom `get_principal` of services/configuration-api/app/core/dependencies.py admits, and what the
-- revocation of sessions changes.
use mathlib.Core.Path.{subst}
use live_kit_voice_agent.Prelude.{
  ℕ, ◌<◌, ◌≡◌, ◌≢◌, refl, ap, sym, ◌∙◌, Bool, true, false, Option, none, some, List, [], ◌∷◌,
  if◌then◌else◌, find, ◌==◌, Memᴰ, arith, Bool-cases, inl, inr, ==_iff,
}
use live_kit_voice_agent.Prelude.Finding.{find-mem, find-passes}
use live_kit_voice_agent.Auth.Tokens.{
  Principal, access, Jwt, Verified, verified, rejected, decode_token, token_issued_at,
}
use live_kit_voice_agent.Auth.Accounts.{
  User, Accounts, is_user, update_user, revoke, revoke_sessions,
}
use live_kit_voice_agent.Auth.Requests.{
  authenticated, same_tenant, same_bool, is_revoked, check_user, check_verified, get_principal,
}

-- What the user's row says of an admitted principal.
pub record IsAdmitted (users : List User) (issued : Option ℕ) (p : Principal) : Type 0 where
  pub user : User
  pub mem : Memᴰ user users
  pub id : user.id ≡ p.user_id
  pub active : user.is_active ≡ true
  pub current : is_revoked user.tokens_valid_from issued ≡ false
  pub tenant_id : user.tenant_id ≡ p.tenant_id
  pub is_platform_user : user.is_platform_user ≡ p.is_platform_user

same_tenant_eq : (s t : Option ℕ) → same_tenant s t ≡ true → s ≡ t
same_tenant_eq none none h = refl
same_tenant_eq none (some j) h = absurd (ground arith)
same_tenant_eq (some i) none h = absurd (ground arith)
same_tenant_eq (some i) (some j) h = ap some ((==_iff i j).0 h)

same_bool_eq : (b c : Bool) → same_bool b c ≡ true → b ≡ c
same_bool_eq true true h = refl
same_bool_eq true false h = absurd (ground arith)
same_bool_eq false true h = absurd (ground arith)
same_bool_eq false false h = refl

check_user-IsAdmitted :
    (users : List User) (issued : Option ℕ) (p q : Principal) (o : Option User)
    → find (is_user p.user_id) users ≡ o
    → check_user issued p o ≡ authenticated q
    → (p ≡ q) × IsAdmitted users issued p
check_user-IsAdmitted users issued p q none f h = absurd (ground arith)
check_user-IsAdmitted users issued p q (some u) f h = (
  ground arith,
  record {
    user = u;
    mem = find-mem (is_user p.user_id) users f;
    id = (==_iff u.id p.user_id).0 (find-passes (is_user p.user_id) users f);
    active = ground arith;
    current = ground arith;
    tenant_id = same_tenant_eq u.tenant_id p.tenant_id (ground arith);
    is_platform_user = same_bool_eq u.is_platform_user p.is_platform_user (ground arith);
  },
)

check_verified-IsAdmitted :
    (users : List User) (issued : Option ℕ) (v : Verified) (q : Principal)
    → check_verified issued users v ≡ authenticated q
    → (v ≡ verified q) × IsAdmitted users issued q
check_verified-IsAdmitted users issued (rejected e) q h = absurd (ground arith)
check_verified-IsAdmitted users issued (verified p) q h =
    let (same, admitted) =
      check_user-IsAdmitted users issued p q (find (is_user p.user_id) users) refl h in
    (ap verified same, subst (IsAdmitted users issued) same admitted)

module _ {T : Type 0} (jwt : Jwt T) where
  -- A request is admitted only with a token that is verified as an access token, for a user who
  -- exists and is active, whose sessions have not been revoked since the token was issued, and who is
  -- still of the tenant and the scope that the token names.
  pub get_principal-IsAdmitted :
      (now : ℕ) (users : List User) (token : T) (p : Principal)
      → get_principal jwt now users (some token) ≡ authenticated p
      → (decode_token jwt now access token ≡ verified p)
        × IsAdmitted users (token_issued_at jwt token) p
  unfolding get_principal
  get_principal-IsAdmitted now users token p h =
      check_verified-IsAdmitted users (token_issued_at jwt token)
        (decode_token jwt now access token) p h

updated-mem :
    (i now : ℕ) (us : List User) {v : User}
    → Memᴰ v (update_user i (revoke now) us)
    → v.id ≡ i
    → v.tokens_valid_from ≡ some now
unfolding update_user
updated-mem i now [] m e = elim m [ ]
updated-mem i now (u ∷ us) (Memᴰ.tail m) e = updated-mem i now us m e
updated-mem i now (u ∷ us) {v} (Memᴰ.head k) e = elim (Bool-cases (u.id == i)) [
  | inl f ↦
      let same : v ≡ revoke now u = k ∙ ap (λ b. if b then revoke now u else u) f in
      ap (λ t. t.tokens_valid_from) same
  | inr f ↦
      let same : v ≡ u = k ∙ ap (λ b. if b then revoke now u else u) f in
      let id = ap (λ t. t.id) same in absurd (ground (arith, f, id, e))
]

module _ {T : Type 0} (jwt : Jwt T) (now i : ℕ) (a : Accounts) where
  -- After the sessions of a user are revoked, a token that was issued before that time admits the user
  -- to no request.
  pub get_principal-revoke_sessions :
      (later issued : ℕ) (token : T) (p : Principal)
      → token_issued_at jwt token ≡ some issued
      → issued < now
      → get_principal jwt later (revoke_sessions now i a).users (some token) ≡ authenticated p
      → p.user_id ≢ i
  unfolding revoke_sessions
  get_principal-revoke_sessions later issued token p h k g e =
      let (v, admitted) =
        get_principal-IsAdmitted jwt later (revoke_sessions now i a).users token p g in
      let from = updated-mem i now a.users admitted.mem (admitted.id ∙ e) in
      let current = admitted.current in
      let told : is_revoked (some now) (some issued) ≡ false =
        ap (λ o. is_revoked (some now) o) (sym h)
        ∙ (ap (λ o. is_revoked o (token_issued_at jwt token)) (sym from) ∙ current) in
      ground (arith, told, k)
