-- ===== src/Auth/Roles.antt =====
-- The tenants of the role assignments in `resolve_permissions` of
-- services/configuration-api/app/services/auth_service.py.
use live_kit_voice_agent.Prelude.{ℕ, ◌≡◌, refl, ap, ◌∙◌, Option, List, [], ◌∷◌, if◌then◌else◌}
use live_kit_voice_agent.Prelude.Text.{Text}
use live_kit_voice_agent.Auth.Accounts.{
  RoleRow, User, row_counts, add_code, role_names, permission_codes, principal_for,
}

-- The same assignments, made in another tenant.
abbrev pub assign_to : Option ℕ → List RoleRow → List RoleRow
assign_to t [] = []
assign_to t (r ∷ rs) = record r { tenant_id = t } ∷ assign_to t rs

role_names-assign_to :
    (t : Option ℕ) (u : User) (rs : List RoleRow) → role_names u (assign_to t rs) ≡ role_names u rs
role_names-assign_to t u [] = refl
role_names-assign_to t u (r ∷ rs) =
    ap (λ names. if row_counts u r then r.name ∷ names else names) (role_names-assign_to t u rs)

permission_codes-assign_to :
    (t : Option ℕ) (u : User) (rs : List RoleRow)
    → permission_codes u (assign_to t rs) ≡ permission_codes u rs
permission_codes-assign_to t u [] = refl
permission_codes-assign_to t u (r ∷ rs) =
    ap (λ codes. if row_counts u r then add_code r.code codes else codes)
      (permission_codes-assign_to t u rs)

-- The roles and permissions of a user are the same whichever tenant they were assigned in: an
-- assignment in another tenant than the user's counts like one in the user's own.
pub principal_for-assign_to :
    (t : Option ℕ) (session : Option Text) (u : User) (rs : List RoleRow)
    → principal_for (assign_to t rs) session u ≡ principal_for rs session u
unfolding principal_for
principal_for-assign_to t session u rs =
    ap (λ names. record (principal_for (assign_to t rs) session u) { roles = names })
      (role_names-assign_to t u rs)
    ∙ ap (λ codes. record (principal_for rs session u) { permissions = codes })
        (permission_codes-assign_to t u rs)
