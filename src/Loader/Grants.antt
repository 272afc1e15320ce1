-- ===== src/Loader/Grants.antt =====
-- Which permission counts for a tool, and which tools are granted.
use live_kit_voice_agent.Prelude.{
  ℕ, ◌≡◌, refl, ap, ◌∙◌, Bool, true, false, ◌&&◌, Option, none, some, List, [], ◌∷◌, if◌then◌else◌,
  is_some, ◌==◌, coalesce, find, Memᴰ, arith, Bool-cases, inl, inr, ==_iff,
}
use live_kit_voice_agent.Tools.Runtime.{ToolDefinition}
use live_kit_voice_agent.Loader.Tools.{
  Permission, ToolRow, Permissions, permission, set_permission, replaces, add_permissions,
  is_refused, define, grant_tools, load_tools,
}

module _ {V : Type 0} where
  abbrev pub is_for : ℕ → Permission V → Bool
  is_for i p = p.tool_id == i

  -- A permission that names the agent.
  abbrev pub is_own : ℕ → Permission V → Bool
  is_own i p = p.tool_id == i && is_some p.agent_id

  permission-set_permission :
      (m : Permissions V) (i j : ℕ) (p : Permission V)
      → permission (set_permission m i p) j ≡ (if i == j then some p else permission m j)
  permission-set_permission [] i j p = refl
  permission-set_permission ((k, old) ∷ m) i j p =
      let rest = permission-set_permission m i j p in ground (arith, rest)

  -- What the loop makes of the permission of one tool.
  abbrev pub follow : ℕ → Option (Permission V) → List (Permission V) → Option (Permission V)
  follow i o [] = o
  follow i o (p ∷ ps) = if is_for i p && replaces o p then follow i (some p) ps else follow i o ps

  abbrev pub add_permission : Permissions V → Permission V → Permissions V
  add_permission m p =
      if replaces (permission m p.tool_id) p then set_permission m p.tool_id p else m

  permission-add_permission :
      (m : Permissions V) (p : Permission V) (i : ℕ)
      → permission (add_permission m p) i
        ≡ (if is_for i p && replaces (permission m i) p then some p else permission m i)
  permission-add_permission m p i = elim (Bool-cases (is_for i p)) [
    | inl same ↦
        let at : p.tool_id ≡ i = (==_iff p.tool_id i).0 same in
        let here = ap (λ j. replaces (permission m j) p) at in
        let put = permission-set_permission m p.tool_id i p in ground (arith, same, here, put)
    | inr differs ↦
        let put = permission-set_permission m p.tool_id i p in ground (arith, differs, put)
  ]

  permission-add_permissions :
      (m : Permissions V) (ps : List (Permission V)) (i : ℕ)
      → permission (add_permissions m ps) i ≡ follow i (permission m i) ps
  unfolding add_permissions
  permission-add_permissions m [] i = refl
  permission-add_permissions m (p ∷ ps) i =
      let rest = permission-add_permissions (add_permission m p) ps i in
      let step = permission-add_permission m p i in
      let told = ap (λ o. follow i o ps) step in ground (arith, rest, told)

  follow-own :
      (i : ℕ) (o : Permission V) (ps : List (Permission V))
      → is_some o.agent_id ≡ true
      → follow i (some o) ps ≡ some o
  follow-own i o [] h = refl
  follow-own i o (p ∷ ps) h = let rest = follow-own i o ps h in ground (arith, rest)

  follow-some :
      (i : ℕ) (o : Permission V) (ps : List (Permission V))
      → is_some o.agent_id ≡ false
      → follow i (some o) ps ≡ coalesce (find (is_own i) ps) (some o)
  follow-some i o [] h = refl
  follow-some i o (p ∷ ps) h = elim (Bool-cases (is_own i p)) [
    | inl own ↦ let found = follow-own i p ps (ground arith) in ground (arith, own, found, h)
    | inr differs ↦ let rest = follow-some i o ps h in ground (arith, rest, differs, h)
  ]

  follow-none :
      (i : ℕ) (ps : List (Permission V))
      → follow i none ps ≡ coalesce (find (is_own i) ps) (find (is_for i) ps)
  follow-none i [] = refl
  follow-none i (p ∷ ps) = elim (Bool-cases (is_for i p)) [
    | inr differs ↦ let rest = follow-none i ps in ground (arith, differs, rest)
    | inl same ↦ elim (Bool-cases (is_some p.agent_id)) [
      | inl own ↦ let found = follow-own i p ps own in ground (arith, same, own, found)
      | inr every ↦ let found = follow-some i p ps every in ground (arith, same, every, found)
    ]
  ]

  -- The permission that counts for a tool is the first that names the agent, in whatever order the rows
  -- come, and the first for every agent where none does.
  pub permission-coalesce :
      (ps : List (Permission V)) (i : ℕ)
      → permission (add_permissions [] ps) i ≡ coalesce (find (is_own i) ps) (find (is_for i) ps)
  permission-coalesce ps i = permission-add_permissions [] ps i ∙ follow-none i ps

  abbrev pub IsGranted : Permissions V → List ToolRow → ToolDefinition V → Type 0
  IsGranted m rs d =
      (r : ToolRow) × Memᴰ r rs
      × (is_refused (permission m r.id) ≡ false)
      × (d ≡ define r (permission m r.id))

  grant_tools-mem :
      (m : Permissions V) (rs : List ToolRow) (d : ToolDefinition V)
      → Memᴰ d (grant_tools m rs)
      → IsGranted m rs d
  unfolding grant_tools
  grant_tools-mem m [] d k = elim k [ ]
  grant_tools-mem m (r ∷ rs) d k =
      by_refusal (is_refused (permission m r.id)) refl k (grant_tools-mem m rs d)
    where
      by_refusal :
          (b : Bool)
          → is_refused (permission m r.id) ≡ b
          → Memᴰ d (if b then grant_tools m rs else define r (permission m r.id) ∷ grant_tools m rs)
          → (Memᴰ d (grant_tools m rs) → IsGranted m rs d)
          → IsGranted m (r ∷ rs) d
      by_refusal true e j h = let (s, n, kept, f) = h j in (s, Memᴰ.tail n, kept, f)
      by_refusal false e (Memᴰ.head f) h = (r, Memᴰ.head refl, e, f)
      by_refusal false e (Memᴰ.tail j) h = let (s, n, kept, f) = h j in (s, Memᴰ.tail n, kept, f)

  -- A tool is granted only from a row of the version's tools, and not where the permission that counts
  -- for it refuses it.
  pub load_tools-mem :
      (rs : List ToolRow) (ps : List (Permission V)) (d : ToolDefinition V)
      → Memᴰ d (load_tools rs ps)
      → (r : ToolRow) × Memᴰ r rs
        × (is_refused (coalesce (find (is_own r.id) ps) (find (is_for r.id) ps)) ≡ false)
        × (d.name ≡ r.name)
  unfolding load_tools
  load_tools-mem rs ps d k =
      let (r, m, kept, e) = grant_tools-mem (add_permissions [] ps) rs d k in
      (r, m, rw (← permission-coalesce ps r.id) kept, ap (λ x. x.name) e)
