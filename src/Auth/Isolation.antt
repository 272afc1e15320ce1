-- ===== src/Auth/Isolation.antt =====
-- That a request touches the rows of its user's tenant alone.
use live_kit_voice_agent.Prelude.{
  ℕ, ◌≡◌, refl, ◌∙◌, true, false, some, List, [], ◌∷◌, ◌==◌, Memᴰ, arith, Bool-cases, inl, inr,
  ==_iff, sym, ap, find, any, take, drop, length, is_some,
}
use live_kit_voice_agent.Auth.Tokens.{Principal, Jwt}
use live_kit_voice_agent.Auth.Accounts.{User}
use live_kit_voice_agent.Auth.Requests.{authenticated, get_principal, get_tenant_scope}
use live_kit_voice_agent.Auth.Repository.{
  Row, is_row, is_own_row, scoped, get, list, count, is_foreign, add, remove, delete, Operation,
  gets, lists, counts, asks, adds, deletes, Returned, found, listed, counted, told, operate,
  operate_all,
}
use live_kit_voice_agent.Auth.Admission.{get_principal-IsAdmitted}

module _ {V : Type 0} where
  scoped-scoped : (t : ℕ) (rows : List (Row V)) → scoped t (scoped t rows) ≡ scoped t rows
  unfolding scoped
  scoped-scoped t [] = refl
  scoped-scoped t (r ∷ rs) = let rest = scoped-scoped t rs in ground (arith, rest)

  scoped-remove :
      (t u i : ℕ) (rows : List (Row V))
      → (t == u) ≡ false
      → scoped u (remove t i rows) ≡ scoped u rows
  unfolding scoped remove
  scoped-remove t u i [] h = refl
  scoped-remove t u i (r ∷ rs) h = let rest = scoped-remove t u i rs h in ground (arith, rest, h)

  scoped-remove_own :
      (t i : ℕ) (rows : List (Row V)) → scoped t (remove t i rows) ≡ remove t i (scoped t rows)
  unfolding scoped remove
  scoped-remove_own t i [] = refl
  scoped-remove_own t i (r ∷ rs) = let rest = scoped-remove_own t i rs in ground (arith, rest)

  any-scoped :
      (t i : ℕ) (rows : List (Row V))
      → any (is_own_row t i) (scoped t rows) ≡ any (is_own_row t i) rows
  unfolding scoped
  any-scoped t i [] = refl
  any-scoped t i (r ∷ rs) = let rest = any-scoped t i rs in ground (arith, rest)

  scoped-operate :
      (t u : ℕ) (o : Operation V) (rows : List (Row V))
      → (t == u) ≡ false
      → scoped u (operate t o rows).1 ≡ scoped u rows
  unfolding operate scoped add delete
  scoped-operate t u (gets i) rows h = refl
  scoped-operate t u (lists order limit offset) rows h = refl
  scoped-operate t u counts rows h = refl
  scoped-operate t u (asks i) rows h = refl
  scoped-operate t u (adds d) rows h = elim (Bool-cases (is_foreign t d.tenant_id)) [
    | inl e ↦ rw e refl
    | inr e ↦ rw (e, h) refl
  ]
  scoped-operate t u (deletes i) rows h = scoped-remove t u i rows h

  -- Two tables that hold the same rows of the tenant give the same, and hold the same rows then.
  record IsAlike (t : ℕ) (p q : Returned V × List (Row V)) : Type 0 where
    returned : p.0 ≡ q.0
    rows : scoped t p.1 ≡ scoped t q.1

  operate-IsAlike :
      (t : ℕ) (o : Operation V) (xs ys : List (Row V))
      → scoped t xs ≡ scoped t ys
      → IsAlike t (operate t o xs) (operate t o ys)
  unfolding operate get list count add delete scoped
  operate-IsAlike t (gets i) xs ys h = record {
    returned = ap (λ l. found (find (is_row i) l)) h;
    rows = h;
  }
  operate-IsAlike t (lists order limit offset) xs ys h = record {
    returned = ap (λ l. listed (take limit (drop offset (order l)))) h;
    rows = h;
  }
  operate-IsAlike t counts xs ys h = record { returned = ap (λ l. counted (length l)) h; rows = h }
  operate-IsAlike t (asks i) xs ys h = record {
    returned = ap (λ l. told (is_some (find (is_row i) l))) h;
    rows = h;
  }
  operate-IsAlike t (adds d) xs ys h = elim (Bool-cases (is_foreign t d.tenant_id)) [
    | inl e ↦ rw e (record { returned = refl; rows = h })
    | inr e ↦
        let self = (==_iff t t).1 refl in
        rw e (record { returned = refl; rows = ground (arith, h, self) })
  ]
  operate-IsAlike t (deletes i) xs ys h = record {
    returned =
        ap told (sym (any-scoped t i xs) ∙ (ap (any (is_own_row t i)) h ∙ any-scoped t i ys));
    rows = scoped-remove_own t i xs ∙ (ap (remove t i) h ∙ sym (scoped-remove_own t i ys));
  }

  scoped-operate_all :
      (t u : ℕ) (os : List (Operation V)) (rows : List (Row V))
      → (t == u) ≡ false
      → scoped u (operate_all t os rows).1 ≡ scoped u rows
  unfolding operate_all
  scoped-operate_all t u [] rows h = refl
  scoped-operate_all t u (o ∷ os) rows h =
      scoped-operate_all t u os (operate t o rows).1 h ∙ scoped-operate t u o rows h

  operate_all-alike :
      (t : ℕ) (os : List (Operation V)) (xs ys : List (Row V))
      → scoped t xs ≡ scoped t ys
      → (operate_all t os xs).0 ≡ (operate_all t os ys).0
  unfolding operate_all
  operate_all-alike t [] xs ys h = refl
  operate_all-alike t (o ∷ os) xs ys h =
      let here = operate-IsAlike t o xs ys h in
      let rest = operate_all-alike t os (operate t o xs).1 (operate t o ys).1 here.rows in
      let first = here.returned in cc

module _ {T V : Type 0} (jwt : Jwt T) where
  -- The user of an admitted request is active and of the tenant that the request acts within. Whatever
  -- its handler then does through the repository leaves the rows of every other tenant as they were,
  -- and all that the repository returns to it, rows, pages, counts and the rest, is what it would be if
  -- the table held no rows but the tenant's.
  pub get_principal-scoped :
      (now : ℕ) (users : List User) (token : T) (p : Principal) (t u : ℕ) (os : List (Operation V))
      (rows : List (Row V))
      → get_principal jwt now users (some token) ≡ authenticated p
      → get_tenant_scope p ≡ some t
      → (t == u) ≡ false
      → ((user : User) × Memᴰ user users
          × (user.id ≡ p.user_id)
          × (user.is_active ≡ true)
          × (user.tenant_id ≡ some t))
        × (scoped u (operate_all t os rows).1 ≡ scoped u rows)
        × ((operate_all t os rows).0 ≡ (operate_all t os (scoped t rows)).0)
  get_principal-scoped now users token p t u os rows h s k =
      let (verified, a) = get_principal-IsAdmitted jwt now users token p h in
      (
        (a.user, a.mem, a.id, a.active, a.tenant_id ∙ s),
        scoped-operate_all t u os rows k,
        operate_all-alike t os rows (scoped t rows) (sym (scoped-scoped t rows)),
      )
