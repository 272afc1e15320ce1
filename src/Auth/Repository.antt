-- ===== src/Auth/Repository.antt =====
-- `TenantRepository` of services/configuration-api/app/db/repository.py, on the rows of one table that
-- belongs to the tenants.
use live_kit_voice_agent.Prelude.{
  ℕ, Bool, false, not, ◌&&◌, Option, none, some, List, [], ◌∷◌, if◌then◌else◌, find, ◌==◌, length,
  take, drop, is_some, any,
}

abbrev pub is_foreign : ℕ → Option ℕ → Bool
is_foreign t none = false
is_foreign t (some u) = not (u == t)

module _ (V : Type 0) where
  pub record Row : Type 0 where
    pub id : ℕ
    pub tenant_id : ℕ
    pub value : V

  -- A row that a handler builds, whose tenant it may have set.
  pub record Draft : Type 0 where
    pub id : ℕ
    pub tenant_id : Option ℕ
    pub value : V

module _ {V : Type 0} where
  abbrev pub belongs : ℕ → Row V → Bool
  belongs t r = r.tenant_id == t

  abbrev pub is_row : ℕ → Row V → Bool
  is_row i r = r.id == i

  -- `scoped`
  unfoldable pub scoped : ℕ → List (Row V) → List (Row V)
  scoped t [] = []
  scoped t (r ∷ rs) = if belongs t r then r ∷ scoped t rs else scoped t rs

  -- `get`
  unfoldable pub get : ℕ → ℕ → List (Row V) → Option (Row V)
  unfolding scoped
  get t i rows = find (is_row i) (scoped t rows)

  -- `list`, in an order that is given.
  unfoldable pub list : (List (Row V) → List (Row V)) → ℕ → ℕ → ℕ → List (Row V) → List (Row V)
  unfolding scoped
  list order t limit offset rows = take limit (drop offset (order (scoped t rows)))

  -- `count`
  unfoldable pub count : ℕ → List (Row V) → ℕ
  unfolding scoped
  count t rows = length (scoped t rows)

  -- `exists`
  abbrev pub exists : ℕ → ℕ → List (Row V) → Bool
  exists t i rows = is_some (get t i rows)

  -- `add`, which raises where the draft names another tenant.
  unfoldable pub add : ℕ → Draft V → List (Row V) → Option (List (Row V))
  add t d rows =
      if is_foreign t d.tenant_id
      then none
      else some (record { id = d.id; tenant_id = t; value = d.value } ∷ rows)

  -- The rows that `delete` leaves.
  unfoldable pub remove : ℕ → ℕ → List (Row V) → List (Row V)
  remove t i [] = []
  remove t i (r ∷ rs) =
      let rest = remove t i rs in if is_row i r && belongs t r then rest else r ∷ rest

  abbrev pub is_own_row : ℕ → ℕ → Row V → Bool
  is_own_row t i r = is_row i r && belongs t r

  -- `delete`, with whether a row was deleted.
  unfoldable pub delete : ℕ → ℕ → List (Row V) → List (Row V) × Bool
  unfolding remove
  delete t i rows = (remove t i rows, any (is_own_row t i) rows)

  -- `assert_owned`
  abbrev pub assert_owned : ℕ → Row V → Bool
  assert_owned t r = belongs t r

module _ (V : Type 0) where
  -- A call of a method of the repository.
  pub data Operation : Type 0 where
    gets : ℕ → Operation
    lists : (List (Row V) → List (Row V)) → ℕ → ℕ → Operation
    counts : Operation
    asks : ℕ → Operation
    adds : Draft V → Operation
    deletes : ℕ → Operation

  -- What the call returns.
  pub data Returned : Type 0 where
    found : Option (Row V) → Returned
    listed : List (Row V) → Returned
    counted : ℕ → Returned
    told : Bool → Returned
    added foreign_tenant : Returned

module _ {V : Type 0} where
  -- An addition that raises changes nothing.
  abbrev pub after_add : Option (List (Row V)) → List (Row V) → Returned V × List (Row V)
  after_add none rows = (foreign_tenant, rows)
  after_add (some new) rows = (added, new)

  unfoldable pub operate : ℕ → Operation V → List (Row V) → Returned V × List (Row V)
  unfolding get list count add delete
  operate t (gets i) rows = (found (get t i rows), rows)
  operate t (lists order limit offset) rows = (listed (list order t limit offset rows), rows)
  operate t counts rows = (counted (count t rows), rows)
  operate t (asks i) rows = (told (exists t i rows), rows)
  operate t (adds d) rows = after_add (add t d rows) rows
  operate t (deletes i) rows = let (kept, gone) = delete t i rows in (told gone, kept)

  -- The calls that a handler makes, one after the other.
  unfoldable pub operate_all :
      ℕ → List (Operation V) → List (Row V) → List (Returned V) × List (Row V)
  unfolding operate
  operate_all t [] rows = ([], rows)
  operate_all t (o ∷ os) rows =
      let (r, next) = operate t o rows in let (rs, last) = operate_all t os next in (r ∷ rs, last)
