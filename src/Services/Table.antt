-- ===== src/Services/Table.antt =====
-- The `Map` of rows by identifier in the in-memory repositories of apps/cms-api and apps/crm-api, in the
-- order of insertion: their `list`, `findById`, `remove` and `rows.set`, which are the same in the two.
pub mod Tenants
use multi_domain_sandbox.Prelude.{
  String, Option, none, some, Bool, true, false, List, [], ◌∷◌, ◌==◌, if◌then◌else◌,
}

-- What the rows of a table have in common.
pub record Keys {ℓ} (T : Type ℓ) : Type ℓ where
  pub id_of : T → String
  pub tenant_of : T → String

module _ {ℓ} {T : Type ℓ} (keys : Keys T) where
  unfoldable pub row : String → List T → Option T
  row id [] = none
  row id (x ∷ xs) = if keys.id_of x == id then some x else row id xs

  -- `Map.set`: in place where the identifier is there, else at the end.
  unfoldable pub set : T → List T → List T
  set x [] = x ∷ []
  set x (y ∷ ys) = let rest = set x ys in if keys.id_of y == keys.id_of x then x ∷ ys else y ∷ rest

  unfoldable pub delete : String → List T → List T
  delete id [] = []
  delete id (y ∷ ys) = let rest = delete id ys in if keys.id_of y == id then ys else y ∷ rest

  unfoldable pub list : String → List T → List T
  list tenant_id [] = []
  list tenant_id (x ∷ xs) =
      let rest = list tenant_id xs in if keys.tenant_of x == tenant_id then x ∷ rest else rest

  -- `found?.tenantId === tenantId ? found : undefined`
  abbrev pub of_tenant : String → Option T → Option T
  of_tenant tenant_id none = none
  of_tenant tenant_id (some x) = if keys.tenant_of x == tenant_id then some x else none

  unfoldable pub find_by_id : String → String → List T → Option T
  unfolding row
  find_by_id tenant_id id rows = of_tenant tenant_id (row id rows)

  replaced : (T → T) → Option T → List T → Option T × List T
  replaced patch none rows = (none, rows)
  replaced patch (some existing) rows = (some (patch existing), set (patch existing) rows)

  -- The row as it is patched, where the tenant has it.
  unfoldable pub update : String → String → (T → T) → List T → Option T × List T
  unfolding replaced
  update tenant_id id patch rows = replaced patch (find_by_id tenant_id id rows) rows

  removed : String → Option T → List T → Bool × List T
  removed id none rows = (false, rows)
  removed id (some existing) rows = (true, delete id rows)

  unfoldable pub remove : String → String → List T → Bool × List T
  unfolding removed
  remove tenant_id id rows = removed id (find_by_id tenant_id id rows) rows
