-- ===== src/Services/Table/Tenants.antt =====
-- One tenant's changes are invisible to another.
use multi_domain_sandbox.Prelude.{
  String, ◌≡◌, ◌≢◌, refl, ◌∙◌, ap, arith, Option, none, some, true, false, List, [], ◌∷◌, ◌==◌,
  eq_iff, if◌then◌else◌, Bool-cases, Option-cases, inl, inr,
}
use multi_domain_sandbox.Services.Table.{
  Keys, row, set, delete, list, of_tenant, find_by_id, replaced, update, removed, remove,
}

module _ {ℓ} {T : Type ℓ} (keys : Keys T) (tenant_id other : String)
    (apart : tenant_id ≢ other) where
  found_tenant :
      (o : Option T) (x : T)
      → of_tenant keys tenant_id o ≡ some x
      → (o ≡ some x) × ((keys.tenant_of x == other) ≡ false)
  found_tenant none x h = ground arith
  found_tenant (some y) x h =
      let same : y ≡ x = ground arith in
      let own : (keys.tenant_of y == tenant_id) ≡ true = ground arith in
      (
        ap some same,
        rw (← same)
            (ground (arith, eq_iff (keys.tenant_of y) tenant_id, eq_iff (keys.tenant_of y) other)),
      )

  row-id : (id : String) (rows : List T) (x : T) → row keys id rows ≡ some x → keys.id_of x ≡ id
  unfolding row
  row-id id [] x h = ground arith
  row-id id (y ∷ ys) x h = elim (Bool-cases (keys.id_of y == id)) [
    | inl e ↦
        let same : y ≡ x = ground arith in rw (← same) (ground (arith, eq_iff (keys.id_of y) id))
    | inr e ↦ row-id id ys x (ground arith)
  ]

  list-set :
      (id : String) (old new : T) (rows : List T)
      → row keys id rows ≡ some old
      → keys.id_of new ≡ id
      → (keys.tenant_of old == other) ≡ false
      → (keys.tenant_of new == other) ≡ false
      → list keys other (set keys new rows) ≡ list keys other rows
  unfolding row set list
  list-set id old new [] r n a b = ground arith
  list-set id old new (y ∷ ys) r n a b = elim (Bool-cases (keys.id_of y == id)) [
    | inl e ↦
        let same : y ≡ old = ground arith in
        let gone : (keys.tenant_of y == other) ≡ false = rw same a in rw (n, e, b, gone) refl
    | inr e ↦
        let rest = list-set id old new ys (ground arith) n a b in
        let elsewhere : (keys.id_of y == keys.id_of new) ≡ false = rw n e in
        rw elsewhere (ap (λ x. if keys.tenant_of y == other then y ∷ x else x) rest)
  ]

  list-delete :
      (id : String) (old : T) (rows : List T)
      → row keys id rows ≡ some old
      → (keys.tenant_of old == other) ≡ false
      → list keys other (delete keys id rows) ≡ list keys other rows
  unfolding row delete list
  list-delete id old [] r a = ground arith
  list-delete id old (y ∷ ys) r a = elim (Bool-cases (keys.id_of y == id)) [
    | inl e ↦
        let same : y ≡ old = ground arith in
        let gone : (keys.tenant_of y == other) ≡ false = rw same a in rw (e, gone) refl
    | inr e ↦
        let rest = list-delete id old ys (ground arith) a in
        rw e (ap (λ x. if keys.tenant_of y == other then y ∷ x else x) rest)
  ]

  -- A patch that keeps the identifier and the tenant changes nothing that another tenant lists.
  pub list-update :
      (id : String) (patch : T → T) (rows : List T)
      → ((x : T) → keys.id_of (patch x) ≡ keys.id_of x)
      → ((x : T) → keys.tenant_of (patch x) ≡ keys.tenant_of x)
      → list keys other (update keys tenant_id id patch rows).1 ≡ list keys other rows
  unfolding update find_by_id replaced
  list-update id patch rows i t = elim (Option-cases (find_by_id keys tenant_id id rows)) [
    | inl e ↦ rw e refl
    | inr (x, e) ↦
        let (at, foreign) = found_tenant (row keys id rows) x e in
        rw e
          (list-set id x (patch x) rows at (i x ∙ row-id id rows x at) foreign (rw (t x) foreign))
  ]

  pub list-remove :
      (id : String) (rows : List T)
      → list keys other (remove keys tenant_id id rows).1 ≡ list keys other rows
  unfolding remove find_by_id removed
  list-remove id rows = elim (Option-cases (find_by_id keys tenant_id id rows)) [
    | inl e ↦ rw e refl
    | inr (x, e) ↦
        let (at, foreign) = found_tenant (row keys id rows) x e in
        rw e (list-delete id x rows at foreign)
  ]

  pub list-set_new :
      (new : T) (rows : List T)
      → row keys (keys.id_of new) rows ≡ none
      → keys.tenant_of new ≡ tenant_id
      → list keys other (set keys new rows) ≡ list keys other rows
  unfolding row set list
  list-set_new new [] r t =
      let foreign : (keys.tenant_of new == other) ≡ false =
        ground (arith, eq_iff (keys.tenant_of new) other) in
      rw foreign refl
  list-set_new new (y ∷ ys) r t =
      let elsewhere : (keys.id_of y == keys.id_of new) ≡ false = ground arith in
      let rest = list-set_new new ys (ground arith) t in
      rw elsewhere (ap (λ x. if keys.tenant_of y == other then y ∷ x else x) rest)
