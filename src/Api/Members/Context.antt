-- ===== src/Api/Members/Context.antt =====
-- What a request finds of the member who sent it.
use multi_domain_sandbox.Prelude.{
  String, ◌≡◌, refl, Option, none, some, List, [], ◌∷◌, ◌==◌, Result, ok, err, arith, eq_iff,
  Bool-cases, inl, inr, ◌≢◌,
}
use multi_domain_sandbox.Api.Permissions.{Member, ServiceDefinition, resolve_permissions}
use multi_domain_sandbox.Api.MemberRepository
use multi_domain_sandbox.Api.MemberRepository.{
  MemoryMemberRepository, MemberWithOverrides, key, get_row, set_row, delete_row,
}
use multi_domain_sandbox.Api.Members.{
  AuthAdminError, AccessTokenClaims, TenantContext, removed, remove_found, remove_member,
  create_default_member, found_or_default, resolve_member, is_missing,
}

get_row-delete_row :
    (k : String) (rows : List (String × Member)) → get_row k (delete_row k rows) ≡ none
unfolding get_row delete_row
get_row-delete_row k [] = refl
get_row-delete_row k ((j, m) ∷ rows) = ground (arith, get_row-delete_row k rows)

find-remove :
    (r : MemoryMemberRepository) (tenant_id user_id : String)
    → MemberRepository.find_with_overrides
        (MemberRepository.remove r tenant_id user_id)
        tenant_id
        user_id
      ≡ none
unfolding MemberRepository.find_with_overrides MemberRepository.remove MemberRepository.find
find-remove r tenant_id user_id =
    ground (arith, get_row-delete_row (key tenant_id user_id) r.members)

removed_ok :
    (r : MemoryMemberRepository) (tenant_id user_id : String)
    (revoked : Result (Unit {0}) AuthAdminError)
    → (removed r tenant_id user_id revoked).0 ≡ ok tt
    → (removed r tenant_id user_id revoked).1 ≡ MemberRepository.remove r tenant_id user_id
unfolding removed
removed_ok r tenant_id user_id (ok x) p = refl
removed_ok r tenant_id user_id (err error) p = elim (Bool-cases (is_missing error)) [
  | inl missing ↦ rw missing refl
  | inr other ↦ let q = rw other at p in cc
]

remove_found_ok :
    (r : MemoryMemberRepository) (tenant_id user_id : String)
    (revoked : Result (Unit {0}) AuthAdminError) (found : Option Member)
    → (remove_found r tenant_id user_id revoked found).0 ≡ ok tt
    → (remove_found r tenant_id user_id revoked found).1
      ≡ MemberRepository.remove r tenant_id user_id
unfolding remove_found
remove_found_ok r tenant_id user_id revoked none p = cc
remove_found_ok r tenant_id user_id revoked (some m) p = removed_ok r tenant_id user_id revoked p

remove_member_ok :
    (r : MemoryMemberRepository) (tenant_id actor_user_id user_id : String)
    (revoked : Result (Unit {0}) AuthAdminError)
    → (remove_member r tenant_id actor_user_id user_id revoked).0 ≡ ok tt
    → (user_id ≢ actor_user_id)
      × ((remove_member r tenant_id actor_user_id user_id revoked).1
          ≡ MemberRepository.remove r tenant_id user_id)
unfolding remove_member
remove_member_ok r tenant_id actor_user_id user_id revoked p =
    elim (Bool-cases (user_id == actor_user_id)) [
      | inl self ↦ let q = rw self at p in cc
      | inr other ↦ (
        λ same. ground (arith, other, eq_iff user_id actor_user_id, same),
        rw other (remove_found_ok r tenant_id user_id revoked _ (rw other at p)),
      )
    ]

-- The permissions of a context, where there is one.
abbrev pub permissions_of : Option TenantContext → Option (List String)
permissions_of none = none
permissions_of (some c) = some c.permissions

-- If a member is removed, it was not by themselves, and a request that still shows a valid token
-- of theirs is then served with exactly the permissions of the service's default role, whatever
-- role and overrides they had.
pub remove_member-resolve_member :
    (definition : ServiceDefinition) (r : MemoryMemberRepository)
    (tenant_id actor_user_id user_id : String) (revoked : Result (Unit {0}) AuthAdminError)
    (claims : AccessTokenClaims)
    → (remove_member r tenant_id actor_user_id user_id revoked).0 ≡ ok tt
    → claims.tenant_id ≡ tenant_id
    → claims.user_id ≡ user_id
    → (user_id ≢ actor_user_id)
      × (permissions_of
            (resolve_member definition
              (remove_member r tenant_id actor_user_id user_id revoked).1
              claims).0
          ≡ some (resolve_permissions definition definition.default_role []))
unfolding resolve_member found_or_default create_default_member MemberRepository.upsert
remove_member-resolve_member definition r tenant_id actor_user_id user_id revoked claims p t u =
    let (other, now) = remove_member_ok r tenant_id actor_user_id user_id revoked p in
    (other, rw (now, t, u, find-remove r tenant_id user_id) refl)
