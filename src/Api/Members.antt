-- ===== src/Api/Members.antt =====
-- packages/api-core/src/application: members.ts, and the last steps of resolve-tenant-context.ts.
-- The answer of the administration API of apps/auth-api is an argument.
pub mod Context
use multi_domain_sandbox.Prelude.{
  String, Bool, true, false, Option, none, some, List, [], ◌==◌, Result, ok, err, if◌then◌else◌,
}
use multi_domain_sandbox.Api.Permissions.{
  Member, MemberStatus, PermissionOverride, ServiceDefinition, resolve_permissions,
}
use multi_domain_sandbox.Api.MemberRepository
use multi_domain_sandbox.Api.MemberRepository.{MemoryMemberRepository, MemberWithOverrides}

pub record InvitedUser : Type 0 where
  pub user_id : String
  pub email : String
  pub name : Option String
  pub linked : Bool

pub data AuthAdminError : Type 0 where
  tenant_not_found not_contracted user_not_found : AuthAdminError
  unavailable : String → AuthAdminError

pub data MemberError : Type 0 where
  not_found cannot_remove_self : MemberError
  auth_admin : AuthAdminError → MemberError

pub record MemberDetail : Type 0 where
  pub found : MemberWithOverrides
  pub permissions : List String

pub record AccessTokenClaims : Type 0 where
  pub user_id : String
  pub tenant_id : String
  pub tenant_slug : String
  pub client_id : String

pub record TenantContext : Type 0 where
  pub claims : AccessTokenClaims
  pub member : Member
  pub permissions : List String

abbrev Repo : Type 0
Repo = MemoryMemberRepository

abbrev pub is_active : MemberStatus → Bool
is_active MemberStatus.active = true
is_active MemberStatus.disabled = false

abbrev is_missing : AuthAdminError → Bool
is_missing AuthAdminError.user_not_found = true
is_missing AuthAdminError.tenant_not_found = false
is_missing AuthAdminError.not_contracted = false
is_missing (AuthAdminError.unavailable reason) = false

detail : ServiceDefinition → Option MemberWithOverrides → Result MemberDetail MemberError
detail definition none = err not_found
detail definition (some found) = ok (record {
  found = found;
  permissions = resolve_permissions definition found.member.role found.overrides;
})

unfoldable pub get_member_detail :
    ServiceDefinition → Repo → String → String → Result MemberDetail MemberError
unfolding detail
get_member_detail definition r tenant_id user_id =
    detail definition (MemberRepository.find_with_overrides r tenant_id user_id)

unfoldable pub invite_member :
    Repo
    → String
    → String
    → Result InvitedUser AuthAdminError
    → Result (Member × Bool) MemberError × Repo
invite_member r tenant_id role (err error) = (err (auth_admin error), r)
invite_member r tenant_id role (ok invited) =
    let (member, r') = MemberRepository.upsert r (record {
      tenant_id = tenant_id;
      user_id = invited.user_id;
      email = some invited.email;
      name = invited.name;
      role = role;
      status = MemberStatus.active;
    }) in
    (ok (member, invited.linked), r')

change_role : Repo → String → Option Member → Result Member MemberError × Repo
change_role r role none = (err not_found, r)
change_role r role (some existing) =
    let (member, r') = MemberRepository.upsert r (record existing { role = role }) in
    (ok member, r')

unfoldable pub change_member_role :
    Repo → String → String → String → Result Member MemberError × Repo
unfolding change_role
change_member_role r tenant_id user_id role =
    change_role r role (MemberRepository.find r tenant_id user_id)

replace_for :
    ServiceDefinition
    → Repo
    → String
    → List PermissionOverride
    → Option Member
    → Result (List PermissionOverride × List String) MemberError × Repo
replace_for definition r tenant_id overrides none = (err not_found, r)
replace_for definition r tenant_id overrides (some existing) = (
  ok (overrides, resolve_permissions definition existing.role overrides),
  MemberRepository.replace_overrides r tenant_id existing.user_id overrides,
)

unfoldable pub replace_member_overrides :
    ServiceDefinition
    → Repo
    → String
    → String
    → List PermissionOverride
    → Result (List PermissionOverride × List String) MemberError × Repo
unfolding replace_for
replace_member_overrides definition r tenant_id user_id overrides =
    replace_for definition r tenant_id overrides (MemberRepository.find r tenant_id user_id)

-- `revoked` is the answer of `authAdmin.revoke`.
removed :
    Repo → String → String → Result (Unit {0}) AuthAdminError → Result (Unit {0}) MemberError × Repo
removed r tenant_id user_id (ok _) = (ok tt, MemberRepository.remove r tenant_id user_id)
removed r tenant_id user_id (err error) =
    if is_missing error
    then (ok tt, MemberRepository.remove r tenant_id user_id)
    else (err (auth_admin error), r)

remove_found :
    Repo
    → String
    → String
    → Result (Unit {0}) AuthAdminError
    → Option Member
    → Result (Unit {0}) MemberError × Repo
unfolding removed
remove_found r tenant_id user_id revoked none = (err not_found, r)
remove_found r tenant_id user_id revoked (some existing) = removed r tenant_id user_id revoked

unfoldable pub remove_member :
    Repo
    → String
    → String
    → String
    → Result (Unit {0}) AuthAdminError
    → Result (Unit {0}) MemberError × Repo
unfolding remove_found
remove_member r tenant_id actor_user_id user_id revoked =
    if user_id == actor_user_id
    then (err cannot_remove_self, r)
    else remove_found r tenant_id user_id revoked (MemberRepository.find r tenant_id user_id)

unfoldable pub create_default_member :
    ServiceDefinition → Repo → String → String → MemberWithOverrides × Repo
create_default_member definition r tenant_id user_id =
    let (member, r') = MemberRepository.upsert r (record {
      tenant_id = tenant_id;
      user_id = user_id;
      email = none;
      name = none;
      role = definition.default_role;
      status = MemberStatus.active;
    }) in
    (record { member = member; overrides = [] }, r')

unfoldable pub found_or_default :
    ServiceDefinition
    → Repo
    → String
    → String
    → Option MemberWithOverrides
    → MemberWithOverrides × Repo
found_or_default definition r tenant_id user_id (some found) = (found, r)
found_or_default definition r tenant_id user_id none =
    create_default_member definition r tenant_id user_id

-- `none` is `member_disabled`; the host and the token have been checked before.
unfoldable pub resolve_member :
    ServiceDefinition → Repo → AccessTokenClaims → Option TenantContext × Repo
unfolding found_or_default
resolve_member definition r claims =
    let (found, r') =
      found_or_default definition r claims.tenant_id claims.user_id
        (MemberRepository.find_with_overrides r claims.tenant_id claims.user_id) in
    (
      (if is_active found.member.status
          then some (record {
            claims = claims;
            member = found.member;
            permissions = resolve_permissions definition found.member.role found.overrides;
          })
          else none),
      r',
    )
