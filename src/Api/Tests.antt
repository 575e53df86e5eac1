-- ===== src/Api/Tests.antt =====
-- The theorems on members at a small service.
use multi_domain_sandbox.Prelude.{
  Bool, String, Result, ◌≡◌, ◌≢◌, refl, not, ◌&&◌, ◌||◌, none, some, List, [], ◌∷◌, ok,
}
use multi_domain_sandbox.Shared.Map
use multi_domain_sandbox.Shared.SetStore.{contains}
use multi_domain_sandbox.Api.Permissions.{
  Member, MemberStatus, PermissionOverride, PermissionEffect, ServiceDefinition, or_empty,
  is_permission, resolve_permissions,
}
use multi_domain_sandbox.Api.Permissions.Laws.{allows, denies, contains-resolve_permissions}
use multi_domain_sandbox.Api.MemberRepository
use multi_domain_sandbox.Api.MemberRepository.{MemoryMemberRepository}
use multi_domain_sandbox.Api.Members.{
  AccessTokenClaims, TenantContext, remove_member, resolve_member,
}
use multi_domain_sandbox.Api.Members.Context.{permissions_of, remove_member-resolve_member}
use multi_domain_sandbox.Shared.Jwks.{Jwk, JwksError, VerifyError}
use multi_domain_sandbox.Api.TenantContext.{AccessTokenPayload, resolve_tenant_context}
use multi_domain_sandbox.Api.TenantContext.Authorized.{
  Authorized, resolve_tenant_context-Authorized,
}

abbrev definition : ServiceDefinition
definition = record {
  roles = "owner" ∷ "viewer" ∷ [];
  default_role = "viewer";
  permissions = "posts:read" ∷ "posts:write" ∷ [];
  role_permissions =
      Map.insert "viewer" ("posts:read" ∷ []) (Map.insert "owner" ("posts:write" ∷ []) Map.empty);
}

abbrev overrides : List PermissionOverride
overrides =
    record { permission = "posts:write"; effect = PermissionEffect.deny }
    ∷ record { permission = "posts:write"; effect = PermissionEffect.allow }
    ∷ []

contains-resolve_permissions_example :
    contains "posts:write" (resolve_permissions definition "viewer" overrides) ≡ (
      (contains "posts:write" (or_empty (definition.role_permissions "viewer"))
        || (allows "posts:write" overrides && is_permission definition "posts:write"))
      && not (denies "posts:write" overrides))
contains-resolve_permissions_example =
    contains-resolve_permissions definition "posts:write" "viewer" overrides

abbrev bob : Member
bob = record {
  tenant_id = "t";
  user_id = "bob";
  email = none;
  name = none;
  role = "owner";
  status = MemberStatus.disabled;
}

abbrev members : MemoryMemberRepository
members = record {
  members = ("t:bob", bob) ∷ [];
  overrides = Map.insert "t:bob" overrides Map.empty;
}

abbrev claims : AccessTokenClaims
claims = record { user_id = "bob"; tenant_id = "t"; tenant_slug = "acme"; client_id = "cms" }

remove_member-resolve_member_example :
    (claims.user_id ≢ "ann")
    × (permissions_of
          (resolve_member definition (remove_member members "t" "ann" "bob" (ok tt)).1 claims).0
        ≡ some (resolve_permissions definition "viewer" []))
unfolding remove_member MemberRepository.find MemberRepository.get_row MemberRepository.key
remove_member-resolve_member_example =
    remove_member-resolve_member definition members "t" "ann" "bob" (ok tt) claims refl refl refl

abbrev ann : Member
ann = record bob { user_id = "ann"; status = MemberStatus.active }

abbrev staff : MemoryMemberRepository
staff = record { members = ("t:ann", ann) ∷ []; overrides = Map.empty }

abbrev payload : AccessTokenPayload
payload = record {
  sub = some "ann";
  tenant_id = some "t";
  tenant_slug = some "acme";
  sid = some "s";
  client_id = some "cms";
}

abbrev keys : List Jwk
keys = record { kid = some "k1"; material = "a" } ∷ []

-- One key that is always there.
abbrev get_keys : Bool → Unit {0} → Result (List Jwk) JwksError × Unit {0}
get_keys force s = (ok keys, s)

abbrev check : String → List Jwk → Result AccessTokenPayload VerifyError
check token used = ok payload

abbrev context : TenantContext
context = record {
  claims = record claims { user_id = "ann" };
  member = ann;
  permissions = resolve_permissions definition "owner" [];
}

resolve_tenant_context-Authorized_example :
    Authorized get_keys
      (λ token. some "k1")
      check
      (λ host. host)
      "cms.example"
      definition
      "cms.example"
      (some "Bearer token")
      tt
      staff
      context
unfolding resolve_tenant_context multi_domain_sandbox.Shared.OidcProtocol.read_bearer_token
    multi_domain_sandbox.Shared.Strings.strip
    multi_domain_sandbox.Api.TenantContext.verify_access_token
    multi_domain_sandbox.Shared.Jwks.verify_jwt_with_source multi_domain_sandbox.Shared.Jwks.has_kid
    resolve_member MemberRepository.find_with_overrides MemberRepository.find
    MemberRepository.get_row MemberRepository.key
resolve_tenant_context-Authorized_example =
    resolve_tenant_context-Authorized get_keys (λ token. some "k1") check (λ host. host)
      "cms.example" definition "cms.example" (some "Bearer token") tt staff context refl
