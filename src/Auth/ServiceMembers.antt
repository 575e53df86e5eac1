-- ===== src/Auth/ServiceMembers.antt =====
-- apps/auth-api/src/application/usecases/service-members.ts: the administration API's use cases.
use multi_domain_sandbox.Prelude.{
  String, Option, none, some, Bool, true, false, Result, ok, err, if◌then◌else◌,
}
use multi_domain_sandbox.Auth.Domain.{
  User, Tenant, OidcClient, Contract, AuditDetail, service_member_invited, service_member_revoked,
  is_active_contract,
}
use multi_domain_sandbox.Auth.Identity
use multi_domain_sandbox.Auth.Identity.{MemoryIdentityRepository}
use multi_domain_sandbox.Auth.GlobalLogout.{revoke_client_access}
use multi_domain_sandbox.Auth.State.{
  Env, Eff, pure, ◌>>=◌, ◌>>◌, gets, on_identity, new_ulid, record_audit, audit_event,
}

pub data ServiceMemberError : Type 0 where
  tenant_not_found not_contracted user_not_found : ServiceMemberError

abbrev contract_of : Tenant → Option Contract → Result String ServiceMemberError
contract_of tenant none = err not_contracted
contract_of tenant (some c) =
    if is_active_contract c.status then ok tenant.id else err not_contracted

contracted_in :
    MemoryIdentityRepository → OidcClient → Option Tenant → Result String ServiceMemberError
contracted_in identity client none = err tenant_not_found
contracted_in identity client (some tenant) =
    contract_of tenant (Identity.find_contract identity tenant.id client.id)

-- The identifier of the tenant, if it has an active contract with the service.
unfoldable pub resolve_contracted_tenant :
    MemoryIdentityRepository → OidcClient → String → Result String ServiceMemberError
unfolding contracted_in
resolve_contracted_tenant identity client tenant_id =
    contracted_in identity client (Identity.find_tenant_by_id identity tenant_id)

abbrev has_sub : Option String → Bool
has_sub none = false
has_sub (some s) = true

module _ (env : Env) where
  -- The user with the address, or a new one without a sub.
  found_or_created : String → Option String → Option User → Eff User
  found_or_created email name (some user) = pure user
  found_or_created email name none = do
    id ← new_ulid env
    identity ← gets (λ s. s.identity)
    let created =
        Identity.create_user identity
          (record { id = id; cognito_sub = none; email = email; name = name })
    on_identity (λ _. created.1)
    pure created.0

  invite_to :
      OidcClient
      → String
      → Option String
      → Result String ServiceMemberError
      → Eff (Result User ServiceMemberError)
  unfolding found_or_created
  invite_to client email name (err error) = pure (err error)
  invite_to client email name (ok tenant_id) = do
    identity ← gets (λ s. s.identity)
    user ←
        found_or_created email name (Identity.find_user_by_email identity env.to_lower_case email)
    on_identity (λ r. Identity.upsert_service_membership r tenant_id client.id user.id)
    record_audit env
        (record (audit_event service_member_invited
          (AuditDetail.linked (has_sub user.cognito_sub))) {
            user_id = some user.id;
            tenant_id = some tenant_id;
            client_id = some client.client_id;
          })
    pure (ok user)

  unfoldable pub invite_service_member :
      OidcClient → String → String → Option String → Eff (Result User ServiceMemberError)
  unfolding invite_to
  invite_service_member client tenant_id email name = do
    identity ← gets (λ s. s.identity)
    invite_to client email name (resolve_contracted_tenant identity client tenant_id)

  revoke_user : OidcClient → String → Option User → Eff (Result (Unit {0}) ServiceMemberError)
  revoke_user client tenant_id none = pure (err user_not_found)
  revoke_user client tenant_id (some user) = do
    on_identity (λ r. Identity.remove_service_membership r tenant_id client.id user.id)
    sessions ← revoke_client_access env user.id client tenant_id
    record_audit env
        (record (audit_event service_member_revoked (AuditDetail.revoked_sessions sessions)) {
          user_id = some user.id;
          tenant_id = some tenant_id;
          client_id = some client.client_id;
        })
    pure (ok tt)

  revoke_in :
      OidcClient
      → String
      → Result String ServiceMemberError
      → Eff (Result (Unit {0}) ServiceMemberError)
  unfolding revoke_user
  revoke_in client user_id (err error) = pure (err error)
  revoke_in client user_id (ok tenant_id) = do
    identity ← gets (λ s. s.identity)
    revoke_user client tenant_id (Identity.find_user_by_id identity user_id)

  unfoldable pub revoke_service_member :
      OidcClient → String → String → Eff (Result (Unit {0}) ServiceMemberError)
  unfolding revoke_in
  revoke_service_member client tenant_id user_id = do
    identity ← gets (λ s. s.identity)
    revoke_in client user_id (resolve_contracted_tenant identity client tenant_id)
