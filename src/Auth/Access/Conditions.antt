-- ===== src/Auth/Access/Conditions.antt =====
-- Who may enter a service for a tenant.
use multi_domain_sandbox.Prelude.{String, ◌≡◌, ◌↔◌, refl, Option, none, some, true, ok, arith}
use multi_domain_sandbox.Auth.Domain.{
  User, Tenant, OidcClient, Contract, ServiceMembership, is_active_user, is_active_tenant,
  is_active_contract, is_active_membership,
}
use multi_domain_sandbox.Auth.Identity
use multi_domain_sandbox.Auth.Identity.{MemoryIdentityRepository}
use multi_domain_sandbox.Auth.Access.{decide_access, check_membership, check_tenant_access}

abbrev pub HasContract : Option Contract → Type 0
HasContract none = ⊥
HasContract (some c) = is_active_contract c.status ≡ true

abbrev pub HasMembership : Option ServiceMembership → Type 0
HasMembership none = ⊥
HasMembership (some m) = is_active_membership m.status ≡ true

-- The five things that entering a service for a tenant takes.
pub record MayEnter (identity : MemoryIdentityRepository) (client : OidcClient) (tenant : Tenant)
    (user_id : String) (user : User) : Type 0 where
  pub found : Identity.find_user_by_id identity user_id ≡ some user
  pub user_active : is_active_user user.status ≡ true
  pub tenant_active : is_active_tenant tenant.status ≡ true
  pub contract_active : HasContract (Identity.find_contract identity tenant.id client.id)
  pub membership_active :
      HasMembership (Identity.find_service_membership identity tenant.id client.id user_id)

decide_ok :
    (tenant : Tenant) (found : Option User) (contract : Option Contract)
    (membership : Option ServiceMembership) (user : User)
    → decide_access tenant found contract membership ≡ ok user
    → (found ≡ some user)
      × (is_active_user user.status ≡ true)
      × (is_active_tenant tenant.status ≡ true)
      × HasContract contract
      × HasMembership membership
unfolding decide_access check_membership
decide_ok tenant none contract membership user p = cc
decide_ok tenant (some u) none membership user p = ground arith
decide_ok tenant (some u) (some c) none user p = ground arith
decide_ok tenant (some u) (some c) (some m) user p = ground arith

decide-enters :
    (tenant : Tenant) (contract : Option Contract) (membership : Option ServiceMembership)
    (user : User)
    → is_active_user user.status ≡ true
    → is_active_tenant tenant.status ≡ true
    → HasContract contract
    → HasMembership membership
    → decide_access tenant (some user) contract membership ≡ ok user
unfolding decide_access check_membership
decide-enters tenant none membership user a b c d = absurd c
decide-enters tenant (some x) none user a b c d = absurd d
decide-enters tenant (some x) (some m) user a b c d = rw (a, b, c, d) refl

-- A user may enter exactly if the row exists and is active, the tenant is active, and there are an
-- active contract of the tenant with the service and an active membership of the user in both.
pub check_tenant_access_iff :
    (identity : MemoryIdentityRepository) (client : OidcClient) (tenant : Tenant) (user_id : String)
    (user : User)
    → (check_tenant_access identity client tenant user_id ≡ ok user)
      ↔ MayEnter identity client tenant user_id user
unfolding check_tenant_access
check_tenant_access_iff identity client tenant user_id user = (
  λ p.
      let (found, a, b, c, d) =
        decide_ok tenant (Identity.find_user_by_id identity user_id)
          (Identity.find_contract identity tenant.id client.id)
          (Identity.find_service_membership identity tenant.id client.id user_id) user p in
      record {
        found = found;
        user_active = a;
        tenant_active = b;
        contract_active = c;
        membership_active = d;
      },
  λ may. rw may.found (
      decide-enters tenant _ _ user may.user_active may.tenant_active may.contract_active
        may.membership_active),
)
