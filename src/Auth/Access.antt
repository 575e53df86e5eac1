-- ===== src/Auth/Access.antt =====
-- apps/auth-api/src/application/usecases/authorize.ts.
pub mod Conditions
use multi_domain_sandbox.Prelude.{
  ℕ, String, Option, none, some, Bool, true, false, Result, ok, err, not, if◌then◌else◌,
}
use multi_domain_sandbox.Shared.KvStore
use multi_domain_sandbox.Auth.Domain.{
  User, Tenant, OidcClient, Contract, ServiceMembership, AccessDeniedReason, user_disabled,
  tenant_suspended, not_contracted, no_membership, membership_inactive, RequestEnvironment,
  is_active_user, is_active_tenant, is_active_contract, is_active_membership,
  authorization_code_ttl_seconds,
}
use multi_domain_sandbox.Auth.Identity
use multi_domain_sandbox.Auth.Identity.{MemoryIdentityRepository}
use multi_domain_sandbox.Auth.Stores.{SsoSession, AuthorizationCode, UnusedCode, unused}
use multi_domain_sandbox.Auth.SsoSession.{touch_sso_session}
use multi_domain_sandbox.Auth.State.{
  Env, Eff, pure, ◌>>=◌, ◌>>◌, gets, on_authorization_codes, done, key_of, random_token,
  token_bytes, AuthState,
}

pub record ValidatedAuthorizationRequest : Type 0 where
  pub client : OidcClient
  pub redirect_uri : String
  pub tenant : Tenant
  pub scope : String
  pub state : String
  pub nonce : String
  pub code_challenge : String

abbrev contracted : Option Contract → Bool
contracted none = false
contracted (some c) = is_active_contract c.status

check_membership : User → Option ServiceMembership → Result User AccessDeniedReason
check_membership user none = err no_membership
check_membership user (some m) =
    if is_active_membership m.status then ok user else err membership_inactive

-- The tests in their order, on what the repository has.
decide_access :
    Tenant
    → Option User
    → Option Contract
    → Option ServiceMembership
    → Result User AccessDeniedReason
unfolding check_membership
decide_access tenant none contract membership = err user_disabled
decide_access tenant (some user) contract membership =
    if not (is_active_user user.status)
    then err user_disabled
    else if not (is_active_tenant tenant.status)
    then err tenant_suspended
    else if not (contracted contract)
    then err not_contracted
    else check_membership user membership

-- The error is the `reason` of `access_denied`; the reads of the repository change nothing.
unfoldable pub check_tenant_access :
    MemoryIdentityRepository → OidcClient → Tenant → String → Result User AccessDeniedReason
unfolding decide_access
check_tenant_access identity client tenant user_id =
    decide_access tenant (Identity.find_user_by_id identity user_id)
      (Identity.find_contract identity tenant.id client.id)
      (Identity.find_service_membership identity tenant.id client.id user_id)

module _ (env : Env) where
  issue_code :
      ValidatedAuthorizationRequest
      → SsoSession
      → RequestEnvironment
      → Result User AccessDeniedReason
      → Eff (Result String AccessDeniedReason)
  issue_code request session environment (err reason) = pure (err reason)
  issue_code request session environment (ok _) = do
    code_value ← random_token env token_bytes
    let code : AuthorizationCode = unused (record {
      client_id = request.client.client_id;
      redirect_uri = request.redirect_uri;
      scope = request.scope;
      nonce = request.nonce;
      code_challenge = request.code_challenge;
      user_id = session.user_id;
      tenant_id = request.tenant.id;
      sid = session.sid;
      sso_session_id = session.id;
      auth_time = session.auth_time;
    })
    on_authorization_codes
        (done (λ now. KvStore.set now (key_of env code_value) code authorization_code_ttl_seconds))
    touch_sso_session env session request.client request.tenant.id environment
    pure (ok code_value)

  -- The code that the client gets; the store has it under its digest.
  unfoldable pub authorize_with_session :
      ValidatedAuthorizationRequest
      → SsoSession
      → RequestEnvironment
      → Eff (Result String AccessDeniedReason)
  unfolding issue_code
  authorize_with_session request session environment = do
    identity ← gets (λ s. s.identity)
    issue_code request session environment
        (check_tenant_access identity request.client request.tenant session.user_id)
