-- ===== src/Api/TenantContext.antt =====
-- packages/api-core/src/application: access-token.ts and resolve-tenant-context.ts. The source of keys is
-- any state with a `get`; the audience's host, lower case and the signature check are parameters.
pub mod Authorized
use multi_domain_sandbox.Prelude.{
  String, Option, none, some, Bool, true, false, Result, ok, err, List, not, ◌==◌, if◌then◌else◌,
}
use multi_domain_sandbox.Shared.OidcProtocol.{read_bearer_token}
use multi_domain_sandbox.Shared.Jwks.{
  Jwk, JwksError, VerifyError, invalid_token, verify_jwt_with_source,
}
use multi_domain_sandbox.Api.Permissions.{ServiceDefinition}
use multi_domain_sandbox.Api.MemberRepository.{MemoryMemberRepository}
use multi_domain_sandbox.Api.Members.{AccessTokenClaims, TenantContext, resolve_member}

-- The claims of a payload that are asked for, where they are strings.
pub record AccessTokenPayload : Type 0 where
  pub sub : Option String
  pub tenant_id : Option String
  pub tenant_slug : Option String
  pub sid : Option String
  pub client_id : Option String

pub data TenantContextError : Type 0 where
  unknown_host missing_token member_disabled : TenantContextError
  rejected : VerifyError → TenantContextError

-- The user, the tenant and its slug, the session and the client.
claims_of :
    Option String
    → Option String
    → Option String
    → Option String
    → Option String
    → Result AccessTokenClaims VerifyError
claims_of (some sub) (some tenant_id) (some tenant_slug) (some sid) (some client_id) = ok (record {
  user_id = sub;
  tenant_id = tenant_id;
  tenant_slug = tenant_slug;
  client_id = client_id;
})
claims_of none tenant_id tenant_slug sid client_id = err (invalid_token "sub missing")
claims_of (some sub) none tenant_slug sid client_id = err (invalid_token "tenant_id missing")
claims_of (some sub) (some tenant_id) none sid client_id = err (invalid_token "tenant_slug missing")
claims_of (some sub) (some tenant_id) (some tenant_slug) none client_id =
    err (invalid_token "sid missing")
claims_of (some sub) (some tenant_id) (some tenant_slug) (some sid) none =
    err (invalid_token "client_id missing")

payload_claims : Result AccessTokenPayload VerifyError → Result AccessTokenClaims VerifyError
unfolding claims_of
payload_claims (err error) = err error
payload_claims (ok payload) =
    claims_of payload.sub payload.tenant_id payload.tenant_slug payload.sid payload.client_id

module _ {S : Type 0} (source_get : Bool → S → Result (List Jwk) JwksError × S)
    (read_jwt_kid : String → Option String)
    -- against the issuer and this service's audience
    (verify_jwt : String → List Jwk → Result AccessTokenPayload VerifyError)
    (lower_case : String → String) (audience_host : String) (definition : ServiceDefinition) where
  unfoldable pub verify_access_token : String → S → Result AccessTokenClaims VerifyError × S
  unfolding payload_claims
  verify_access_token token s =
      let (verified, s') = verify_jwt_with_source source_get read_jwt_kid verify_jwt token s in
      (payload_claims verified, s')

  abbrev Answered : Type 0
  Answered = Result TenantContext TenantContextError × (S × MemoryMemberRepository)

  with_claims : Result AccessTokenClaims VerifyError → S → MemoryMemberRepository → Answered
  with_claims (err error) s members = (err (rejected error), (s, members))
  with_claims (ok claims) s members =
      let (context, members') = resolve_member definition members claims in
      (elim context [ none ↦ err member_disabled | some c ↦ ok c ], (s, members'))

  with_token : Option String → S → MemoryMemberRepository → Answered
  unfolding with_claims
  with_token none s members = (err missing_token, (s, members))
  with_token (some token) s members =
      let (verified, s') = verify_access_token token s in with_claims verified s' members

  -- The request's host and its Authorization header.
  unfoldable pub resolve_tenant_context :
      String → Option String → S → MemoryMemberRepository → Answered
  unfolding with_token
  resolve_tenant_context host authorization s members =
      if not (lower_case host == audience_host)
      then (err unknown_host, (s, members))
      else with_token (read_bearer_token authorization) s members
