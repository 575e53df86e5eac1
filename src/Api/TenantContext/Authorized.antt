-- ===== src/Api/TenantContext/Authorized.antt =====
-- Who an API server serves.
use multi_domain_sandbox.Prelude.{
  String, ◌≡◌, refl, ◌∙◌, ap, arith, Option, none, some, Bool, true, Result, ok, err, List, [],
  ◌==◌, sym, if◌then◌else◌, Bool-cases, inl, inr,
}
use multi_domain_sandbox.Shared.OidcProtocol.{read_bearer_token}
use multi_domain_sandbox.Shared.Jwks.{Jwk, JwksError, VerifyError, verify_jwt_with_source}
use multi_domain_sandbox.Api.Permissions.{
  Member, MemberStatus, ServiceDefinition, resolve_permissions,
}
use multi_domain_sandbox.Api.MemberRepository
use multi_domain_sandbox.Api.MemberRepository.{MemoryMemberRepository, MemberWithOverrides}
use multi_domain_sandbox.Api.Members.{
  AccessTokenClaims, TenantContext, resolve_member, found_or_default, create_default_member,
  is_active,
}
use multi_domain_sandbox.Api.TenantContext.{
  AccessTokenPayload, claims_of, payload_claims, verify_access_token, with_claims, with_token,
  resolve_tenant_context,
}

-- The payload has a session's identifier, and its other claims are these.
pub record Claims (payload : AccessTokenPayload) (claims : AccessTokenClaims) : Type 0 where
  pub sid : String
  pub has_sid : payload.sid ≡ some sid
  pub user_id : payload.sub ≡ some claims.user_id
  pub tenant_id : payload.tenant_id ≡ some claims.tenant_id
  pub tenant_slug : payload.tenant_slug ≡ some claims.tenant_slug
  pub client_id : payload.client_id ≡ some claims.client_id

claims_of-Claims :
    (sub tenant_id tenant_slug sid client_id : Option String) (claims : AccessTokenClaims)
    → claims_of sub tenant_id tenant_slug sid client_id ≡ ok claims
    → Claims
        (record {
          sub = sub;
          tenant_id = tenant_id;
          tenant_slug = tenant_slug;
          sid = sid;
          client_id = client_id;
        })
        claims
unfolding claims_of
claims_of-Claims (some a) (some b) (some c) (some d) (some e) claims h = record {
  sid = d;
  has_sid = refl;
  user_id = ground arith;
  tenant_id = ground arith;
  tenant_slug = ground arith;
  client_id = ground arith;
}
claims_of-Claims none b c d e claims h = ground arith
claims_of-Claims (some a) none c d e claims h = ground arith
claims_of-Claims (some a) (some b) none d e claims h = ground arith
claims_of-Claims (some a) (some b) (some c) none e claims h = ground arith
claims_of-Claims (some a) (some b) (some c) (some d) none claims h = ground arith

-- Who is served: an active member, with the permissions of their row's role and overrides; or, where the
-- tenant has no row of the user, a new member with the default role, no overrides and its permissions.
pub data Served (definition : ServiceDefinition) (members : MemoryMemberRepository)
    (context : TenantContext) : Type 0 where
  as_member :
      (found : MemberWithOverrides)
      → MemberRepository.find_with_overrides members context.claims.tenant_id context.claims.user_id
        ≡ some found
      → found.member.status ≡ MemberStatus.active
      → context.member ≡ found.member
      → context.permissions ≡ resolve_permissions definition found.member.role found.overrides
      → Served definition members context
  as_newcomer :
      MemberRepository.find_with_overrides members context.claims.tenant_id context.claims.user_id
        ≡ none
      → context.member.tenant_id ≡ context.claims.tenant_id
      → context.member.user_id ≡ context.claims.user_id
      → context.member.role ≡ definition.default_role
      → context.member.status ≡ MemberStatus.active
      → context.permissions ≡ resolve_permissions definition definition.default_role []
      → Served definition members context

active_lem : (status : MemberStatus) → is_active status ≡ true → status ≡ MemberStatus.active
active_lem MemberStatus.active h = refl
active_lem MemberStatus.disabled h = ground arith

-- What the row that was found, or the new one, makes of a context.
record Made (definition : ServiceDefinition) (found : MemberWithOverrides)
    (claims : AccessTokenClaims) (context : TenantContext) : Type 0 where
  pub same_claims : context.claims ≡ claims
  pub active : found.member.status ≡ MemberStatus.active
  pub member : context.member ≡ found.member
  pub permissions :
      context.permissions ≡ resolve_permissions definition found.member.role found.overrides

abbrev made_context : ServiceDefinition → MemberWithOverrides → AccessTokenClaims → TenantContext
made_context definition found claims = record {
  claims = claims;
  member = found.member;
  permissions = resolve_permissions definition found.member.role found.overrides;
}

served-Made :
    (definition : ServiceDefinition) (found : MemberWithOverrides) (claims : AccessTokenClaims)
    (context : TenantContext)
    → (if is_active found.member.status then some (made_context definition found claims) else none)
      ≡ some context
    → Made definition found claims context
served-Made definition found claims context h = elim (Bool-cases (is_active found.member.status)) [
  | inl on ↦
      let same : made_context definition found claims ≡ context =
        let q = rw on at h in ground (arith, q) in
      record {
        same_claims = sym (ap (λ (c : TenantContext). c.claims) same);
        active = active_lem found.member.status on;
        member = sym (ap (λ (c : TenantContext). c.member) same);
        permissions = sym (ap (λ (c : TenantContext). c.permissions) same);
      }
  | inr off ↦ let q = rw off at h in ground arith
]

found-Served :
    (definition : ServiceDefinition) (members : MemoryMemberRepository)
    (o : Option MemberWithOverrides) (claims : AccessTokenClaims) (context : TenantContext)
    → MemberRepository.find_with_overrides members claims.tenant_id claims.user_id ≡ o
    → Made definition
        (found_or_default definition members claims.tenant_id claims.user_id o).0
        claims
        context
    → Served definition members context
unfolding found_or_default create_default_member MemberRepository.upsert
found-Served definition members (some found) claims context e m =
    as_member found (rw (m.same_claims) e) m.active m.member m.permissions
found-Served definition members none claims context e m =
    as_newcomer (rw (m.same_claims) e)
      (ap (λ (x : Member). x.tenant_id) m.member
        ∙ sym (ap (λ (c : AccessTokenClaims). c.tenant_id) m.same_claims))
      (ap (λ (x : Member). x.user_id) m.member
        ∙ sym (ap (λ (c : AccessTokenClaims). c.user_id) m.same_claims))
      (ap (λ (x : Member). x.role) m.member) (ap (λ (x : Member). x.status) m.member) m.permissions

resolve_member-Made :
    (definition : ServiceDefinition) (members : MemoryMemberRepository) (claims : AccessTokenClaims)
    (context : TenantContext)
    → (resolve_member definition members claims).0 ≡ some context
    → Made definition
        (found_or_default definition members claims.tenant_id claims.user_id
          (MemberRepository.find_with_overrides members claims.tenant_id claims.user_id)).0
        claims
        context
unfolding resolve_member
resolve_member-Made definition members claims context h =
    served-Made definition
      (found_or_default definition members claims.tenant_id claims.user_id
        (MemberRepository.find_with_overrides members claims.tenant_id claims.user_id)).0
      claims context h

module _ {S : Type 0} (source_get : Bool → S → Result (List Jwk) JwksError × S)
    (read_jwt_kid : String → Option String)
    (verify_jwt : String → List Jwk → Result AccessTokenPayload VerifyError)
    (lower_case : String → String) (audience_host : String) (definition : ServiceDefinition) where
  abbrev verified : String → S → Result AccessTokenPayload VerifyError
  verified token s = (verify_jwt_with_source source_get read_jwt_kid verify_jwt token s).0

  pub record Authorized (host : String) (authorization : Option String) (s : S)
      (members : MemoryMemberRepository) (context : TenantContext) : Type 0 where
    pub own_host : (lower_case host == audience_host) ≡ true
    pub token : String
    pub sent : read_bearer_token authorization ≡ some token
    pub payload : AccessTokenPayload
    pub vouched : verified token s ≡ ok payload
    pub claims : Claims payload context.claims
    pub member : Served definition members context

  payload_claims-ok :
      (r : Result AccessTokenPayload VerifyError) (claims : AccessTokenClaims)
      → payload_claims r ≡ ok claims
      → (payload : AccessTokenPayload) × ((r ≡ ok payload) × Claims payload claims)
  unfolding payload_claims
  payload_claims-ok (err error) claims h = ground arith
  payload_claims-ok (ok payload) claims h = (
    payload,
    (
      refl,
      claims_of-Claims payload.sub payload.tenant_id payload.tenant_slug payload.sid
          payload.client_id claims h,
    ),
  )

  with_claims-ok :
      (r : Result AccessTokenClaims VerifyError) (t : S) (members : MemoryMemberRepository)
      (context : TenantContext)
      → (with_claims source_get read_jwt_kid verify_jwt lower_case audience_host definition r t
          members).0
        ≡ ok context
      → (claims : AccessTokenClaims) × ((r ≡ ok claims)
          × ((resolve_member definition members claims).0 ≡ some context))
  unfolding with_claims
  with_claims-ok (err error) t members context h = ground arith
  with_claims-ok (ok claims) t members context h = (claims, (refl, ground arith))

  with_token-Authorized :
      (host : String) (authorization : Option String) (s : S) (members : MemoryMemberRepository)
      (context : TenantContext) (token : Option String)
      → (lower_case host == audience_host) ≡ true
      → read_bearer_token authorization ≡ token
      → (with_token source_get read_jwt_kid verify_jwt lower_case audience_host definition token s
          members).0
        ≡ ok context
      → Authorized host authorization s members context
  unfolding with_token verify_access_token
  with_token-Authorized host authorization s members context none own sent h = ground arith
  with_token-Authorized host authorization s members context (some token) own sent h =
      let (r, t) = verify_jwt_with_source source_get read_jwt_kid verify_jwt token s in
      let (claims, (checked, found)) = with_claims-ok (payload_claims r) t members context h in
      let (payload, (vouched, named)) = payload_claims-ok r claims checked in
      let made = resolve_member-Made definition members claims context found in
      record {
        own_host = own;
        token = token;
        sent = sent;
        payload = payload;
        vouched = vouched;
        claims = rw (made.same_claims) named;
        member =
            found-Served definition members
              (MemberRepository.find_with_overrides members claims.tenant_id claims.user_id) claims
              context refl made;
      }

  -- A request is served only at the service's own host, with a bearer token that the keys vouch for and that
  -- names a user, a tenant with its slug, a session and a client. The context is of those very claims: either
  -- with the user's row at that tenant, which is active, and the permissions of its role and overrides, or,
  -- where there is no such row, with the default role and its permissions.
  pub resolve_tenant_context-Authorized :
      (host : String) (authorization : Option String) (s : S) (members : MemoryMemberRepository)
      (context : TenantContext)
      → (resolve_tenant_context source_get read_jwt_kid verify_jwt lower_case audience_host
          definition host authorization s members).0
        ≡ ok context
      → Authorized host authorization s members context
  unfolding resolve_tenant_context
  resolve_tenant_context-Authorized host authorization s members context h =
      elim (Bool-cases (lower_case host == audience_host)) [
        | inl own ↦
            with_token-Authorized host authorization s members context
              (read_bearer_token authorization) own refl (rw own at h)
        | inr other ↦ let q = rw other at h in ground arith
      ]
