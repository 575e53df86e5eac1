-- ===== src/Auth/AuthorizationRequest/Valid.antt =====
-- Which requests /authorize accepts, and where it may send a browser.
use multi_domain_sandbox.Prelude.{
  String, ◌≡◌, inl, inr, refl, arith, Option, none, some, true, false, ok, err, ◌==◌, eq_iff,
  Bool-cases,
}
use multi_domain_sandbox.Shared.SetStore.{contains}
use multi_domain_sandbox.Shared.RedirectTemplate.{match_redirect_uri_template}
use multi_domain_sandbox.Auth.Domain.{OidcClient, Tenant, is_active_client}
use multi_domain_sandbox.Auth.Identity
use multi_domain_sandbox.Auth.Identity.{MemoryIdentityRepository}
use multi_domain_sandbox.Auth.Access.{ValidatedAuthorizationRequest}
use multi_domain_sandbox.Auth.AuthorizationRequest.Scopes.{
  AllAllowed, unsupported_scope-AllAllowed, AllAllowed-unsupported_scope,
}
use multi_domain_sandbox.Auth.AuthorizationRequest.{
  RawParams, RefusalKind, refused, Validation, is_code_challenge, join, or_empty, requested_scopes,
  unsupported_scope, is_missing, is_value, is_challenge, validate_scopes, validate_params,
  tenant_for, tenant_of, validate_redirect, validate_client, validate_named,
  validate_authorization_request, invalid_client, invalid_redirect_uri,
}

-- The client is registered and active, and the URI is its template's for a tenant that exists.
pub record Confirmed (identity : MemoryIdentityRepository) (params : RawParams)
    (client : OidcClient) (redirect_uri : String) (tenant : Tenant) : Type 0 where
  pub client_id : String
  pub named : params.client_id ≡ some client_id
  pub nonempty : (client_id == "") ≡ false
  pub registered : Identity.find_client identity client_id ≡ some client
  pub active : is_active_client client.status ≡ true
  pub uri : params.redirect_uri ≡ some redirect_uri
  pub slug : String
  pub template : match_redirect_uri_template client.redirect_uri_template redirect_uri ≡ some slug
  pub known : Identity.find_tenant_by_slug identity slug ≡ some tenant

pub record Complete (params : RawParams) (client : OidcClient) (v : ValidatedAuthorizationRequest)
    : Type 0 where
  pub response_type : params.response_type ≡ some "code"
  pub state : params.state ≡ some v.state
  pub state_nonempty : (v.state == "") ≡ false
  pub nonce : params.nonce ≡ some v.nonce
  pub nonce_nonempty : (v.nonce == "") ≡ false
  pub method : params.code_challenge_method ≡ some "S256"
  pub code_challenge : params.code_challenge ≡ some v.code_challenge
  pub challenge_form : is_code_challenge v.code_challenge ≡ true
  pub openid : contains "openid" (requested_scopes params.scope) ≡ true
  pub allowed : AllAllowed client (requested_scopes params.scope)
  pub scope : v.scope ≡ join (requested_scopes params.scope)

module _ (identity : MemoryIdentityRepository) (params : RawParams) where
  -- A request is refused outright, or its client, URI and tenant are confirmed and the other
  -- parameters decide.
  pub data Decided (r : Validation) : Type 0 where
    outright : (kind : RefusalKind) → r ≡ err (refused kind) → Decided r
    by_params :
        (client : OidcClient) (uri : String) (tenant : Tenant)
        → Confirmed identity params client uri tenant
        → r ≡ validate_params params client uri tenant
        → Decided r

  module _ (client_id : String) (client : OidcClient) (named : params.client_id ≡ some client_id)
      (nonempty : (client_id == "") ≡ false)
      (registered : Identity.find_client identity client_id ≡ some client)
      (active : is_active_client client.status ≡ true) where
    tenant_of-Decided :
        (uri slug : String) (tenant : Option Tenant)
        → params.redirect_uri ≡ some uri
        → match_redirect_uri_template client.redirect_uri_template uri ≡ some slug
        → Identity.find_tenant_by_slug identity slug ≡ tenant
        → Decided (validate_redirect identity params client (some uri) tenant)
    unfolding validate_redirect
    tenant_of-Decided uri slug none u m k = outright invalid_redirect_uri refl
    tenant_of-Decided uri slug (some tenant) u m k =
        by_params client uri tenant
          (record {
            client_id = client_id;
            named = named;
            nonempty = nonempty;
            registered = registered;
            active = active;
            uri = u;
            slug = slug;
            template = m;
            known = k;
          })
          refl

    tenant_for-Decided :
        (uri : String) (slug : Option String)
        → params.redirect_uri ≡ some uri
        → match_redirect_uri_template client.redirect_uri_template uri ≡ slug
        → Decided
            (validate_redirect identity params client (some uri) (tenant_for identity params slug))
    unfolding validate_redirect tenant_for
    tenant_for-Decided uri none u m = outright invalid_redirect_uri refl
    tenant_for-Decided uri (some slug) u m =
        tenant_of-Decided uri slug (Identity.find_tenant_by_slug identity slug) u m refl

    validate_redirect-Decided :
        (uri : Option String)
        → params.redirect_uri ≡ uri
        → Decided
            (validate_redirect identity params client uri (tenant_of identity params client uri))
    unfolding validate_redirect tenant_of
    validate_redirect-Decided none u = outright invalid_redirect_uri refl
    validate_redirect-Decided (some uri) u =
        tenant_for-Decided uri (match_redirect_uri_template client.redirect_uri_template uri) u refl

  validate_client-Decided :
      (client_id : String) (client : Option OidcClient)
      → params.client_id ≡ some client_id
      → (client_id == "") ≡ false
      → Identity.find_client identity client_id ≡ client
      → Decided (validate_client identity params client)
  unfolding validate_client
  validate_client-Decided client_id none n e f = outright invalid_client refl
  validate_client-Decided client_id (some client) n e f =
      elim (Bool-cases (is_active_client client.status)) [
        | inl a ↦ rw a (validate_redirect-Decided client_id client n e f a params.redirect_uri refl)
        | inr a ↦ rw a (outright invalid_client refl)
      ]

  validate_named-Decided :
      (client_id : Option String)
      → params.client_id ≡ client_id
      → Decided (validate_named identity params client_id)
  unfolding validate_named
  validate_named-Decided none n = outright invalid_client refl
  validate_named-Decided (some client_id) n = elim (Bool-cases (client_id == "")) [
    | inl e ↦ rw e (outright invalid_client refl)
    | inr e ↦
        rw e (validate_client-Decided client_id (Identity.find_client identity client_id) n e refl)
  ]

  pub decided : Decided (validate_authorization_request identity params)
  unfolding validate_authorization_request
  decided = validate_named-Decided params.client_id refl

  pub Confirmed-Decided :
      (client : OidcClient) (uri : String) (tenant : Tenant)
      → Confirmed identity params client uri tenant
      → validate_authorization_request identity params ≡ validate_params params client uri tenant
  unfolding validate_authorization_request validate_named validate_client tenant_of tenant_for
      validate_redirect
  Confirmed-Decided client uri tenant c =
      rw (c.named, c.nonempty, c.registered, c.active, c.uri, c.template, c.known) refl

is_value-some : (x : String) (o : Option String) → is_value x o ≡ true → o ≡ some x
is_value-some x none h = ground arith
is_value-some x (some y) h = ground (arith, eq_iff y x)

present :
    (o : Option String)
    → is_missing o ≡ false
    → (o ≡ some (or_empty o)) × ((or_empty o == "") ≡ false)
present none h = ground arith
present (some x) h = (refl, h)

challenge_present :
    (o : Option String)
    → is_challenge o ≡ true
    → (o ≡ some (or_empty o)) × (is_code_challenge (or_empty o) ≡ true)
challenge_present none h = ground arith
challenge_present (some x) h = (refl, h)

module _ (params : RawParams) (client : OidcClient) (uri : String) (tenant : Tenant) where
  -- What a request is validated to, where its parameters pass.
  unfoldable pub accepted : ValidatedAuthorizationRequest
  accepted = record {
    client = client;
    redirect_uri = uri;
    tenant = tenant;
    scope = join (requested_scopes params.scope);
    state = or_empty params.state;
    nonce = or_empty params.nonce;
    code_challenge = or_empty params.code_challenge;
  }

  scopes_ok :
      (o : Option String) (v : ValidatedAuthorizationRequest)
      → validate_scopes params client uri tenant (requested_scopes params.scope) o ≡ ok v
      → (o ≡ none) × (accepted ≡ v)
  unfolding validate_scopes accepted
  scopes_ok none v h = (refl, ground arith)
  scopes_ok (some x) v h = ground arith

  pub params_pass :
      (v : ValidatedAuthorizationRequest)
      → validate_params params client uri tenant ≡ ok v
      → (accepted ≡ v) × Complete params client accepted
  unfolding validate_params accepted
  params_pass v h =
      let scopes = requested_scopes params.scope in
      let responds : is_value "code" params.response_type ≡ true = ground arith in
      let state_there : is_missing params.state ≡ false = ground arith in
      let nonce_there : is_missing params.nonce ≡ false = ground arith in
      let by_s256 : is_value "S256" params.code_challenge_method ≡ true = ground arith in
      let challenged : is_challenge params.code_challenge ≡ true = ground arith in
      let open_id : contains "openid" scopes ≡ true = ground arith in
      let passed : validate_scopes params client uri tenant scopes (unsupported_scope client scopes)
          ≡ ok v =
        ground arith in
      let (allowed, same) = scopes_ok (unsupported_scope client scopes) v passed in
      let (state, state_nonempty) = present params.state state_there in
      let (nonce, nonce_nonempty) = present params.nonce nonce_there in
      let (code_challenge, form) = challenge_present params.code_challenge challenged in
      (
        same,
        record {
          response_type = is_value-some "code" params.response_type responds;
          state = state;
          state_nonempty = state_nonempty;
          nonce = nonce;
          nonce_nonempty = nonce_nonempty;
          method = is_value-some "S256" params.code_challenge_method by_s256;
          code_challenge = code_challenge;
          challenge_form = form;
          openid = open_id;
          allowed = unsupported_scope-AllAllowed client scopes allowed;
          scope = refl;
        },
      )

  pub params-Complete :
      (v : ValidatedAuthorizationRequest)
      → v.client ≡ client
      → v.redirect_uri ≡ uri
      → v.tenant ≡ tenant
      → Complete params client v
      → validate_params params client uri tenant ≡ ok v
  unfolding validate_params validate_scopes
  params-Complete v c u t k =
      rw
        (
          k.response_type,
          k.state,
          k.state_nonempty,
          k.nonce,
          k.nonce_nonempty,
          k.method,
          k.code_challenge,
          k.challenge_form,
          k.openid,
          AllAllowed-unsupported_scope client (requested_scopes params.scope) k.allowed,
          ← k.scope,
          ← c,
          ← u,
          ← t,
        )
        refl
