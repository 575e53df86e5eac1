-- ===== src/Auth/AuthorizationRequest/Redirects.antt =====
-- Which requests /authorize accepts, and where it may send a browser, from `AuthorizationRequest.Valid`.
use multi_domain_sandbox.Prelude.{
  String, ◌≡◌, ◌↔◌, refl, sym, ◌∙◌, arith, Option, none, some, true, ok, err, List,
}
use multi_domain_sandbox.Shared.RedirectTemplate.{expand_redirect_uri_template, is_tenant_slug}
use multi_domain_sandbox.Shared.RedirectTemplate.Match.{match_redirect_uri_template_iff}
use multi_domain_sandbox.Auth.Domain.{OidcClient, Tenant}
use multi_domain_sandbox.Auth.Identity
use multi_domain_sandbox.Auth.Identity.{MemoryIdentityRepository}
use multi_domain_sandbox.Auth.Access.{ValidatedAuthorizationRequest}
use multi_domain_sandbox.Auth.AuthorizationRequest.{
  RawParams, RedirectKind, redirectable, validate_scopes, validate_params, requested_scopes,
  unsupported_scope, validate_authorization_request,
}
use multi_domain_sandbox.Auth.AuthorizationRequest.Valid.{
  Confirmed, Complete, Decided, outright, by_params, decided, Confirmed-Decided, accepted,
  params_pass, params-Complete,
}

-- The request is accepted as `v`.
pub record IsAccepted (identity : MemoryIdentityRepository) (params : RawParams)
    (v : ValidatedAuthorizationRequest) : Type 0 where
  pub confirmed : Confirmed identity params v.client v.redirect_uri v.tenant
  pub complete : Complete params v.client v

validated-IsAccepted :
    (identity : MemoryIdentityRepository) (params : RawParams) (v : ValidatedAuthorizationRequest)
    → Decided identity params (ok v)
    → IsAccepted identity params v
unfolding accepted
validated-IsAccepted identity params v (outright kind e) = ground arith
validated-IsAccepted identity params v (by_params client uri tenant c e) =
    let (same, complete) = params_pass params client uri tenant v (sym e) in
    rw (← same) (record { confirmed = c; complete = complete })

-- A request is accepted exactly when its client is registered and active, its redirect URI is the
-- template's for a tenant that exists, every other parameter is there and has its form, and every scope that
-- is asked for, `openid` among them, is one of the server's and one of the client's; what it is validated to
-- is those very values, with the scopes that were asked for.
pub validate_authorization_request_iff :
    (identity : MemoryIdentityRepository) (params : RawParams) (v : ValidatedAuthorizationRequest)
    → ((validate_authorization_request identity params ≡ ok v) ↔ IsAccepted identity params v)
validate_authorization_request_iff identity params v = (
  λ h. validated-IsAccepted identity params v (rw h at (decided identity params)),
  λ a.
      Confirmed-Decided identity params v.client v.redirect_uri v.tenant a.confirmed
      ∙ params-Complete params v.client v.redirect_uri v.tenant v refl refl refl a.complete,
)

scopes_error :
    (params : RawParams) (client : OidcClient) (uri to : String) (tenant : Tenant)
    (scopes : List String) (o state : Option String) (kind : RedirectKind) (description : String)
    → validate_scopes params client uri tenant scopes o
      ≡ err (redirectable kind to state description)
    → uri ≡ to
unfolding validate_scopes
scopes_error params client uri to tenant scopes none state kind description h = ground arith
scopes_error params client uri to tenant scopes (some x) state kind description h = ground arith

params_error :
    (params : RawParams) (client : OidcClient) (uri to : String) (tenant : Tenant)
    (state : Option String) (kind : RedirectKind) (description : String)
    → validate_params params client uri tenant ≡ err (redirectable kind to state description)
    → uri ≡ to
unfolding validate_params
params_error params client uri to tenant state kind description h =
    let scopes = requested_scopes params.scope in
    ground (
      arith,
      scopes_error params client uri to tenant scopes (unsupported_scope client scopes) state kind
          description,
    )

-- The client that asks, and the tenant whose URI the error may be sent to.
pub record RedirectTarget (identity : MemoryIdentityRepository) (params : RawParams) (uri : String)
    : Type 0 where
  pub client : OidcClient
  pub tenant : Tenant
  pub slug : String
  pub confirmed : Confirmed identity params client uri tenant
  pub expanded : expand_redirect_uri_template client.redirect_uri_template slug ≡ uri
  pub slug_form : is_tenant_slug slug ≡ true
  pub known : Identity.find_tenant_by_slug identity slug ≡ some tenant

pub Confirmed-RedirectTarget :
    (identity : MemoryIdentityRepository) (params : RawParams) (client : OidcClient)
    (uri to : String) (tenant : Tenant)
    → uri ≡ to
    → Confirmed identity params client uri tenant
    → RedirectTarget identity params to
Confirmed-RedirectTarget identity params client uri to tenant e c =
    let (has, (same, fits)) =
      (match_redirect_uri_template_iff client.redirect_uri_template uri c.slug).0 c.template in
    rw (← e) (record {
      client = client;
      tenant = tenant;
      slug = c.slug;
      confirmed = c;
      expanded = same;
      slug_form = fits;
      known = c.known;
    })

error-RedirectTarget :
    (identity : MemoryIdentityRepository) (params : RawParams) (kind : RedirectKind) (uri : String)
    (state : Option String) (description : String)
    → Decided identity params (err (redirectable kind uri state description))
    → RedirectTarget identity params uri
error-RedirectTarget identity params kind uri state description (outright k e) = ground arith
error-RedirectTarget identity params kind uri state description (by_params client u tenant c e) =
    Confirmed-RedirectTarget identity params client u uri tenant
      (params_error params client u uri tenant state kind description (sym e)) c

-- An error is sent to a URI only if that is the template's of a registered, active client, expanded for the
-- slug of a tenant that exists, and the one that the request named.
pub redirectable-RedirectTarget :
    (identity : MemoryIdentityRepository) (params : RawParams) (kind : RedirectKind) (uri : String)
    (state : Option String) (description : String)
    → validate_authorization_request identity params ≡ err (redirectable kind uri state description)
    → RedirectTarget identity params uri
redirectable-RedirectTarget identity params kind uri state description h =
    error-RedirectTarget identity params kind uri state description
      (rw h at (decided identity params))
