-- ===== src/Auth/AuthorizationRequest.antt =====
-- apps/auth-api/src/application/usecases/authorization-request.ts: the parameters of /authorize.
pub mod Scopes
pub mod Valid
pub mod Redirects
use Prim.Native.Char.{code}
use Prim.Native.String.{◌++◌ as append}
use multi_domain_sandbox.Prelude.{
  ℕ, String, Option, none, some, Bool, true, false, Result, ok, err, List, [], ◌∷◌, not, ◌&&◌, ◌||◌,
  eqb, ◌==◌, if◌then◌else◌,
}
use multi_domain_sandbox.Shared.CodeVerifier.{length, all, is_alphanumeric}
use multi_domain_sandbox.Shared.Text.{split}
use multi_domain_sandbox.Shared.SetStore.{contains}
use multi_domain_sandbox.Shared.RedirectTemplate.{match_redirect_uri_template}
use multi_domain_sandbox.Auth.Domain.{OidcClient, Tenant, is_active_client, supported_scopes}
use multi_domain_sandbox.Auth.Identity
use multi_domain_sandbox.Auth.Identity.{MemoryIdentityRepository}
use multi_domain_sandbox.Auth.Access.{ValidatedAuthorizationRequest}

pub record RawParams : Type 0 where
  pub client_id : Option String
  pub redirect_uri : Option String
  pub response_type : Option String
  pub state : Option String
  pub nonce : Option String
  pub code_challenge_method : Option String
  pub code_challenge : Option String
  pub scope : Option String

pub data RefusalKind : Type 0 where
  invalid_client invalid_redirect_uri : RefusalKind

pub data RedirectKind : Type 0 where
  invalid_request unsupported_response_type invalid_scope : RedirectKind

-- The redirectable errors carry the URI, the state and a description.
pub data AuthorizationRequestError : Type 0 where
  refused : RefusalKind → AuthorizationRequestError
  redirectable : RedirectKind → String → Option String → String → AuthorizationRequestError

abbrev pub Validation : Type 0
Validation = Result ValidatedAuthorizationRequest AuthorizationRequestError

-- `[A-Za-z0-9_-]`
unfoldable pub is_base64url : ℕ → Bool
unfolding is_alphanumeric
is_base64url c = is_alphanumeric c || eqb c b'_' || eqb c b'-'

-- `^[A-Za-z0-9_-]{43}$`
unfoldable pub is_code_challenge : String → Bool
unfolding is_base64url
is_code_challenge value = eqb (length value) 43 && all is_base64url value

unfoldable pub nonempty_parts : List String → List String
nonempty_parts [] = []
nonempty_parts (w ∷ ws) = let rest = nonempty_parts ws in if w == "" then rest else w ∷ rest

unfoldable pub join : List String → String
join [] = ""
join (w ∷ []) = w
join (w ∷ ws) = append w (append " " (join ws))

abbrev pub or_empty : Option String → String
or_empty none = ""
or_empty (some value) = value

unfoldable pub requested_scopes : Option String → List String
unfolding nonempty_parts
requested_scopes scope = nonempty_parts (split b' ' (or_empty scope))

unfoldable pub unsupported_scope : OidcClient → List String → Option String
unsupported_scope client [] = none
unsupported_scope client (scope ∷ scopes) =
    if not (contains scope supported_scopes) || not (contains scope client.allowed_scopes)
    then some scope
    else unsupported_scope client scopes

-- `value === undefined || value === ""`
abbrev pub is_missing : Option String → Bool
is_missing none = true
is_missing (some value) = value == ""

abbrev pub is_value : String → Option String → Bool
is_value expected none = false
is_value expected (some value) = value == expected

abbrev is_challenge : Option String → Bool
is_challenge none = false
is_challenge (some value) = is_code_challenge value

-- The parameters, once the client, the URI and the tenant are known.
module _ (params : RawParams) (client : OidcClient) (redirect_uri : String) (tenant : Tenant) where
  redirectable_error : RedirectKind → String → Validation
  redirectable_error kind description =
      err (redirectable kind redirect_uri params.state description)

  validate_scopes : List String → Option String → Validation
  unfolding redirectable_error
  validate_scopes scopes (some scope) =
      redirectable_error invalid_scope (append "scope " (append scope " is not allowed"))
  validate_scopes scopes none = ok (record {
    client = client;
    redirect_uri = redirect_uri;
    tenant = tenant;
    scope = join scopes;
    state = or_empty params.state;
    nonce = or_empty params.nonce;
    code_challenge = or_empty params.code_challenge;
  })

  pub validate_params : Validation
  unfolding redirectable_error validate_scopes
  validate_params =
      if not (is_value "code" params.response_type)
      then redirectable_error unsupported_response_type "response_type must be code"
      else if is_missing params.state
      then redirectable_error invalid_request "state is required"
      else if is_missing params.nonce
      then redirectable_error invalid_request "nonce is required"
      else if not (is_value "S256" params.code_challenge_method)
      then redirectable_error invalid_request "code_challenge_method must be S256"
      else if not (is_challenge params.code_challenge)
      then redirectable_error invalid_request "code_challenge is invalid"
      else let scopes = requested_scopes params.scope in
        if not (contains "openid" scopes)
        then redirectable_error invalid_scope "scope must include openid"
        else validate_scopes scopes (unsupported_scope client scopes)

module _ (identity : MemoryIdentityRepository) (params : RawParams) where
  tenant_for : Option String → Option Tenant
  tenant_for none = none
  tenant_for (some slug) = Identity.find_tenant_by_slug identity slug

  tenant_of : OidcClient → Option String → Option Tenant
  unfolding tenant_for
  tenant_of client none = none
  tenant_of client (some uri) =
      tenant_for (match_redirect_uri_template client.redirect_uri_template uri)

  validate_redirect : OidcClient → Option String → Option Tenant → Validation
  unfolding validate_params
  validate_redirect client (some uri) (some tenant) = validate_params params client uri tenant
  validate_redirect client uri tenant = err (refused invalid_redirect_uri)

  validate_client : Option OidcClient → Validation
  unfolding tenant_of validate_redirect
  validate_client none = err (refused invalid_client)
  validate_client (some client) =
      if is_active_client client.status
      then validate_redirect client params.redirect_uri (tenant_of client params.redirect_uri)
      else err (refused invalid_client)

  validate_named : Option String → Validation
  unfolding validate_client
  validate_named none = err (refused invalid_client)
  validate_named (some client_id) =
      if client_id == ""
      then err (refused invalid_client)
      else validate_client (Identity.find_client identity client_id)

  unfoldable pub validate_authorization_request :
      Result ValidatedAuthorizationRequest AuthorizationRequestError
  unfolding validate_named
  validate_authorization_request = validate_named params.client_id
