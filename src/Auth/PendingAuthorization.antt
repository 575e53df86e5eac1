-- ===== src/Auth/PendingAuthorization.antt =====
-- apps/auth-api/src/application/usecases/pending-authorization.ts: a validated request that waits for
-- its user to log in.
use multi_domain_sandbox.Prelude.{String, Option, none, some, Result, ok, err, if◌then◌else◌}
use multi_domain_sandbox.Shared.KvStore
use multi_domain_sandbox.Auth.Domain.{
  OidcClient, Tenant, AccessDeniedReason, RequestEnvironment, is_active_client,
  authorization_request_ttl_seconds,
}
use multi_domain_sandbox.Auth.Identity
use multi_domain_sandbox.Auth.Stores.{AuthorizationRequest, SsoSession}
use multi_domain_sandbox.Auth.Access.{ValidatedAuthorizationRequest, authorize_with_session}
use multi_domain_sandbox.Auth.State.{
  Env, Eff, pure, ◌>>=◌, ◌>>◌, gets, on_authorization_requests, done, key_of, random_token,
  token_bytes,
}

pub data ResumeError : Type 0 where
  access_denied : AccessDeniedReason → ResumeError
  invalid_request : ResumeError

abbrev as_resumed : Result String AccessDeniedReason → Result String ResumeError
as_resumed (ok code) = ok code
as_resumed (err reason) = err (access_denied reason)

-- `{ ...pending, client, tenant }`
abbrev with_context : AuthorizationRequest → OidcClient → Tenant → ValidatedAuthorizationRequest
with_context pending client tenant = record {
  client = client;
  redirect_uri = pending.redirect_uri;
  tenant = tenant;
  scope = pending.scope;
  state = pending.state;
  nonce = pending.nonce;
  code_challenge = pending.code_challenge;
}

abbrev as_pending : ValidatedAuthorizationRequest → AuthorizationRequest
as_pending request = record {
  client_id = request.client.client_id;
  tenant_id = request.tenant.id;
  redirect_uri = request.redirect_uri;
  scope = request.scope;
  state = request.state;
  nonce = request.nonce;
  code_challenge = request.code_challenge;
}

module _ (env : Env) where
  unfoldable pub store_pending_authorization : ValidatedAuthorizationRequest → Eff String
  store_pending_authorization request = do
    rid ← random_token env token_bytes
    on_authorization_requests (
        done (λ now.
          KvStore.set now (key_of env rid) (as_pending request) authorization_request_ttl_seconds))
    pure rid

  unfoldable pub load_pending_authorization : String → Eff (Option AuthorizationRequest)
  load_pending_authorization rid =
      on_authorization_requests (λ now. KvStore.get now (key_of env rid))

  unfoldable pub consume_pending_authorization : String → Eff (Option AuthorizationRequest)
  consume_pending_authorization rid =
      on_authorization_requests (λ now. KvStore.get_and_delete now (key_of env rid))

  resume_found :
      AuthorizationRequest
      → SsoSession
      → RequestEnvironment
      → Option OidcClient
      → Option Tenant
      → Eff (Result String ResumeError)
  resume_found pending session environment none tenant = pure (err invalid_request)
  resume_found pending session environment (some client) none = pure (err invalid_request)
  resume_found pending session environment (some client) (some tenant) =
      if is_active_client client.status
      then (do
        issued ← authorize_with_session env (with_context pending client tenant) session environment
        pure (as_resumed issued))
      else pure (err invalid_request)

  unfoldable pub resume_pending_authorization :
      AuthorizationRequest → SsoSession → RequestEnvironment → Eff (Result String ResumeError)
  unfolding resume_found
  resume_pending_authorization pending session environment = do
    identity ← gets (λ s. s.identity)
    resume_found pending session environment (Identity.find_client identity pending.client_id)
        (Identity.find_tenant_by_id identity pending.tenant_id)
