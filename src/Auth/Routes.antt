-- ===== src/Auth/Routes.antt =====
-- apps/auth-api/src/interface/http/routes: /authorize (authorize.ts), /token and /revoke (token.ts,
-- client-auth.ts), POST /logout (logout.ts) and POST /sessions/revoke (sessions.ts), on parameters and forms
-- that zod has accepted; without the rate limits and the log.
pub mod Replies
use multi_domain_sandbox.Prelude.{
  ℕ, String, Option, none, some, Bool, true, false, Result, ok, err, List, [], ◌∷◌, not, ◌&&◌, ◌==◌,
  if◌then◌else◌,
}
use multi_domain_sandbox.Auth.Domain.{
  OidcClient, AccessDeniedReason, RequestEnvironment, SessionRevokeReason, user_disabled,
  tenant_suspended, not_contracted, no_membership, membership_inactive,
}
use multi_domain_sandbox.Auth.Stores.{SsoSession}
use multi_domain_sandbox.Auth.State.{Env, AuthState, Eff, pure, ◌>>=◌, ◌>>◌, gets}
use multi_domain_sandbox.Auth.SsoSession.{load_sso_session}
use multi_domain_sandbox.Auth.Sessions
use multi_domain_sandbox.Auth.Sessions.{AuthSessionWithClients}
use multi_domain_sandbox.Auth.Access.{ValidatedAuthorizationRequest, authorize_with_session}
use multi_domain_sandbox.Auth.AuthorizationRequest.{
  RawParams, RedirectKind, AuthorizationRequestError, refused, redirectable, invalid_request,
  unsupported_response_type, invalid_scope, validate_authorization_request,
}
use multi_domain_sandbox.Auth.PendingAuthorization.{store_pending_authorization}
use multi_domain_sandbox.Auth.Csrf.{verify_csrf_token}
use multi_domain_sandbox.Auth.GlobalLogout.{global_logout, revoke_session_by_sid}
use multi_domain_sandbox.Auth.ClientAuth.{Codec, authenticate_client}
use multi_domain_sandbox.Auth.Token.{
  TokenResponse, TokenError, CodeExchangeInput, exchange_authorization_code, refresh_access_token,
  revoke_refresh_token,
}

pub data Reply : Type 0 where
  -- an error page, by its status
  page : ℕ → Reply
  -- the login with a pending request's identifier
  to_login : String → Reply
  -- `buildRedirect`: the URI with these parameters, those that are there, and the issuer's `iss`
  to_client : String → List (String × Option String) → Reply
  -- a path of this server
  see_other : String → Reply
  json_error : String → ℕ → Reply
  tokens : TokenResponse → Reply
  no_content : Reply

pub record Response : Type 0 where
  pub reply : Reply
  pub clears_session_cookie : Bool

abbrev replied : Reply → Response
replied reply = record { reply = reply; clears_session_cookie = false }

abbrev kind_name : RedirectKind → String
kind_name invalid_request = "invalid_request"
kind_name unsupported_response_type = "unsupported_response_type"
kind_name invalid_scope = "invalid_scope"

abbrev reason_name : AccessDeniedReason → String
reason_name user_disabled = "user_disabled"
reason_name tenant_suspended = "tenant_suspended"
reason_name not_contracted = "not_contracted"
reason_name no_membership = "no_membership"
reason_name membership_inactive = "membership_inactive"

unfoldable pub respond_validation_error : AuthorizationRequestError → Reply
respond_validation_error (refused kind) = page 400
respond_validation_error (redirectable kind uri state description) = to_client uri (
    ("error", some (kind_name kind))
    ∷ ("error_description", some description)
    ∷ ("state", state)
    ∷ [])

unfoldable pub redirect_for_outcome :
    ValidatedAuthorizationRequest → Result String AccessDeniedReason → Reply
redirect_for_outcome request (ok code) =
    to_client request.redirect_uri (("code", some code) ∷ ("state", some request.state) ∷ [])
redirect_for_outcome request (err reason) = to_client request.redirect_uri (
    ("error", some "access_denied")
    ∷ ("error_description", some (reason_name reason))
    ∷ ("state", some request.state)
    ∷ [])

abbrev was_sent : Option String → Bool
was_sent none = false
was_sent (some cookie) = true

-- The two forms of POST /token.
pub data TokenForm : Type 0 where
  authorization_code : CodeExchangeInput → TokenForm
  refresh_token : String → TokenForm

token_reply : Result TokenResponse TokenError → Reply
token_reply (ok response) = tokens response
token_reply (err error) = json_error "invalid_grant" 400

module _ (env : Env) where
  with_session :
      Option String
      → RequestEnvironment
      → ValidatedAuthorizationRequest
      → Option SsoSession
      → Eff Response
  with_session cookie environment request none = do
    rid ← store_pending_authorization env request
    pure (record { reply = to_login rid; clears_session_cookie = was_sent cookie })
  with_session cookie environment request (some session) = do
    outcome ← authorize_with_session env request session environment
    pure (replied (redirect_for_outcome request outcome))

  validated :
      Option String
      → RequestEnvironment
      → Result ValidatedAuthorizationRequest AuthorizationRequestError
      → Eff Response
  unfolding with_session
  validated cookie environment (err error) = pure (replied (respond_validation_error error))
  validated cookie environment (ok request) = do
    session ← load_sso_session env cookie
    with_session cookie environment request session

  -- GET /authorize
  unfoldable pub authorize : RawParams → Option String → RequestEnvironment → Eff Response
  unfolding validated
  authorize params cookie environment = do
    identity ← gets (λ s. s.identity)
    validated cookie environment (validate_authorization_request identity params)

  module _ (codec : Codec) where
    token_for : TokenForm → Option OidcClient → Eff Reply
    unfolding token_reply
    token_for form none = pure (json_error "invalid_client" 401)
    token_for (authorization_code input) (some client) = do
      result ← exchange_authorization_code env client input
      pure (token_reply result)
    token_for (refresh_token value) (some client) = do
      result ← refresh_access_token env client value
      pure (token_reply result)

    -- POST /token
    unfoldable pub token : Option String → TokenForm → Eff Reply
    unfolding token_for
    token authorization form = do
      identity ← gets (λ s. s.identity)
      token_for form (authenticate_client codec identity authorization)

    revoke_for : String → Option OidcClient → Eff Reply
    revoke_for value none = pure (json_error "invalid_client" 401)
    revoke_for value (some client) = do revoke_refresh_token env client value; pure no_content

    -- POST /revoke
    unfoldable pub revoke : Option String → String → Eff Reply
    unfolding revoke_for
    revoke authorization value = do
      identity ← gets (λ s. s.identity)
      revoke_for value (authenticate_client codec identity authorization)

  logout_session : RequestEnvironment → Option SsoSession → Eff (Unit {0})
  logout_session environment none = pure tt
  logout_session environment (some session) = global_logout env session environment

  -- POST /logout, with the query that the form asks for.
  unfoldable pub logout :
      Option String → Option String → String → String → RequestEnvironment → Eff Response
  unfolding logout_session
  logout cookie csrf_cookie csrf query environment = do
    valid ← verify_csrf_token env csrf_cookie (some csrf)
    if not valid then pure (replied (page 403)) else (do
      session ← load_sso_session env cookie
      logout_session environment session
      pure (record { reply = see_other query; clears_session_cookie = true }))

  -- One's own sessions only, and not the one that asks.
  unfoldable pub is_other_of : SsoSession → AuthSessionWithClients → Bool
  is_other_of session target = target.user_id == session.user_id && not (target.id == session.sid)

  revoke_target : SsoSession → RequestEnvironment → Option AuthSessionWithClients → Eff (Unit {0})
  unfolding is_other_of
  revoke_target session environment none = pure tt
  revoke_target session environment (some target) =
      if is_other_of session target
      then revoke_session_by_sid env target.id SessionRevokeReason.user_revoked (some environment)
      else pure tt

  revoke_as : Option String → String → String → RequestEnvironment → Option SsoSession → Eff Reply
  unfolding revoke_target
  revoke_as csrf_cookie csrf session_id environment none = pure (see_other "/login")
  revoke_as csrf_cookie csrf session_id environment (some session) = do
    valid ← verify_csrf_token env csrf_cookie (some csrf)
    if not valid then pure (page 403) else (do
      sessions ← gets (λ s. s.sessions)
      revoke_target session environment (Sessions.find_with_clients sessions session_id)
      pure (see_other "/security"))

  -- POST /sessions/revoke
  unfoldable pub revoke_session :
      Option String → Option String → String → String → RequestEnvironment → Eff Reply
  unfolding revoke_as
  revoke_session cookie csrf_cookie csrf session_id environment = do
    session ← load_sso_session env cookie
    revoke_as csrf_cookie csrf session_id environment session
