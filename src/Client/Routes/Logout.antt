-- ===== src/Client/Routes/Logout.antt =====
-- packages/oidc-client/src/routes.ts: POST /auth/logout and the back-channel logout, and
-- packages/oidc-client/src/middleware.ts.
pub mod Ended
use Prim.Native.String.{◌++◌ as append}
use multi_domain_sandbox.Prelude.{
  ℕ, String, ◌≡◌, Option, none, some, Bool, true, false, Result, ok, err, not, ◌==◌, if◌then◌else◌,
}
use multi_domain_sandbox.Client.Types.{OidcClientConfig, TenantSession, ServiceConfig}
use multi_domain_sandbox.Client.State.{ClientState, Act, pure, ◌>>=◌, ◌>>◌}
use multi_domain_sandbox.Client.Session.{
  load_session, touch_session, destroy_session, destroy_sessions_by_sid,
}
use multi_domain_sandbox.Client.Access.{ProviderError}
use multi_domain_sandbox.Client.Routes.{
  Provider, LogoutClaims, Reply, page, redirect, json_error, empty_body, Response, CookieChange,
  kept, cleared,
}

-- `timingSafeEqualString(form.csrf, session.csrfToken)`, where the field is there
abbrev csrf_matches : Option String → TenantSession → Bool
csrf_matches none session = false
csrf_matches (some csrf) session = csrf == session.csrf_token

module _ (provider : Provider) where
  -- POST /auth/logout: the request's session and the form's field `csrf`.
  unfoldable pub logout : OidcClientConfig → Option TenantSession → Option String → Act Response
  logout client none csrf =
      pure (record { reply = redirect "/"; session_cookie = cleared; pre_auth_cookie = kept })
  logout client (some session) csrf =
      if csrf_matches csrf session
      then (do
        revoked ← provider.revoke client session.refresh_token
        destroy_session session
        pure (record {
          reply = redirect "/?logged_out=1";
          session_cookie = cleared;
          pre_auth_cookie = kept;
        }))
      else pure (record {
        reply = page "ページを再読み込みしてください" "フォームの有効期限が切れています。" 403;
        session_cookie = kept;
        pre_auth_cookie = kept;
      })

  module _ (resolve_client_by_id : String → Option ServiceConfig) where
    logout_client : LogoutClaims → Option ServiceConfig → Act Reply
    logout_client claims none = pure (json_error "invalid_request" 400)
    logout_client claims (some client) = do
      removed ← destroy_sessions_by_sid claims.sid
      pure (empty_body 200)

    logout_verified : Result LogoutClaims ProviderError → Act Reply
    unfolding logout_client
    logout_verified (err error) = pure (json_error "invalid_request" 400)
    logout_verified (ok claims) = logout_client claims (resolve_client_by_id claims.audience)

    -- POST /auth/backchannel-logout: the form's field `logout_token`.
    unfoldable pub backchannel_logout : Option String → Act Reply
    unfolding logout_verified
    backchannel_logout none = pure (json_error "invalid_request" 400)
    backchannel_logout (some logout_token) =
        if logout_token == ""
        then pure (json_error "invalid_request" 400)
        else (do verified ← provider.verify_logout_token logout_token; logout_verified verified)

-- What a request's handlers find: its client, its session, and what becomes of the cookie.
pub record TenantContext : Type 0 where
  pub client : OidcClientConfig
  pub session : Option TenantSession
  pub session_cookie : CookieChange

abbrev cleared_if_sent : Option String → CookieChange
cleared_if_sent none = kept
cleared_if_sent (some cookie) = cleared

context_with : OidcClientConfig → Option String → Option TenantSession → Act (Option TenantContext)
context_with client cookie none =
    pure
      (some (record { client = client; session = none; session_cookie = cleared_if_sent cookie }))
context_with client cookie (some session) = do
  touched ← touch_session session
  pure (some (record { client = client; session = some touched; session_cookie = kept }))

context_of : Option OidcClientConfig → Option String → Act (Option TenantContext)
unfolding context_with
context_of none cookie = pure none
context_of (some client) cookie = do
  session ← load_session client cookie
  context_with client cookie session

-- `tenantContext`: none where the host is unknown.
unfoldable pub tenant_context :
    (Option String → Option OidcClientConfig)
    → Option String
    → Option String
    → Act (Option TenantContext)
unfolding context_of
tenant_context resolve_client host cookie = context_of (resolve_client host) cookie

-- `requireSession`: none where the request goes on, or the login with the path, percent-encoded.
abbrev pub require_session : (String → String) → Option TenantSession → String → Option Reply
require_session encode none path = some (redirect (append "/auth/login?return_to=" (encode path)))
require_session encode (some session) path = none
