-- ===== src/Client/Routes.antt =====
-- packages/oidc-client/src/routes.ts and middleware.ts, without the rate and body limits and the log.
-- What the routes use of `OidcProvider` (packages/oidc-client/src/provider.ts) is the record `Provider`.
pub mod Callback
pub mod Logout
pub mod Returns
use Prim.Native.String.{◌++◌ as append}
use multi_domain_sandbox.Prelude.{
  ℕ, String, Option, none, some, Bool, true, false, Result, ok, err, List, [], ◌∷◌, not, ◌==◌,
  if◌then◌else◌,
}
use multi_domain_sandbox.Shared.KvStore
use multi_domain_sandbox.Shared.ReturnTo.{sanitize_return_to}
use multi_domain_sandbox.Client.Types.{
  OidcClientConfig, TenantSession, PreAuthState, TokenResponse, ServiceConfig, pre_auth_ttl_seconds,
}
use multi_domain_sandbox.Client.State.{
  ClientState, Act, pure, ◌>>=◌, ◌>>◌, on_pre_auth, done, RandomBytes, random_token, token_bytes,
}
use multi_domain_sandbox.Client.Session.{
  load_session, touch_session, create_session, destroy_session, destroy_sessions_by_sid,
  session_key,
}
use multi_domain_sandbox.Client.Access.{
  ProviderError, discovery_failed, jwks_failed, token_request_failed, id_token_invalid,
  invalid_grant, invalid_client,
}

-- The claims of an ID token that the routes read, where they are strings.
pub record IdClaims : Type 0 where
  pub sub : Option String
  pub sid : Option String
  pub tenant_id : Option String
  pub tenant_slug : Option String
  pub email : Option String
  pub name : Option String

pub record LogoutClaims : Type 0 where
  pub sid : String
  pub audience : String

pub record Provider : Type 0 where
  pub issuer : String
  -- the authorization endpoint
  pub get_discovery : Act (Result String ProviderError)
  -- a code and its verifier
  pub exchange_code : OidcClientConfig → String → String → Act (Result TokenResponse ProviderError)
  -- an ID token and the nonce
  pub verify_id_token : String → OidcClientConfig → String → Act (Result IdClaims ProviderError)
  pub verify_logout_token : String → Act (Result LogoutClaims ProviderError)
  pub revoke : OidcClientConfig → String → Act (Result (Unit {0}) ProviderError)

pub data CookieChange : Type 0 where
  kept cleared : CookieChange
  written : String → CookieChange

pub data Reply : Type 0 where
  -- an error page: its title, its message and its status
  page : String → String → ℕ → Reply
  redirect : String → Reply
  -- an endpoint and its query
  redirect_with : String → List (String × String) → Reply
  json_error : String → ℕ → Reply
  empty_body : ℕ → Reply

pub record Response : Type 0 where
  pub reply : Reply
  pub session_cookie : CookieChange
  pub pre_auth_cookie : CookieChange

abbrev pub retry_login : String → ℕ → Reply
retry_login message status = page "ログインをやり直してください" message status

abbrev pub temporary_error : ℕ → Reply
temporary_error status = page "一時的なエラーです" "しばらくしてから再試行してください。" status

-- A reply of the callback that leaves the session's cookie as it is.
abbrev ended : Reply → Response
ended reply = record { reply = reply; session_cookie = kept; pre_auth_cookie = cleared }

abbrev pub pre_auth_key : OidcClientConfig → String → String
pre_auth_key client id = session_key client.tenant_slug id

abbrev join_scopes : List String → String
join_scopes [] = ""
join_scopes (x ∷ []) = x
join_scopes (x ∷ xs) = append x (append " " (join_scopes xs))

pub token_error : ProviderError → Reply
token_error invalid_grant = retry_login "認可コードが無効です。" 401
token_error invalid_client = temporary_error 500
token_error error = temporary_error 503

pub authorization_error : OidcClientConfig → String → Option String → Reply
authorization_error client error description =
    if not (error == "access_denied")
    then page "ログインに失敗しました" "サービスからやり直してください。" 400
    else if is_reason "not_contracted" description
    then page "このサービスは契約されていません"
        (append "テナント " (
          append client.tenant_slug
            (append " は " (append client.name " を契約していません。契約状況を確認してください。"))))
        403
    else if is_reason "tenant_suspended" description
    then page "テナントは利用停止中です" "管理者に確認してください。" 403
    else page "アクセス権がありません"
        (append "テナント " (append client.tenant_slug " へのアクセス権がありません。管理者に招待を依頼してください。")) 403
  where
    is_reason : String → Option String → Bool
    is_reason reason none = false
    is_reason reason (some d) = d == reason

pub record CallbackQuery : Type 0 where
  pub state : Option String
  pub iss : Option String
  pub error : Option String
  pub error_description : Option String
  pub code : Option String

module _ (random : RandomBytes) (compute_code_challenge : String → String)
    (provider : Provider) where
  login_at : OidcClientConfig → Option String → Result String ProviderError → Act Response
  login_at client return_to (err error) =
      pure (record { reply = temporary_error 503; session_cookie = kept; pre_auth_cookie = kept })
  login_at client return_to (ok endpoint) = do
    pre_auth_id ← random_token random token_bytes
    code_verifier ← random_token random token_bytes
    state ← random_token random token_bytes
    nonce ← random_token random token_bytes
    let pre_auth : PreAuthState = record {
      state = state;
      nonce = nonce;
      code_verifier = code_verifier;
      return_to = sanitize_return_to return_to;
    }
    on_pre_auth (
        done
          (λ now. KvStore.set now (pre_auth_key client pre_auth_id) pre_auth pre_auth_ttl_seconds))
    pure (record {
      reply = redirect_with endpoint (
          ("response_type", "code")
          ∷ ("client_id", client.client_id)
          ∷ ("redirect_uri", client.redirect_uri)
          ∷ ("scope", join_scopes client.scopes)
          ∷ ("state", state)
          ∷ ("nonce", nonce)
          ∷ ("code_challenge", compute_code_challenge code_verifier)
          ∷ ("code_challenge_method", "S256")
          ∷ []);
      session_cookie = kept;
      pre_auth_cookie = written pre_auth_id;
    })

  -- GET /auth/login
  unfoldable pub login : OidcClientConfig → Option String → Act Response
  unfolding login_at
  login client return_to = do
    discovery ← provider.get_discovery
    login_at client return_to discovery
