-- ===== src/Client/Routes/Callback.antt =====
-- packages/oidc-client/src/routes.ts: GET /auth/callback.
pub mod Established
use multi_domain_sandbox.Prelude.{
  ℕ, String, Option, none, some, Bool, true, false, Result, ok, err, not, ◌==◌, if◌then◌else◌,
}
use multi_domain_sandbox.Shared.KvStore
use multi_domain_sandbox.Client.Types.{OidcClientConfig, TenantSession, PreAuthState, TokenResponse}
use multi_domain_sandbox.Client.State.{
  ClientState, Act, pure, ◌>>=◌, ◌>>◌, on_pre_auth, RandomBytes,
}
use multi_domain_sandbox.Client.Session.{
  NewSessionInput, load_session, create_session, destroy_session,
}
use multi_domain_sandbox.Client.Access.{ProviderError}
use multi_domain_sandbox.Client.Routes.{
  IdClaims, Provider, CallbackQuery, Reply, redirect, Response, kept, cleared, written, retry_login,
  ended, pre_auth_key, token_error, authorization_error,
}

abbrev pub is_value : String → Option String → Bool
is_value expected none = false
is_value expected (some value) = value == expected

-- The parameter is absent, or it is the value.
abbrev pub is_absent_or : String → Option String → Bool
is_absent_or expected none = true
is_absent_or expected (some value) = value == expected

module _ (random : RandomBytes) (provider : Provider) (client : OidcClientConfig) where
  abbrev input_of : TokenResponse → IdClaims → String → String → String → NewSessionInput
  input_of tokens claims sub sid tenant_id = record {
    client = client;
    user_id = sub;
    tenant_id = tenant_id;
    sid = sid;
    email = claims.email;
    name = claims.name;
    tokens = tokens;
  }

  destroy_existing : Option TenantSession → Act (Unit {0})
  destroy_existing none = pure tt
  destroy_existing (some existing) = destroy_session existing

  -- Session fixation: the session that the browser had is destroyed before the new one is made.
  start_session : PreAuthState → Option String → NewSessionInput → Act Response
  unfolding destroy_existing
  start_session pre_auth session_cookie input = do
    existing ← load_session client session_cookie
    destroy_existing existing
    session ← create_session random input
    pure (record {
      reply = redirect pre_auth.return_to;
      session_cookie = written session.id;
      pre_auth_cookie = cleared;
    })

  abbrev incomplete : Act Response
  incomplete = pure (ended (retry_login "認証結果が不完全です。" 401))

  with_subject :
      PreAuthState
      → Option String
      → TokenResponse
      → IdClaims
      → Option String
      → Option String
      → Option String
      → Act Response
  unfolding start_session
  with_subject pre_auth session_cookie tokens claims (some sub) (some sid) (some tenant_id) =
      if is_value client.tenant_slug claims.tenant_slug
      then start_session pre_auth session_cookie (input_of tokens claims sub sid tenant_id)
      else pure (ended (retry_login "テナントが一致しません。" 401))
  with_subject pre_auth session_cookie tokens claims sub sid tenant_id = incomplete

  with_claims :
      PreAuthState → Option String → TokenResponse → Result IdClaims ProviderError → Act Response
  unfolding with_subject
  with_claims pre_auth session_cookie tokens (err error) =
      pure (ended (retry_login "認証結果を検証できませんでした。" 401))
  with_claims pre_auth session_cookie tokens (ok claims) =
      with_subject pre_auth session_cookie tokens claims claims.sub claims.sid claims.tenant_id

  with_id_token : PreAuthState → Option String → TokenResponse → Option String → Act Response
  unfolding with_claims
  with_id_token pre_auth session_cookie tokens none =
      pure (ended (retry_login "ID Token がありません。" 401))
  with_id_token pre_auth session_cookie tokens (some id_token) = do
    claims ← provider.verify_id_token id_token client pre_auth.nonce
    with_claims pre_auth session_cookie tokens claims

  with_tokens : PreAuthState → Option String → Result TokenResponse ProviderError → Act Response
  unfolding with_id_token
  with_tokens pre_auth session_cookie (err error) = pure (ended (token_error error))
  with_tokens pre_auth session_cookie (ok tokens) =
      with_id_token pre_auth session_cookie tokens tokens.id_token

  with_code : PreAuthState → Option String → Option String → Act Response
  unfolding with_tokens
  with_code pre_auth session_cookie none = pure (ended (retry_login "認可コードがありません。" 400))
  with_code pre_auth session_cookie (some code) =
      if code == "" then pure (ended (retry_login "認可コードがありません。" 400)) else (do
        tokens ← provider.exchange_code client code pre_auth.code_verifier
        with_tokens pre_auth session_cookie tokens)

  with_error : CallbackQuery → PreAuthState → Option String → Option String → Act Response
  unfolding with_code
  with_error query pre_auth session_cookie (some error) =
      pure (ended (authorization_error client error query.error_description))
  with_error query pre_auth session_cookie none = with_code pre_auth session_cookie query.code

  with_pre_auth : CallbackQuery → Option String → Option PreAuthState → Act Response
  unfolding with_error
  with_pre_auth query session_cookie none = pure (ended (retry_login "ログイン要求の有効期限が切れています。" 400))
  with_pre_auth query session_cookie (some pre_auth) =
      if not (is_value pre_auth.state query.state)
      then pure (ended (retry_login "ログイン要求が一致しません。" 400))
      else if not (is_absent_or provider.issuer query.iss)
      then pure (ended (retry_login "ログイン要求が一致しません。" 400))
      else with_error query pre_auth session_cookie query.error

  -- The state of a login is taken and deleted at once.
  pub take_pre_auth : Option String → Act (Option PreAuthState)
  take_pre_auth none = pure none
  take_pre_auth (some id) = on_pre_auth (λ now. KvStore.get_and_delete now (pre_auth_key client id))

  -- The query and the two cookies.
  unfoldable pub callback : CallbackQuery → Option String → Option String → Act Response
  unfolding with_pre_auth take_pre_auth
  callback query pre_auth_cookie session_cookie = do
    pre_auth ← take_pre_auth pre_auth_cookie
    with_pre_auth query session_cookie pre_auth
