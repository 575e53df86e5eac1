-- ===== src/Client/Access.antt =====
-- packages/oidc-client/src/api-client.ts. What passes while a request waits for a timer or for the
-- network, other requests' work included, is the parameter `world`.
pub mod Waiting
pub mod Fresh
pub mod Forced
pub mod Locks
use Prim.Native.String.{◌++◌ as append}
use multi_domain_sandbox.Prelude.{
  ℕ, zero, suc, ◌+◌, String, Option, none, some, Bool, true, false, Result, ok, err, leb, eqb, not,
  ◌||◌, if◌then◌else◌,
}
use multi_domain_sandbox.Shared.KvStore
use multi_domain_sandbox.Shared.OidcProtocol.{is_expired_token_challenge}
use multi_domain_sandbox.Client.Types.{
  OidcClientConfig, TenantSession, TokenResponse, access_token_refresh_margin_seconds,
  refresh_lock_ttl_seconds,
}
use multi_domain_sandbox.Client.State.{
  ClientState, Act, pure, ◌>>=◌, ◌>>◌, gets, on_refresh_locks, done,
}
use multi_domain_sandbox.Client.Session.{
  load_session, save_session, destroy_session, session_key, or_else,
}

pub data ProviderError : Type 0 where
  discovery_failed jwks_failed token_request_failed id_token_invalid : String → ProviderError
  invalid_grant invalid_client : ProviderError

abbrev pub kind_of : ProviderError → String
kind_of (discovery_failed _) = "discovery_failed"
kind_of (jwks_failed _) = "jwks_failed"
kind_of (token_request_failed _) = "token_request_failed"
kind_of (id_token_invalid _) = "id_token_invalid"
kind_of invalid_grant = "invalid_grant"
kind_of invalid_client = "invalid_client"

pub data ApiAccessError : Type 0 where
  session_expired : ApiAccessError
  provider_unavailable : String → ApiAccessError

-- A call of an API: the URL, the caller's own part of the request, and the Authorization header.
pub record ApiRequest (Init : Type 0) : Type 0 where
  pub url : String
  pub init : Init
  pub authorization : String

pub record ApiResponse (Body : Type 0) : Type 0 where
  pub status : ℕ
  pub www_authenticate : Option String
  pub body : Body

pub record World (Init Body : Type 0) : Type 0 where
  -- so many milliseconds pass
  pub sleep : ℕ → Act (Unit {0})
  -- `OidcProvider.refresh` for a client and its refresh token
  pub refresh : OidcClientConfig → String → Act (Result TokenResponse ProviderError)
  pub fetch : ApiRequest Init → Act (ApiResponse Body)

pub record Fetched (Body : Type 0) : Type 0 where
  pub response : ApiResponse Body
  pub session : TenantSession

abbrev pub refresh_wait_ms : ℕ
refresh_wait_ms = 100

abbrev pub refresh_wait_attempts : ℕ
refresh_wait_attempts = 30

unfoldable pub needs_refresh : TenantSession → ℕ → Bool
needs_refresh session now =
    leb session.access_token_expires_at (now + access_token_refresh_margin_seconds)

abbrev pub refreshed_session : TenantSession → ℕ → TokenResponse → TenantSession
refreshed_session session now tokens = record session {
  access_token = tokens.access_token;
  access_token_expires_at = now + tokens.expires_in;
  refresh_token = tokens.refresh_token;
}

refresh_answered :
    TenantSession → Result TokenResponse ProviderError → Act (Result TenantSession ApiAccessError)
refresh_answered session (err invalid_grant) = do
  destroy_session session
  pure (err session_expired)
refresh_answered session (err error) = pure (err (provider_unavailable (kind_of error)))
refresh_answered session (ok tokens) = do
  now ← gets (λ s. s.now)
  updated ← save_session (refreshed_session session now tokens)
  pure (ok updated)

abbrev pub lock_key_of : OidcClientConfig → TenantSession → String
lock_key_of client session = session_key client.tenant_slug session.id

module _ {Init Body : Type 0} (world : World Init Body) where
  unfoldable pub refresh :
      OidcClientConfig → TenantSession → Act (Result TenantSession ApiAccessError)
  unfolding refresh_answered
  refresh client session = do
    refreshed ← world.refresh client session.refresh_token
    refresh_answered session refreshed

  -- The loop's rounds that are left.
  unfoldable pub wait_rounds :
      OidcClientConfig → TenantSession → ℕ → Act (Result TenantSession ApiAccessError)
  wait_rounds client session zero s = (err (provider_unavailable "refresh_lock_timeout"), s)
  wait_rounds client session (suc left) s =
      let (_, s1) = world.sleep refresh_wait_ms s in
      let (found, s2) = load_session client (some session.id) s1 in
      elim found [
        | none ↦ (err session_expired, s2)
        | some latest ↦ elim (needs_refresh latest s2.now) [
          | true ↦ wait_rounds client session left s2
          | false ↦ (ok latest, s2)
        ]
      ]

  unfoldable pub wait_for_refresh :
      OidcClientConfig → TenantSession → Act (Result TenantSession ApiAccessError)
  wait_for_refresh client session = wait_rounds client session refresh_wait_attempts

  -- The body of `try`.
  with_lock : OidcClientConfig → TenantSession → Act (Result TenantSession ApiAccessError)
  with_lock client session = do
    found ← load_session client (some session.id)
    now ← gets (λ s. s.now)
    let latest = or_else found session
    if needs_refresh latest now then refresh client latest else pure (ok latest)

  lock_answered :
      OidcClientConfig → TenantSession → Bool → Act (Result TenantSession ApiAccessError)
  unfolding with_lock
  lock_answered client session false = wait_for_refresh client session
  lock_answered client session true = do
    result ← with_lock client session
    on_refresh_locks (done (λ now. KvStore.delete (lock_key_of client session)))
    pure result

  unfoldable pub ensure_fresh_access_token :
      OidcClientConfig → TenantSession → Act (Result TenantSession ApiAccessError)
  unfolding lock_answered
  ensure_fresh_access_token client session = do
    now ← gets (λ s. s.now)
    if needs_refresh session now
        then (do
          locked ← on_refresh_locks (λ at.
              KvStore.set_if_absent at (lock_key_of client session) "1" refresh_lock_ttl_seconds)
          lock_answered client session locked)
        else pure (ok session)

  abbrev pub with_bearer : String → Init → String → ApiRequest Init
  with_bearer url init access_token = record {
    url = url;
    init = init;
    authorization = append "Bearer " access_token;
  }

  retried :
      String
      → Init
      → Result TenantSession ApiAccessError
      → Act (Result (Fetched Body) ApiAccessError)
  retried url init (err e) = pure (err e)
  retried url init (ok session) = do
    response ← world.fetch (with_bearer url init session.access_token)
    pure (ok (record { response = response; session = session }))

  fetched :
      OidcClientConfig
      → String
      → Init
      → Result TenantSession ApiAccessError
      → Act (Result (Fetched Body) ApiAccessError)
  unfolding retried
  fetched client url init (err e) = pure (err e)
  fetched client url init (ok session) = do
    response ← world.fetch (with_bearer url init session.access_token)
    if not (eqb response.status 401) || not (is_expired_token_challenge response.www_authenticate)
        then pure (ok (record { response = response; session = session }))
        else (do
          forced ← ensure_fresh_access_token client (record session { access_token_expires_at = 0 })
          retried url init forced)

  unfoldable pub api_fetch :
      OidcClientConfig → TenantSession → String → Init → Act (Result (Fetched Body) ApiAccessError)
  unfolding fetched
  api_fetch client session url init = do
    fresh ← ensure_fresh_access_token client session
    fetched client url init fresh
