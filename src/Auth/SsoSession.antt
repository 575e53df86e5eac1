-- ===== src/Auth/SsoSession.antt =====
-- apps/auth-api/src/application/usecases/sso-session.ts.
pub mod Frame
use multi_domain_sandbox.Prelude.{
  ℕ, String, Option, none, some, Bool, true, false, ◌==◌, if◌then◌else◌,
}
use multi_domain_sandbox.Shared.KvStore
use multi_domain_sandbox.Shared.SessionExpiry.{
  ExpiringSession, SessionExpiryPolicy, is_expired, remaining_ttl,
}
use multi_domain_sandbox.Auth.Domain.{
  OidcClient, User, RequestEnvironment, AuditEventKind, AuditDetail, environment_changed,
  environment_changed_event, sso_session_idle_seconds, sso_session_absolute_seconds,
}
use multi_domain_sandbox.Auth.Cognito.{CognitoAuthenticated}
use multi_domain_sandbox.Auth.Stores.{SsoSession}
use multi_domain_sandbox.Auth.Sessions
use multi_domain_sandbox.Auth.State.{
  Env, Eff, pure, ◌>>=◌, ◌>>◌, gets, on_sso_sessions, on_sid_index, on_sessions, done, key_of,
  random_token, token_bytes, seal_tokens, record_audit, AuthState,
}

abbrev pub expiry : SessionExpiryPolicy
expiry = record {
  idle_seconds = sso_session_idle_seconds;
  absolute_seconds = sso_session_absolute_seconds;
}

abbrev pub times : SsoSession → ExpiringSession
times s = record { created_at = s.created_at; last_seen_at = s.last_seen_at }

pub record CreatedSsoSession : Type 0 where
  pub session : SsoSession
  pub cookie_value : String

unfoldable pub destroy_sso_session : SsoSession → Eff (Unit {0})
destroy_sso_session session = do
  on_sso_sessions (done (λ now. KvStore.delete session.id))
  on_sid_index (done (λ now. KvStore.delete session.sid))

load_found : Option SsoSession → Eff (Option SsoSession)
load_found none = pure none
load_found (some session) = do
  now ← gets (λ s. s.now)
  if is_expired expiry (times session) now
      then (do destroy_sso_session session; pure none)
      else pure (some session)

unfoldable pub load_sso_session_by_key : String → Eff (Option SsoSession)
unfolding load_found
load_sso_session_by_key key = do
  found ← on_sso_sessions (λ now. KvStore.get now key)
  load_found found

load_at : Option String → Eff (Option SsoSession)
load_at none = pure none
load_at (some key) = load_sso_session_by_key key

unfoldable pub find_sso_session_by_sid : String → Eff (Option SsoSession)
unfolding load_at
find_sso_session_by_sid sid = do found ← on_sid_index (λ now. KvStore.get now sid); load_at found

module _ (env : Env) where
  unfoldable pub load_sso_session : Option String → Eff (Option SsoSession)
  load_sso_session none = pure none
  load_sso_session (some cookie_value) =
      if cookie_value == "" then pure none else load_sso_session_by_key (key_of env cookie_value)

  unfoldable pub create_sso_session :
      User → CognitoAuthenticated → RequestEnvironment → Eff CreatedSsoSession
  create_sso_session user authenticated environment = do
    now ← gets (λ s. s.now)
    cookie_value ← random_token env token_bytes
    sid ← random_token env token_bytes
    sealed ← seal_tokens env authenticated.tokens
    let session : SsoSession = record {
      id = key_of env cookie_value;
      sid = sid;
      user_id = user.id;
      encrypted_cognito_tokens = sealed;
      auth_time = now;
      created_at = now;
      last_seen_at = now;
    }
    on_sso_sessions (done (λ at. KvStore.set at session.id session sso_session_absolute_seconds))
    on_sid_index (done (λ at. KvStore.set at session.sid session.id sso_session_absolute_seconds))
    on_sessions (λ r. Sessions.create r (record {
      id = session.sid;
      user_id = user.id;
      ip = environment.ip;
      user_agent = environment.user_agent;
      created_at = now;
      last_seen_at = now;
    }))
    pure (record { session = session; cookie_value = cookie_value })

  -- The event for a browser that shows another address or agent than the last time.
  record_change :
      SsoSession
      → OidcClient
      → String
      → RequestEnvironment
      → Option RequestEnvironment
      → Eff (Unit {0})
  record_change session client tenant_id environment none = pure tt
  record_change session client tenant_id environment (some previous) =
      if environment_changed previous environment
      then record_audit env (record {
        kind = environment_changed_event;
        user_id = some session.user_id;
        session_id = some session.sid;
        tenant_id = some tenant_id;
        client_id = some client.client_id;
        ip = some environment.ip;
        user_agent = some environment.user_agent;
        detail = AuditDetail.previous_environment previous environment;
      })
      else pure tt

  touch_record : String → RequestEnvironment → Eff (Option RequestEnvironment)
  touch_record sid environment s =
      let (previous, r) = Sessions.touch s.sessions sid environment s.now in
      (previous, record s { sessions = r })

  unfoldable pub touch_sso_session :
      SsoSession → OidcClient → String → RequestEnvironment → Eff SsoSession
  unfolding record_change touch_record
  touch_sso_session session client tenant_id environment = do
    now ← gets (λ s. s.now)
    let updated : SsoSession = record session { last_seen_at = now }
    previous ← touch_record session.sid environment
    on_sso_sessions
        (done (λ at. KvStore.set at updated.id updated (remaining_ttl expiry (times updated) now)))
    on_sessions (λ r. Sessions.record_client r session.sid client.id tenant_id now)
    record_change session client tenant_id environment previous
    pure updated
