-- ===== src/Client/Session.antt =====
-- packages/oidc-client/src/session.ts.
pub mod Own
pub mod Tenants
pub mod Steps
pub mod Touch
pub mod Logout
pub mod Renewal
pub mod Index
use Prim.Native.String.{◌++◌ as append}
use multi_domain_sandbox.Prelude.{
  ℕ, ◌+◌, String, Option, none, some, Bool, true, false, List, [], ◌∷◌, ◌==◌, if◌then◌else◌, suc,
}
use multi_domain_sandbox.Shared.KvStore
use multi_domain_sandbox.Shared.SetStore
use multi_domain_sandbox.Shared.SessionExpiry.{
  ExpiringSession, SessionExpiryPolicy, is_expired, remaining_ttl, should_touch,
}
use multi_domain_sandbox.Client.Types.{
  OidcClientConfig, TenantSession, TokenResponse, session_idle_seconds, session_absolute_seconds,
}
use multi_domain_sandbox.Client.State.{
  ClientState, Act, pure, ◌>>=◌, ◌>>◌, gets, on_sessions, on_sessions_by_sid, done, RandomBytes,
  random_token, token_bytes,
}

abbrev pub expiry : SessionExpiryPolicy
expiry = record { idle_seconds = session_idle_seconds; absolute_seconds = session_absolute_seconds }

abbrev pub times : TenantSession → ExpiringSession
times s = record { created_at = s.created_at; last_seen_at = s.last_seen_at }

abbrev pub session_key : String → String → String
session_key tenant_slug id = append tenant_slug (append ":" id)

abbrev pub sid_key : String → String
sid_key sid = append "sid:" sid

abbrev pub key_of : TenantSession → String
key_of session = session_key session.tenant_slug session.id

unfoldable pub destroy_session : TenantSession → Act (Unit {0})
destroy_session session = do
  on_sessions (done (λ now. KvStore.delete (key_of session)))
  on_sessions_by_sid (done (λ now. SetStore.remove now (sid_key session.sid) (key_of session)))

load_found : Option TenantSession → Act (Option TenantSession)
load_found none = pure none
load_found (some session) = do
  now ← gets (λ s. s.now)
  if is_expired expiry (times session) now
      then (do destroy_session session; pure none)
      else pure (some session)

unfoldable pub load_session : OidcClientConfig → Option String → Act (Option TenantSession)
unfolding load_found
load_session client none = pure none
load_session client (some session_id) = if session_id == "" then pure none else (do
  found ← on_sessions (λ now. KvStore.get now (session_key client.tenant_slug session_id))
  load_found found)

pub record NewSessionInput : Type 0 where
  pub client : OidcClientConfig
  pub user_id : String
  pub tenant_id : String
  pub sid : String
  pub email : Option String
  pub name : Option String
  pub tokens : TokenResponse

unfoldable pub create_session : RandomBytes → NewSessionInput → Act TenantSession
create_session random input = do
  now ← gets (λ s. s.now)
  id ← random_token random token_bytes
  csrf_token ← random_token random token_bytes
  let session : TenantSession = record {
    id = id;
    tenant_slug = input.client.tenant_slug;
    user_id = input.user_id;
    tenant_id = input.tenant_id;
    sid = input.sid;
    email = input.email;
    name = input.name;
    access_token = input.tokens.access_token;
    access_token_expires_at = now + input.tokens.expires_in;
    refresh_token = input.tokens.refresh_token;
    csrf_token = csrf_token;
    created_at = now;
    last_seen_at = now;
  }
  on_sessions (done (λ at. KvStore.set at (key_of session) session session_absolute_seconds))
  on_sessions_by_sid
      (done (λ at. SetStore.add at (sid_key session.sid) (key_of session) session_absolute_seconds))
  pure session

unfoldable pub save_session : TenantSession → Act TenantSession
save_session session = do
  now ← gets (λ s. s.now)
  let updated : TenantSession = record session { last_seen_at = now }
  on_sessions (
      done
        (λ at. KvStore.set at (key_of updated) updated (remaining_ttl expiry (times updated) now)))
  pure updated

-- `latest ?? session`
abbrev pub or_else : Option TenantSession → TenantSession → TenantSession
or_else none session = session
or_else (some latest) session = latest

unfoldable pub touch_session : TenantSession → Act TenantSession
touch_session session = do
  now ← gets (λ s. s.now)
  if should_touch (times session) now
      then (do
        latest ← on_sessions (λ at. KvStore.get at (key_of session))
        save_session (or_else latest session))
      else pure session

abbrev pub length : List String → ℕ
length [] = 0
length (x ∷ xs) = suc (length xs)

delete_all : List String → Act (Unit {0})
delete_all [] = pure tt
delete_all (key ∷ keys) = do on_sessions (done (λ now. KvStore.delete key)); delete_all keys

unfoldable pub destroy_sessions_by_sid : String → Act ℕ
unfolding delete_all
destroy_sessions_by_sid sid = do
  keys ← on_sessions_by_sid (λ now. SetStore.members now (sid_key sid))
  delete_all keys
  on_sessions_by_sid (done (λ now. SetStore.delete (sid_key sid)))
  pure (length keys)
