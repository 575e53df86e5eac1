-- ===== src/Auth/Login.antt =====
-- apps/auth-api/src/application/usecases/login.ts: the password, and what follows the second factor.
pub mod Frame
use multi_domain_sandbox.Prelude.{
  ℕ, String, Option, none, some, Bool, Result, ok, err, if◌then◌else◌,
}
use multi_domain_sandbox.Shared.KvStore
use multi_domain_sandbox.Auth.Domain.{
  User, UserStatus, MfaMethod, RequestEnvironment, AuditEventKind, AuditDetail, NewAuditEvent,
  login_failed, login_succeeded, is_active_user, mfa_pending_ttl_seconds,
}
use multi_domain_sandbox.Auth.Cognito.{
  CognitoAuthenticator, CognitoCredentials, CognitoAuthenticated, CognitoAuthOutcome,
  CognitoAuthError, CognitoTokens,
}
use multi_domain_sandbox.Auth.Identity
use multi_domain_sandbox.Auth.Identity.{MemoryIdentityRepository}
use multi_domain_sandbox.Auth.Stores.{MfaPending, totp_challenge, totp_setup, SsoSession}
use multi_domain_sandbox.Auth.SsoSession.{CreatedSsoSession, create_sso_session}
use multi_domain_sandbox.Auth.State.{
  Env, Eff, AuthState, pure, ◌>>=◌, ◌>>◌, gets, on_mfa_pending, on_identity, done, key_of,
  random_token, new_ulid, seal_tokens, record_audit, token_bytes,
}

pub record LoginSuccess : Type 0 where
  pub user : User
  pub session : SsoSession
  pub cookie_value : String

-- With the identifier of the pending login.
pub data LoginOutcome : Type 0 where
  totp_required setup_required : String → LoginOutcome

-- `outcome.error.kind`
abbrev kind_of : CognitoAuthError → String
kind_of CognitoAuthError.invalid_credentials = "invalid_credentials"
kind_of CognitoAuthError.user_not_confirmed = "user_not_confirmed"
kind_of CognitoAuthError.password_reset_required = "password_reset_required"
kind_of (CognitoAuthError.challenge_required name) = "challenge_required"
kind_of (CognitoAuthError.unavailable reason) = "unavailable"

-- An event with the address and the agent of the request.
abbrev pub request_event :
    AuditEventKind
    → Option String
    → Option String
    → RequestEnvironment
    → AuditDetail
    → NewAuditEvent
request_event kind user_id session_id environment detail = record {
  kind = kind;
  user_id = user_id;
  session_id = session_id;
  tenant_id = none;
  client_id = none;
  ip = some environment.ip;
  user_agent = some environment.user_agent;
  detail = detail;
}

-- `linkCognitoSub` of a user that was just found.
abbrev linked : User → Option (User × MemoryIdentityRepository) → Eff User
linked user none = pure user
linked user (some (u, r)) = do on_identity (λ _. r); pure u

module _ (env : Env) where
  unfoldable pub load_pending : String → Eff (Option MfaPending)
  load_pending pending_id = on_mfa_pending (λ now. KvStore.get now (key_of env pending_id))

  unfoldable pub save_pending : String → MfaPending → Eff (Unit {0})
  save_pending pending_id pending =
      on_mfa_pending
        (done (λ now. KvStore.set now (key_of env pending_id) pending mfa_pending_ttl_seconds))

  -- The time of expiry stays.
  unfoldable pub update_pending : String → MfaPending → Eff Bool
  update_pending pending_id pending =
      on_mfa_pending (λ now. KvStore.update now (key_of env pending_id) pending)

  unfoldable pub delete_pending : String → Eff (Unit {0})
  delete_pending pending_id = on_mfa_pending (done (λ now. KvStore.delete (key_of env pending_id)))

  unfoldable pub store_pending : MfaPending → Eff String
  unfolding save_pending
  store_pending pending = do
    pending_id ← random_token env token_bytes
    save_pending pending_id pending
    pure pending_id

  login_outcome :
      Result CognitoAuthOutcome CognitoAuthError
      → RequestEnvironment
      → String
      → Eff (Result LoginOutcome CognitoAuthError)
  login_outcome (err error) environment rid = do
    record_audit env
        (request_event login_failed none none environment (AuditDetail.reason (kind_of error)))
    pure (err error)
  login_outcome (ok (CognitoAuthOutcome.totp_required session username)) environment rid = do
    pending_id ← store_pending (
        totp_challenge
          (record { username = username; cognito_session = session; rid = rid; attempts = 0 }))
    pure (ok (totp_required pending_id))
  login_outcome (ok (CognitoAuthOutcome.authenticated authenticated)) environment rid = do
    sealed ← seal_tokens env authenticated.tokens
    pending_id ← store_pending (
        totp_setup (record {
          sub = authenticated.sub;
          email = authenticated.email;
          name = authenticated.name;
          encrypted_tokens = sealed;
          rid = rid;
          encrypted_secret = none;
          secret_issued_at = none;
        }))
    pure (ok (setup_required pending_id))

  unfoldable pub login :
      CognitoAuthenticator
      → CognitoCredentials
      → RequestEnvironment
      → String
      → Eff (Result LoginOutcome CognitoAuthError)
  unfolding login_outcome
  login cognito credentials environment rid =
      login_outcome (cognito.authenticate credentials) environment rid

  -- A row with the same email address; its sub decides.
  link_unlinked : String → User → Option String → Eff User
  link_unlinked cognito_sub user (some other) = pure (record user { status = UserStatus.disabled })
  link_unlinked cognito_sub user none = do
    identity ← gets (λ s. s.identity)
    linked user (Identity.link_cognito_sub identity user.id cognito_sub)

  -- Nobody has this sub: the row with the email address, if it has no sub, or a new one.
  resolve_by_email : String → String → Option String → Option User → Eff User
  unfolding link_unlinked
  resolve_by_email cognito_sub email name none = do
    id ← new_ulid env
    identity ← gets (λ s. s.identity)
    let created =
        Identity.create_user identity
          (record { id = id; cognito_sub = some cognito_sub; email = email; name = name })
    on_identity (λ _. created.1)
    pure created.0
  resolve_by_email cognito_sub email name (some user) =
      link_unlinked cognito_sub user user.cognito_sub

  resolve_by_sub : String → String → Option String → Option User → Eff User
  unfolding resolve_by_email
  resolve_by_sub cognito_sub email name (some user) = pure user
  resolve_by_sub cognito_sub email name none = do
    identity ← gets (λ s. s.identity)
    resolve_by_email cognito_sub email name
        (Identity.find_user_by_email identity env.to_lower_case email)

  unfoldable pub resolve_user : String → String → Option String → Eff User
  unfolding resolve_by_sub
  resolve_user cognito_sub email name = do
    identity ← gets (λ s. s.identity)
    resolve_by_sub cognito_sub email name (Identity.find_user_by_cognito_sub identity cognito_sub)

  -- `err` is `user_disabled`.
  finish_resolved :
      CognitoAuthenticated
      → RequestEnvironment
      → MfaMethod
      → User
      → Eff (Result LoginSuccess (Unit {0}))
  finish_resolved authenticated environment method user =
      if is_active_user user.status
      then (do
        now ← gets (λ s. s.now)
        on_identity (λ r. Identity.record_mfa_method r user.id method now)
        created ← create_sso_session env user authenticated environment
        record_audit env (
            request_event login_succeeded (some user.id) (some created.session.sid) environment
              (AuditDetail.mfa method))
        pure (
            ok (record {
              user = user;
              session = created.session;
              cookie_value = created.cookie_value;
            })))
      else (do
        record_audit env (
            request_event login_failed (some user.id) none environment
              (AuditDetail.reason "user_disabled"))
        pure (err tt))

  unfoldable pub finish_login :
      CognitoAuthenticated → RequestEnvironment → MfaMethod → Eff (Result LoginSuccess (Unit {0}))
  unfolding finish_resolved
  finish_login authenticated environment method = do
    user ← resolve_user authenticated.sub authenticated.email authenticated.name
    finish_resolved authenticated environment method user
