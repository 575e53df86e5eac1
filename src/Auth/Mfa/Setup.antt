-- ===== src/Auth/Mfa/Setup.antt =====
-- apps/auth-api/src/application/usecases/mfa.ts: enrolment of an authenticator app.
pub mod Enrolment
use multi_domain_sandbox.Prelude.{
  ℕ, ◌+◌, ◌≤◌, String, Option, none, some, Bool, true, false, not, ◌&&◌, Result, ok, err, ltb, leb,
  if◌then◌else◌,
}
use multi_domain_sandbox.Auth.Domain.{
  MfaMethod, RequestEnvironment, AuditEventKind, AuditDetail, mfa_challenge_failed,
  mfa_setup_expired, mfa_enrolled, mfa_max_attempts, totp_setup_ttl_seconds,
}
use multi_domain_sandbox.Auth.Cognito.{
  CognitoAuthenticator, CognitoAuthenticated, CognitoTokens, CognitoMfaError,
}
use multi_domain_sandbox.Auth.Stores.{
  MfaPending, totp_challenge, totp_setup, TotpChallenge, TotpSetupPending,
}
use multi_domain_sandbox.Auth.Login.{
  LoginSuccess, request_event, load_pending, save_pending, update_pending, delete_pending,
  finish_login,
}
use multi_domain_sandbox.Auth.State.{
  Env, Eff, AuthState, pure, ◌>>=◌, ◌>>◌, gets, seal_secret, record_audit, audit_event,
}
use multi_domain_sandbox.Auth.Mfa.{
  MfaFlowError, expired, code_mismatch, setup_expired, user_disabled, unavailable, MfaCompleted,
  completed,
}

pub record TotpSetup : Type 0 where
  pub account : String
  pub secret : String
  pub otpauth_uri : String
  pub expires_at : ℕ

abbrev setup_of : Option MfaPending → Option TotpSetupPending
setup_of (some (totp_challenge c)) = none
setup_of (some (totp_setup p)) = some p
setup_of none = none

-- `session_expired` is shown as an expired login.
abbrev flow_error : CognitoMfaError → MfaFlowError
flow_error CognitoMfaError.code_mismatch = code_mismatch
flow_error CognitoMfaError.session_expired = expired
flow_error (CognitoMfaError.unavailable reason) = unavailable reason

-- MFA_ISSUER_NAME
abbrev mfa_issuer_name : String
mfa_issuer_name = "Sandbox"

abbrev unexpired_secret : Option ℕ → ℕ → Bool
unexpired_secret none now = false
unexpired_secret (some at) now = ltb now (at + totp_setup_ttl_seconds)

abbrev issued_or : Option ℕ → ℕ → ℕ
issued_or none now = now
issued_or (some at) now = at

abbrev bind_secret : Option String → (String → Option String) → Option String
bind_secret none f = none
bind_secret (some s) f = f s

abbrev is_some : Option String → Bool
is_some none = false
is_some (some s) = true

module _ (env : Env) where
  to_setup : TotpSetupPending → String → ℕ → TotpSetup
  to_setup pending secret issued_at = record {
    account = pending.email;
    secret = secret;
    otpauth_uri = env.otpauth_uri mfa_issuer_name pending.email secret;
    expires_at = issued_at + totp_setup_ttl_seconds;
  }

  -- `current`, where it can be shown again.
  abbrev alive_secret : TotpSetupPending → Bool → ℕ → Option String
  alive_secret pending renew now =
      if unexpired_secret pending.secret_issued_at now && not renew
      then bind_secret pending.encrypted_secret env.unseal_secret
      else none

  associated :
      String
      → TotpSetupPending
      → Result String CognitoMfaError
      → Eff (Result TotpSetup MfaFlowError)
  unfolding to_setup
  associated pending_id pending (err error) = pure (err (flow_error error))
  associated pending_id pending (ok secret) = do
    now ← gets (λ s. s.now)
    (if is_some (bind_secret pending.encrypted_secret env.unseal_secret)
        then record_audit env (audit_event mfa_setup_expired AuditDetail.renewed)
        else pure tt)
    sealed ← seal_secret env secret
    save_pending env pending_id (
        totp_setup (record pending { encrypted_secret = some sealed; secret_issued_at = some now }))
    pure (ok (to_setup pending secret now))

  associate :
      CognitoAuthenticator
      → String
      → TotpSetupPending
      → Option CognitoTokens
      → Eff (Result TotpSetup MfaFlowError)
  unfolding associated
  associate cognito pending_id pending none = pure (err expired)
  associate cognito pending_id pending (some tokens) =
      associated pending_id pending (cognito.associate_software_token tokens.access_token)

  begin_alive :
      CognitoAuthenticator
      → String
      → TotpSetupPending
      → Option String
      → Eff (Result TotpSetup MfaFlowError)
  unfolding to_setup associate
  begin_alive cognito pending_id pending (some secret) = do
    now ← gets (λ s. s.now)
    pure (ok (to_setup pending secret (issued_or pending.secret_issued_at now)))
  begin_alive cognito pending_id pending none =
      associate cognito pending_id pending (env.unseal_cognito_tokens pending.encrypted_tokens)

  begin_found :
      CognitoAuthenticator
      → String
      → Bool
      → Option TotpSetupPending
      → Eff (Result TotpSetup MfaFlowError)
  unfolding begin_alive
  begin_found cognito pending_id renew none = pure (err expired)
  begin_found cognito pending_id renew (some pending) = do
    now ← gets (λ s. s.now)
    begin_alive cognito pending_id pending (alive_secret pending renew now)

  unfoldable pub begin_totp_setup :
      CognitoAuthenticator → String → Bool → Eff (Result TotpSetup MfaFlowError)
  unfolding begin_found
  begin_totp_setup cognito pending_id renew = do
    pending ← load_pending env pending_id
    begin_found cognito pending_id renew (setup_of pending)

  record_enrolled :
      RequestEnvironment
      → String
      → Result LoginSuccess (Unit {0})
      → Eff (Result MfaCompleted MfaFlowError)
  unfolding completed
  record_enrolled environment rid (err e) = pure (completed rid (err e))
  record_enrolled environment rid (ok login) = do
    record_audit env (
        request_event mfa_enrolled (some login.user.id) (some login.session.sid) environment
          (AuditDetail.mfa MfaMethod.totp))
    pure (completed rid (ok login))

  enabled :
      String
      → TotpSetupPending
      → CognitoTokens
      → RequestEnvironment
      → Result (Unit {0}) CognitoMfaError
      → Eff (Result MfaCompleted MfaFlowError)
  unfolding record_enrolled
  enabled pending_id pending tokens environment (err error) = do
    delete_pending env pending_id
    pure (err (flow_error error))
  enabled pending_id pending tokens environment (ok _) = do
    delete_pending env pending_id
    login ←
        finish_login env
          (record {
            sub = pending.sub;
            email = pending.email;
            name = pending.name;
            tokens = tokens;
          })
          environment MfaMethod.totp
    record_enrolled environment pending.rid login

  verified :
      CognitoAuthenticator
      → String
      → TotpSetupPending
      → CognitoTokens
      → RequestEnvironment
      → Result (Unit {0}) CognitoMfaError
      → Eff (Result MfaCompleted MfaFlowError)
  unfolding enabled
  verified cognito pending_id pending tokens environment (err CognitoMfaError.code_mismatch) = do
    record_audit env
        (request_event mfa_challenge_failed none none environment AuditDetail.setup_phase)
    pure (err code_mismatch)
  verified cognito pending_id pending tokens environment (err CognitoMfaError.session_expired) = do
    delete_pending env pending_id
    pure (err expired)
  verified cognito pending_id pending tokens environment
        (err (CognitoMfaError.unavailable reason)) =
      do delete_pending env pending_id; pure (err (unavailable reason))
  verified cognito pending_id pending tokens environment (ok _) =
      enabled pending_id pending tokens environment (cognito.enable_totp tokens.access_token)

  setup_unsealed :
      CognitoAuthenticator
      → String
      → String
      → TotpSetupPending
      → RequestEnvironment
      → Option CognitoTokens
      → Eff (Result MfaCompleted MfaFlowError)
  unfolding verified
  setup_unsealed cognito pending_id code pending environment none = pure (err expired)
  setup_unsealed cognito pending_id code pending environment (some tokens) =
      verified cognito pending_id pending tokens environment
        (cognito.verify_software_token tokens.access_token code)

  setup_found :
      CognitoAuthenticator
      → String
      → String
      → RequestEnvironment
      → Option TotpSetupPending
      → Eff (Result MfaCompleted MfaFlowError)
  unfolding setup_unsealed
  setup_found cognito pending_id code environment none = pure (err expired)
  setup_found cognito pending_id code environment (some pending) = do
    now ← gets (λ s. s.now)
    if unexpired_secret pending.secret_issued_at now
        then setup_unsealed cognito pending_id code pending environment
            (env.unseal_cognito_tokens pending.encrypted_tokens)
        else pure (err setup_expired)

  unfoldable pub complete_totp_setup :
      CognitoAuthenticator
      → String
      → String
      → RequestEnvironment
      → Eff (Result MfaCompleted MfaFlowError)
  unfolding setup_found
  complete_totp_setup cognito pending_id code environment = do
    pending ← load_pending env pending_id
    setup_found cognito pending_id code environment (setup_of pending)
