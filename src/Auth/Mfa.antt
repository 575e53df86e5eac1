-- ===== src/Auth/Mfa.antt =====
-- apps/auth-api/src/application/usecases/mfa.ts: the second factor.
pub mod Guesses
pub mod Factor
pub mod Setup
use multi_domain_sandbox.Prelude.{
  ℕ, ◌+◌, ◌≤◌, String, Option, none, some, Bool, true, false, not, ◌&&◌, Result, ok, err, ltb, leb,
  if◌then◌else◌,
}
use multi_domain_sandbox.Auth.Domain.{
  MfaMethod, RequestEnvironment, AuditEventKind, AuditDetail, mfa_challenge_failed,
  mfa_setup_expired, mfa_enrolled, mfa_max_attempts, totp_setup_ttl_seconds,
}
use multi_domain_sandbox.Auth.Cognito.{
  CognitoAuthenticator, CognitoAuthenticated, CognitoTokens, CognitoMfaError,
}
use multi_domain_sandbox.Auth.Stores.{
  MfaPending, totp_challenge, totp_setup, TotpChallenge, TotpSetupPending,
}
use multi_domain_sandbox.Auth.Login.{
  LoginSuccess, request_event, load_pending, save_pending, update_pending, delete_pending,
  finish_login,
}
use multi_domain_sandbox.Auth.State.{
  Env, Eff, AuthState, pure, ◌>>=◌, ◌>>◌, gets, seal_secret, record_audit, audit_event,
}

pub data MfaFlowError : Type 0 where
  expired code_mismatch setup_expired user_disabled : MfaFlowError
  unavailable : String → MfaFlowError

pub record MfaCompleted : Type 0 where
  pub login : LoginSuccess
  pub rid : String

-- `loadKind`
abbrev challenge_of : Option MfaPending → Option TotpChallenge
challenge_of (some (totp_challenge c)) = some c
challenge_of (some (totp_setup p)) = none
challenge_of none = none

completed : String → Result LoginSuccess (Unit {0}) → Result MfaCompleted MfaFlowError
completed rid (err _) = err user_disabled
completed rid (ok login) = ok (record { login = login; rid = rid })

module _ (env : Env) where
  -- A wrong code: the count goes up, and at the limit the login starts again.
  wrong_code : String → TotpChallenge → RequestEnvironment → Eff (Result MfaCompleted MfaFlowError)
  wrong_code pending_id pending environment = do
    let attempts = pending.attempts + 1
    record_audit env
        (request_event mfa_challenge_failed none none environment (AuditDetail.attempts attempts))
    if leb mfa_max_attempts attempts
        then (do delete_pending env pending_id; pure (err expired))
        else (do
          update_pending env pending_id (totp_challenge (record pending { attempts = attempts }))
          pure (err code_mismatch))

  responded :
      String
      → TotpChallenge
      → RequestEnvironment
      → Result CognitoAuthenticated CognitoMfaError
      → Eff (Result MfaCompleted MfaFlowError)
  unfolding wrong_code completed
  responded pending_id pending environment (err CognitoMfaError.code_mismatch) =
      wrong_code pending_id pending environment
  responded pending_id pending environment (err CognitoMfaError.session_expired) = do
    delete_pending env pending_id
    pure (err expired)
  responded pending_id pending environment (err (CognitoMfaError.unavailable reason)) = do
    delete_pending env pending_id
    pure (err (unavailable reason))
  responded pending_id pending environment (ok authenticated) = do
    delete_pending env pending_id
    login ← finish_login env authenticated environment MfaMethod.totp
    pure (completed pending.rid login)

  challenge_found :
      CognitoAuthenticator
      → String
      → String
      → RequestEnvironment
      → Option TotpChallenge
      → Eff (Result MfaCompleted MfaFlowError)
  unfolding responded
  challenge_found cognito pending_id code environment none = pure (err expired)
  challenge_found cognito pending_id code environment (some pending) =
      responded pending_id pending environment
        (cognito.respond_to_totp pending.username pending.cognito_session code)

  unfoldable pub complete_totp_challenge :
      CognitoAuthenticator
      → String
      → String
      → RequestEnvironment
      → Eff (Result MfaCompleted MfaFlowError)
  unfolding challenge_found
  complete_totp_challenge cognito pending_id code environment = do
    pending ← load_pending env pending_id
    challenge_found cognito pending_id code environment (challenge_of pending)
