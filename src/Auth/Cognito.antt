-- ===== src/Auth/Cognito.antt =====
-- apps/auth-api/src/application/ports/cognito.ts: the authentication service behind the server. It
-- is not part of the repository, so its replies to one request are a record of functions.
use multi_domain_sandbox.Prelude.{ℕ, String, Option, Result}

pub record CognitoCredentials : Type 0 where
  pub username : String
  pub password : String

pub record CognitoTokens : Type 0 where
  pub access_token : String
  pub id_token : String
  pub refresh_token : String
  pub expires_at : ℕ

pub record CognitoAuthenticated : Type 0 where
  pub sub : String
  pub email : String
  pub name : Option String
  pub tokens : CognitoTokens

pub data CognitoAuthOutcome : Type 0 where
  authenticated : CognitoAuthenticated → CognitoAuthOutcome
  -- the session and the user name of the challenge
  totp_required : String → String → CognitoAuthOutcome

pub data CognitoAuthError : Type 0 where
  invalid_credentials user_not_confirmed password_reset_required : CognitoAuthError
  challenge_required unavailable : String → CognitoAuthError

pub data CognitoMfaError : Type 0 where
  code_mismatch session_expired : CognitoMfaError
  unavailable : String → CognitoMfaError

pub record CognitoAuthenticator : Type 0 where
  pub authenticate : CognitoCredentials → Result CognitoAuthOutcome CognitoAuthError
  -- user name, session and code
  pub respond_to_totp : String → String → String → Result CognitoAuthenticated CognitoMfaError
  -- the new secret
  pub associate_software_token : String → Result String CognitoMfaError
  pub verify_software_token : String → String → Result (Unit {0}) CognitoMfaError
  pub enable_totp : String → Result (Unit {0}) CognitoMfaError
  pub revoke_refresh_token : String → Result (Unit {0}) String
