-- ===== src/Auth/Stores.antt =====
-- apps/auth-api/src/application/ports/stores.ts: what the volatile stores hold.
use multi_domain_sandbox.Prelude.{ℕ, String, Bool, true, false, Option}
use multi_domain_sandbox.Shared.KvStore.{MemoryKeyValueStore}
use multi_domain_sandbox.Shared.SetStore.{MemorySetStore}
use multi_domain_sandbox.Shared.CounterStore.{MemoryCounterStore}

pub record SsoSession : Type 0 where
  pub id : String
  pub sid : String
  pub user_id : String
  pub encrypted_cognito_tokens : String
  pub auth_time : ℕ
  pub created_at : ℕ
  pub last_seen_at : ℕ

pub record AuthorizationRequest : Type 0 where
  pub client_id : String
  pub tenant_id : String
  pub redirect_uri : String
  pub scope : String
  pub state : String
  pub nonce : String
  pub code_challenge : String

pub record UnusedCode : Type 0 where
  pub client_id : String
  pub redirect_uri : String
  pub scope : String
  pub nonce : String
  pub code_challenge : String
  pub user_id : String
  pub tenant_id : String
  pub sid : String
  pub sso_session_id : String
  pub auth_time : ℕ

-- `used: false` with the grant, or `used: true` with the family that the exchange issued.
pub data AuthorizationCode : Type 0 where
  unused : UnusedCode → AuthorizationCode
  used : String → AuthorizationCode

pub data RefreshTokenStatus : Type 0 where
  active rotated revoked : RefreshTokenStatus

abbrev pub is_active : RefreshTokenStatus → Bool
is_active active = true
is_active rotated = false
is_active revoked = false

pub record NewRefreshToken : Type 0 where
  pub client_id : String
  pub user_id : String
  pub tenant_id : String
  pub sid : String
  pub sso_session_id : String
  pub scope : String
  pub auth_time : ℕ

pub record RefreshToken : Type 0 where
  pub family_id : String
  pub grant : NewRefreshToken
  pub open grant use *
  pub status : RefreshTokenStatus

pub record TotpChallenge : Type 0 where
  pub username : String
  pub cognito_session : String
  pub rid : String
  pub attempts : ℕ

pub record TotpSetupPending : Type 0 where
  pub sub : String
  pub email : String
  pub name : Option String
  pub encrypted_tokens : String
  pub rid : String
  pub encrypted_secret : Option String
  pub secret_issued_at : Option ℕ

pub data MfaPending : Type 0 where
  totp_challenge : TotpChallenge → MfaPending
  totp_setup : TotpSetupPending → MfaPending

pub record AuthStores : Type 0 where
  pub sso_sessions : MemoryKeyValueStore SsoSession
  pub sid_index : MemoryKeyValueStore String
  pub authorization_requests : MemoryKeyValueStore AuthorizationRequest
  pub authorization_codes : MemoryKeyValueStore AuthorizationCode
  pub refresh_tokens : MemoryKeyValueStore RefreshToken
  pub refresh_token_families : MemorySetStore
  pub csrf_tokens : MemoryKeyValueStore String
  pub mfa_pending : MemoryKeyValueStore MfaPending
  pub sid_refresh_families : MemorySetStore
  pub rate_limits : MemoryCounterStore
