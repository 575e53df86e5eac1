-- ===== src/Auth/State.antt =====
-- apps/auth-api/src/application/deps.ts: what the use cases depend on. A use case is an action on
-- `AuthState`; the clock's reading `now` stays as it is during one request. What the program takes
-- from outside (node:crypto, jose, ulid, encryption) is the record `Env`; the n-th random value or identifier
-- is a function of how many were drawn before.
use multi_domain_sandbox.Prelude.{Bool, ℕ, suc, String, Option, none, List, [], ◌∷◌, ◌++◌}
use multi_domain_sandbox.Shared.KvStore.{MemoryKeyValueStore}
use multi_domain_sandbox.Shared.SetStore.{MemorySetStore}
use multi_domain_sandbox.Auth.Cognito.{CognitoTokens}
use multi_domain_sandbox.Auth.Domain.{AuditEventKind, AuditDetail, NewAuditEvent, AuditEvent}
use multi_domain_sandbox.Auth.Stores.{
  SsoSession, AuthorizationRequest, AuthorizationCode, RefreshToken, MfaPending, AuthStores,
}
use multi_domain_sandbox.Auth.Identity.{MemoryIdentityRepository}
use multi_domain_sandbox.Auth.Sessions.{MemorySessionRepository}

pub data Claim : Type 0 where
  text : String → Claim
  number : ℕ → Claim
  true_claim : Claim
  -- an object whose only field has this name, with an empty object for its value
  object_of : String → Claim

-- packages/shared/src/jwt.ts
pub record SignOptions : Type 0 where
  pub issuer : String
  pub audience : List String
  pub subject : String
  pub issued_at : ℕ
  pub expires_at : ℕ
  pub claims : List (String × Claim)

pub record Env : Type 0 where
  pub issuer : String
  -- base64url of the SHA-256 digest
  pub sha256 : String → String
  -- the n-th draw of so many random bytes, in base64url
  pub random_bytes : ℕ → ℕ → String
  pub ulid : ℕ → String
  pub to_lower_case : String → String
  -- packages/shared/src/totp.ts: issuer, account and secret, percent-encoded
  pub otpauth_uri : String → String → String → String
  pub sign_jwt : SignOptions → String
  -- whether the client at the address took the logout token
  pub backchannel_post : String → String → Bool
  -- AES-GCM under the configured keys, the n-th draw giving the initialization vector
  pub seal_cognito_tokens : ℕ → CognitoTokens → String
  pub unseal_cognito_tokens : String → Option CognitoTokens
  pub seal_secret : ℕ → String → String
  pub unseal_secret : String → Option String

pub record AuthState : Type 0 where
  pub now : ℕ
  pub draws : ℕ
  pub stores : AuthStores
  pub open stores use *
  pub identity : MemoryIdentityRepository
  pub sessions : MemorySessionRepository
  pub audit : List AuditEvent

abbrev pub Eff : Type 0 → Type 0
Eff A = AuthState → A × AuthState

abbrev pub pure : {A : Type 0} → A → Eff A
pure a s = (a, s)

infixl 5 ◌>>=◌ ◌>>◌
abbrev pub ◌>>=◌ : {A B : Type 0} → Eff A → (A → Eff B) → Eff B
◌>>=◌ m f s = let (a, s') = m s in f a s'

abbrev pub ◌>>◌ : {A B : Type 0} → Eff A → Eff B → Eff B
◌>>◌ m k s = let (a, s') = m s in k s'

abbrev pub gets : {A : Type 0} → (AuthState → A) → Eff A
gets f s = (f s, s)

-- A call of a method of one store, at the clock's reading.
module _ {A : Type 0} where
  abbrev pub on_sso_sessions :
      (ℕ → MemoryKeyValueStore SsoSession → A × MemoryKeyValueStore SsoSession) → Eff A
  on_sso_sessions f s =
      let (a, st) = f s.now s.sso_sessions in
      (a, record s { stores = record s.stores { sso_sessions = st } })

  abbrev pub on_sid_index :
      (ℕ → MemoryKeyValueStore String → A × MemoryKeyValueStore String) → Eff A
  on_sid_index f s =
      let (a, st) = f s.now s.sid_index in
      (a, record s { stores = record s.stores { sid_index = st } })

  abbrev pub on_authorization_requests :
      (ℕ → MemoryKeyValueStore AuthorizationRequest → A × MemoryKeyValueStore AuthorizationRequest)
      → Eff A
  on_authorization_requests f s =
      let (a, st) = f s.now s.authorization_requests in
      (a, record s { stores = record s.stores { authorization_requests = st } })

  abbrev pub on_authorization_codes :
      (ℕ → MemoryKeyValueStore AuthorizationCode → A × MemoryKeyValueStore AuthorizationCode)
      → Eff A
  on_authorization_codes f s =
      let (a, st) = f s.now s.authorization_codes in
      (a, record s { stores = record s.stores { authorization_codes = st } })

  abbrev pub on_refresh_tokens :
      (ℕ → MemoryKeyValueStore RefreshToken → A × MemoryKeyValueStore RefreshToken) → Eff A
  on_refresh_tokens f s =
      let (a, st) = f s.now s.refresh_tokens in
      (a, record s { stores = record s.stores { refresh_tokens = st } })

  abbrev pub on_refresh_token_families : (ℕ → MemorySetStore → A × MemorySetStore) → Eff A
  on_refresh_token_families f s =
      let (a, st) = f s.now s.refresh_token_families in
      (a, record s { stores = record s.stores { refresh_token_families = st } })

  abbrev pub on_mfa_pending :
      (ℕ → MemoryKeyValueStore MfaPending → A × MemoryKeyValueStore MfaPending) → Eff A
  on_mfa_pending f s =
      let (a, st) = f s.now s.mfa_pending in
      (a, record s { stores = record s.stores { mfa_pending = st } })

  abbrev pub on_csrf_tokens :
      (ℕ → MemoryKeyValueStore String → A × MemoryKeyValueStore String) → Eff A
  on_csrf_tokens f s =
      let (a, st) = f s.now s.csrf_tokens in
      (a, record s { stores = record s.stores { csrf_tokens = st } })

  abbrev pub on_sid_refresh_families : (ℕ → MemorySetStore → A × MemorySetStore) → Eff A
  on_sid_refresh_families f s =
      let (a, st) = f s.now s.sid_refresh_families in
      (a, record s { stores = record s.stores { sid_refresh_families = st } })

-- A method that returns nothing.
abbrev pub done {ℓ} : {S : Type ℓ} → (ℕ → S → S) → ℕ → S → Unit {0} × S
done f now s = (tt, f now s)

abbrev pub on_identity : (MemoryIdentityRepository → MemoryIdentityRepository) → Eff (Unit {0})
on_identity f s = (tt, record s { identity = f s.identity })

abbrev pub on_sessions : (MemorySessionRepository → MemorySessionRepository) → Eff (Unit {0})
on_sessions f s = (tt, record s { sessions = f s.sessions })

module _ (env : Env) where
  abbrev pub key_of : String → String
  key_of secret = env.sha256 secret

  abbrev pub random_token : ℕ → Eff String
  random_token bytes s = (env.random_bytes bytes s.draws, record s { draws = suc s.draws })

  abbrev pub new_ulid : Eff String
  new_ulid s = (env.ulid s.draws, record s { draws = suc s.draws })

  abbrev pub seal_tokens : CognitoTokens → Eff String
  seal_tokens tokens s = (env.seal_cognito_tokens s.draws tokens, record s { draws = suc s.draws })

  abbrev pub seal_secret : String → Eff String
  seal_secret secret s = (env.seal_secret s.draws secret, record s { draws = suc s.draws })

  -- application/usecases/audit.ts; the log line is not kept.
  unfoldable pub record_audit : NewAuditEvent → Eff (Unit {0})
  record_audit new_event s = (
    tt,
    record s {
      draws = suc s.draws;
      audit =
          s.audit ++ record { id = env.ulid s.draws; occurred_at = s.now; event = new_event } ∷ [];
    },
  )

-- The size of a token where `randomToken` is called with no argument.
abbrev pub token_bytes : ℕ
token_bytes = 32

abbrev pub audit_event : AuditEventKind → AuditDetail → NewAuditEvent
audit_event kind detail = record {
  kind = kind;
  user_id = none;
  session_id = none;
  tenant_id = none;
  client_id = none;
  ip = none;
  user_agent = none;
  detail = detail;
}
