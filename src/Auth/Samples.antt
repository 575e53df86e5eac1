-- ===== src/Auth/Samples.antt =====
-- A small server for the tests: one client, one tenant, one user who is a member there.
use Prim.Native.String.{◌++◌ as append}
use multi_domain_sandbox.Prelude.{true, ℕ, zero, suc, String, none, some, [], ◌∷◌, ok, err}
use multi_domain_sandbox.Shared.KvStore
use multi_domain_sandbox.Shared.SetStore
use multi_domain_sandbox.Shared.CounterStore
use multi_domain_sandbox.Auth.Domain.{
  User, UserStatus, Tenant, TenantStatus, OidcClient, ClientStatus, ContractStatus,
  ServiceMembershipStatus, RequestEnvironment,
}
use multi_domain_sandbox.Auth.Cognito.{
  CognitoTokens, CognitoAuthenticated, CognitoAuthenticator, CognitoAuthOutcome, CognitoMfaError,
}
use multi_domain_sandbox.Auth.Stores.{
  SsoSession, UnusedCode, unused, NewRefreshToken, TotpChallenge, TotpSetupPending, totp_challenge,
  totp_setup, AuthStores,
}
use multi_domain_sandbox.Auth.State.{Env, AuthState}
use multi_domain_sandbox.Auth.Token.{CodeExchangeInput}

unfoldable pub numbered : String → ℕ → String
numbered prefix zero = prefix
numbered prefix (suc n) = append (numbered prefix n) "x"

abbrev pub cognito_tokens : CognitoTokens
cognito_tokens = record {
  access_token = "a";
  id_token = "i";
  refresh_token = "r";
  expires_at = 9000;
}

abbrev pub env : Env
env = record {
  issuer = "https://auth.example.com";
  sha256 = λ s. s;
  random_bytes = λ bytes n. numbered "random-" n;
  ulid = λ n. numbered "ulid-" n;
  to_lower_case = λ s. s;
  otpauth_uri = λ issuer account secret. secret;
  sign_jwt = λ o. o.subject;
  backchannel_post = λ uri token. true;
  seal_cognito_tokens = λ n t. t.access_token;
  unseal_cognito_tokens = λ s. some cognito_tokens;
  seal_secret = λ n s. s;
  unseal_secret = λ s. some s;
}

abbrev pub cms : OidcClient
cms = record {
  id = "client-1";
  client_id = "cms";
  name = "CMS";
  audience = "https://api.cms.example.com";
  redirect_uri_template = "https://{tenant}.cms.example.com/callback";
  secret_hashes = [];
  allowed_scopes = "openid" ∷ [];
  status = ClientStatus.active;
  backchannel_logout_uri = none;
}

abbrev pub acme : Tenant
acme = record { id = "tenant-1"; slug = "acme"; name = "Acme"; status = TenantStatus.active }

abbrev pub alice : User
alice = record {
  id = "user-1";
  cognito_sub = some "sub-1";
  email = "alice@example.com";
  name = none;
  status = UserStatus.active;
}

abbrev pub browser : RequestEnvironment
browser = record { ip = "192.0.2.1"; user_agent = "browser" }

abbrev pub session : SsoSession
session = record {
  id = "session-1";
  sid = "sid-1";
  user_id = "user-1";
  encrypted_cognito_tokens = "a";
  auth_time = 0;
  created_at = 0;
  last_seen_at = 0;
}

-- 43 characters of a PKCE verifier.
abbrev pub verifier : String
verifier = "abcdefghijabcdefghijabcdefghijabcdefghijabc"

abbrev pub callback : String
callback = "https://acme.cms.example.com/callback"

abbrev pub code : UnusedCode
code = record {
  client_id = "cms";
  redirect_uri = callback;
  scope = "openid";
  nonce = "nonce";
  code_challenge = verifier;
  user_id = "user-1";
  tenant_id = "tenant-1";
  sid = "sid-1";
  sso_session_id = "session-1";
  auth_time = 0;
}

abbrev pub input : CodeExchangeInput
input = record { code = "code-1"; redirect_uri = callback; code_verifier = verifier }

abbrev pub challenge : TotpChallenge
challenge = record { username = "alice"; cognito_session = "c"; rid = ""; attempts = 0 }

abbrev pub setup : TotpSetupPending
setup = record {
  sub = "sub-1";
  email = "alice@example.com";
  name = none;
  encrypted_tokens = "a";
  rid = "";
  encrypted_secret = some "secret";
  secret_issued_at = some 0;
}

abbrev pub authenticated : CognitoAuthenticated
authenticated = record {
  sub = "sub-1";
  email = "alice@example.com";
  name = none;
  tokens = cognito_tokens;
}

-- Accepts everything.
abbrev pub cognito : CognitoAuthenticator
cognito = record {
  authenticate = λ c. ok (CognitoAuthOutcome.authenticated authenticated);
  respond_to_totp = λ username session code. ok authenticated;
  associate_software_token = λ token. ok "secret";
  verify_software_token = λ token code. ok tt;
  enable_totp = λ token. ok tt;
  revoke_refresh_token = λ token. ok tt;
}

-- Takes no code.
abbrev pub strict_cognito : CognitoAuthenticator
strict_cognito = record cognito {
  respond_to_totp = λ username session code. err CognitoMfaError.code_mismatch;
}

abbrev pub empty_stores : AuthStores
empty_stores = record {
  sso_sessions = KvStore.empty;
  sid_index = KvStore.empty;
  authorization_requests = KvStore.empty;
  authorization_codes = KvStore.empty;
  refresh_tokens = KvStore.empty;
  refresh_token_families = SetStore.empty;
  csrf_tokens = KvStore.empty;
  mfa_pending = KvStore.empty;
  sid_refresh_families = SetStore.empty;
  rate_limits = CounterStore.empty;
}

-- One session, one code and two pending logins.
abbrev pub state : AuthState
state = record {
  now = 0;
  draws = 0;
  stores = record empty_stores {
    sso_sessions = KvStore.set 0 "session-1" session 43200 KvStore.empty;
    sid_index = KvStore.set 0 "sid-1" "session-1" 43200 KvStore.empty;
    authorization_codes = KvStore.set 0 "code-1" (unused code) 60 KvStore.empty;
    mfa_pending =
        KvStore.set 0 "login-1" (totp_challenge challenge) 300
          (KvStore.set 0 "login-2" (totp_setup setup) 300 KvStore.empty);
  };
  identity = record {
    clients = cms ∷ [];
    tenants = acme ∷ [];
    users = alice ∷ [];
    contracts =
        record {
          tenant_id = "tenant-1";
          oidc_client_id = "client-1";
          contract = record { status = ContractStatus.active };
        }
        ∷ [];
    memberships =
        record {
          tenant_id = "tenant-1";
          oidc_client_id = "client-1";
          user_id = "user-1";
          membership = record { status = ServiceMembershipStatus.active };
        }
        ∷ [];
    mfa_methods = [];
  };
  sessions = record { sessions = []; clients = [] };
  audit = [];
}

abbrev pub grant : NewRefreshToken
grant = record {
  client_id = "cms";
  user_id = "user-1";
  tenant_id = "tenant-1";
  sid = "sid-1";
  sso_session_id = "session-1";
  scope = "openid";
  auth_time = 0;
}
