-- ===== src/Client/Types.antt =====
-- packages/oidc-client/src/types.ts and the token response of packages/oidc-client/src/provider.ts.
use multi_domain_sandbox.Prelude.{ℕ, String, Option, List}

pub record ServiceConfig : Type 0 where
  pub client_id : String
  pub client_secret : String
  pub scopes : List String
  pub api_base_url : String
  pub name : String

pub record OidcClientConfig : Type 0 where
  pub service : ServiceConfig
  pub open service use *
  pub tenant_slug : String
  pub redirect_uri : String

pub record TenantSession : Type 0 where
  pub id : String
  pub tenant_slug : String
  pub user_id : String
  pub tenant_id : String
  pub sid : String
  pub email : Option String
  pub name : Option String
  pub access_token : String
  pub access_token_expires_at : ℕ
  pub refresh_token : String
  pub csrf_token : String
  pub created_at : ℕ
  pub last_seen_at : ℕ

pub record PreAuthState : Type 0 where
  pub state : String
  pub nonce : String
  pub code_verifier : String
  pub return_to : String

pub record TokenResponse : Type 0 where
  pub access_token : String
  pub expires_in : ℕ
  pub id_token : Option String
  pub refresh_token : String
  pub scope : Option String

abbrev pub session_idle_seconds : ℕ
session_idle_seconds = 1800

abbrev pub session_absolute_seconds : ℕ
session_absolute_seconds = 43200

abbrev pub pre_auth_ttl_seconds : ℕ
pre_auth_ttl_seconds = 1800

abbrev pub access_token_refresh_margin_seconds : ℕ
access_token_refresh_margin_seconds = 60

abbrev pub refresh_lock_ttl_seconds : ℕ
refresh_lock_ttl_seconds = 10
