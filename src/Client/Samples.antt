-- ===== src/Client/Samples.antt =====
-- A web server of one tenant for the tests, and the authorization server that it calls.
use Prim.Native.String.{◌++◌ as append}
use multi_domain_sandbox.Prelude.{ℕ, zero, suc, String, none, some, ok, [], ◌∷◌}
use multi_domain_sandbox.Shared.KvStore
use multi_domain_sandbox.Shared.SetStore
use multi_domain_sandbox.Client.Types.{
  ServiceConfig, OidcClientConfig, TenantSession, TokenResponse,
}
use multi_domain_sandbox.Client.State.{ClientState, pure, RandomBytes}
use multi_domain_sandbox.Client.Session.{NewSessionInput, create_session}
use multi_domain_sandbox.Client.Access.{World}
use multi_domain_sandbox.Client.Routes.{Provider, IdClaims, CallbackQuery, login}

unfoldable pub numbered : String → ℕ → String
numbered prefix zero = prefix
numbered prefix (suc n) = append (numbered prefix n) "x"

abbrev pub random : RandomBytes
random bytes n = numbered "r" n

abbrev pub service : ServiceConfig
service = record {
  client_id = "cms";
  client_secret = "secret";
  scopes = "openid" ∷ "profile" ∷ [];
  api_base_url = "https://api.cms.example.com";
  name = "CMS";
}

abbrev pub client : OidcClientConfig
client = record {
  service = service;
  tenant_slug = "acme";
  redirect_uri = "https://acme.cms.example.com/auth/callback";
}

abbrev pub new_tokens : TokenResponse
new_tokens = record {
  access_token = "access-1";
  expires_in = 900;
  id_token = some "id-1";
  refresh_token = "refresh-1";
  scope = none;
}

abbrev pub input : NewSessionInput
input = record {
  client = client;
  user_id = "user-1";
  tenant_id = "tenant-1";
  sid = "sid-1";
  email = none;
  name = none;
  tokens = new_tokens;
}

abbrev pub nothing : ClientState
nothing = record {
  now = 1000;
  draws = 0;
  sessions = KvStore.empty;
  sessions_by_sid = SetStore.empty;
  pre_auth = KvStore.empty;
  refresh_locks = KvStore.empty;
}

-- A session with half a minute left of its access token.
abbrev pub session : TenantSession
session = record {
  id = "r";
  tenant_slug = "acme";
  user_id = "user-1";
  tenant_id = "tenant-1";
  sid = "sid-1";
  email = none;
  name = none;
  access_token = "access-1";
  access_token_expires_at = 1900;
  refresh_token = "refresh-1";
  csrf_token = "rx";
  created_at = 1000;
  last_seen_at = 1000;
}

unfoldable pub logged_in : ClientState
logged_in = (create_session random input nothing).1

-- An API that takes every token for expired, and a server that renews every token for 15 minutes.
abbrev pub world : World (Unit {0}) (Unit {0})
world = record {
  sleep = λ ms. pure tt;
  refresh = λ c token. pure (ok new_tokens);
  fetch = λ r. pure (record {
    status = 401;
    www_authenticate = some "Bearer error=\"invalid_token\", error_description=\"expired\"";
    body = tt;
  });
}

abbrev pub claims : IdClaims
claims = record {
  sub = some "user-1";
  sid = some "sid-1";
  tenant_id = some "tenant-1";
  tenant_slug = some "acme";
  email = none;
  name = none;
}

abbrev pub provider : Provider
provider = record {
  issuer = "https://auth.example.com";
  get_discovery = pure (ok "https://auth.example.com/authorize");
  exchange_code = λ c code verifier. pure (ok new_tokens);
  verify_id_token = λ token c nonce. pure (ok claims);
  verify_logout_token = λ token. pure (ok (record { sid = "sid-1"; audience = "cms" }));
  revoke = λ c token. pure (ok tt);
}

-- What comes back from the authorization server for the login that `begun` has under way.
abbrev pub query : CallbackQuery
query = record {
  state = some "rxx";
  iss = none;
  error = none;
  error_description = none;
  code = some "code-1";
}

unfoldable pub begun : ClientState
begun = (login random (λ v. v) provider client (some "/posts") nothing).1
