-- ===== src/Auth/Token/Sound.antt =====
-- token.ts of apps/auth-api: what an exchange that succeeded had found.
use multi_domain_sandbox.Prelude.{
  String, ◌≡◌, refl, sym, ◌∙◌, true, false, Option, none, some, Result, ok, err, arith, eq_iff,
}
use multi_domain_sandbox.Shared.KvStore
use multi_domain_sandbox.Shared.KvStore.{value_of}
use multi_domain_sandbox.Shared.KvStore.View.{view, get_and_delete_lem}
use multi_domain_sandbox.Shared.SessionExpiry.{is_expired}
use multi_domain_sandbox.Shared.CodeVerifier.{is_valid_code_verifier}
use multi_domain_sandbox.Auth.Domain.{User, Tenant, OidcClient}
use multi_domain_sandbox.Auth.Stores.{SsoSession, AuthorizationCode, UnusedCode, unused, used}
use multi_domain_sandbox.Auth.Identity
use multi_domain_sandbox.Auth.Identity.{MemoryIdentityRepository}
use multi_domain_sandbox.Auth.State.{Env, AuthState, key_of}
use multi_domain_sandbox.Auth.SsoSession.{expiry, times, load_sso_session_by_key}
use multi_domain_sandbox.Auth.SsoSession.Frame.{
  load_sso_session_by_key-Untouched, load_sso_session_by_key_alive,
}
use multi_domain_sandbox.Auth.Token.{
  TokenResponse, TokenError, CodeExchangeInput, validate_code_binding, compute_code_challenge,
  grant_found, redeem_bound, redeem, reject_used_code, exchange_authorization_code,
}

-- The SSO session that the grant was made in is there and has not expired.
pub record HasSession (s : AuthState) (sso_session_id : String) : Type 0 where
  pub session : SsoSession
  pub stored : value_of (view s.sso_sessions s.now sso_session_id) ≡ some session
  pub alive : is_expired expiry (times session) s.now ≡ false

-- What the code is bound to is what the request shows.
pub record IsBound (env : Env) (client : OidcClient) (input : CodeExchangeInput) (code : UnusedCode)
    : Type 0 where
  pub client_id : code.client_id ≡ client.client_id
  pub redirect_uri : code.redirect_uri ≡ input.redirect_uri
  pub verifier : is_valid_code_verifier input.code_verifier ≡ true
  pub challenge : env.sha256 input.code_verifier ≡ code.code_challenge

pub record MayExchange (env : Env) (client : OidcClient) (input : CodeExchangeInput) (s : AuthState)
    : Type 0 where
  pub code : UnusedCode
  pub stored :
      value_of (view s.authorization_codes s.now (key_of env input.code)) ≡ some (unused code)
  pub bound : IsBound env client input code
  pub session : HasSession s code.sso_session_id
  pub user : User
  pub user_found : Identity.find_user_by_id s.identity code.user_id ≡ some user
  pub tenant : Tenant
  pub tenant_found : Identity.find_tenant_by_id s.identity code.tenant_id ≡ some tenant

pub HasSession-load :
    (key : String) (s : AuthState) (session : SsoSession)
    → (load_sso_session_by_key key s).0 ≡ some session
    → HasSession s key
HasSession-load key s session p =
    let (stored, alive) = load_sso_session_by_key_alive key s session p in
    record { session = session; stored = stored; alive = alive }

module _ (env : Env) (client : OidcClient) where
  validate_code_binding-IsBound :
      (code : UnusedCode) (input : CodeExchangeInput)
      → validate_code_binding env code client input ≡ ok tt
      → IsBound env client input code
  unfolding validate_code_binding compute_code_challenge
  validate_code_binding-IsBound code input p = record {
    client_id = ground (arith, eq_iff code.client_id client.client_id);
    redirect_uri = ground (arith, eq_iff code.redirect_uri input.redirect_uri);
    verifier = ground arith;
    challenge = ground (arith, eq_iff (env.sha256 input.code_verifier) code.code_challenge);
  }

  grant_found_ok :
      (key : String) (code : UnusedCode) (session : Option SsoSession) (user : Option User)
      (tenant : Option Tenant) (s : AuthState) (response : TokenResponse)
      → (grant_found env client key code session user tenant s).0 ≡ ok response
      → ((x : SsoSession) × (session ≡ some x))
        × ((x : User) × (user ≡ some x))
        × ((x : Tenant) × (tenant ≡ some x))
  unfolding grant_found
  grant_found_ok key code none user tenant s response p = cc
  grant_found_ok key code (some x) none tenant s response p = cc
  grant_found_ok key code (some x) (some y) none s response p = cc
  grant_found_ok key code (some x) (some y) (some z) s response p =
      ((x, refl), (y, refl), (z, refl))

  redeem_bound_ok :
      (key : String) (code : UnusedCode) (checked : Result (Unit {0}) TokenError) (s : AuthState)
      (response : TokenResponse)
      → (redeem_bound env client key code checked s).0 ≡ ok response
      → (checked ≡ ok tt)
        × HasSession s code.sso_session_id
        × ((x : User) × (Identity.find_user_by_id s.identity code.user_id ≡ some x))
        × ((x : Tenant) × (Identity.find_tenant_by_id s.identity code.tenant_id ≡ some x))
  unfolding redeem_bound
  redeem_bound_ok key code (err error) s response p = cc
  redeem_bound_ok key code (ok tt) s response p =
      let loaded = load_sso_session_by_key code.sso_session_id s in
      let same = (load_sso_session_by_key-Untouched code.sso_session_id s).identity in
      let ((x, here), (y, user), (z, tenant)) =
        grant_found_ok key code loaded.0 _ _ loaded.1 response p in
      (
        refl,
        HasSession-load code.sso_session_id s x here,
        (y, rw same at user),
        (z, rw same at tenant),
      )

  redeem_ok :
      (input : CodeExchangeInput) (key : String) (found : Option AuthorizationCode) (s : AuthState)
      (response : TokenResponse)
      → (redeem env client input key found s).0 ≡ ok response
      → (code : UnusedCode) × (found ≡ some (unused code))
        × IsBound env client input code
        × HasSession s code.sso_session_id
        × ((x : User) × (Identity.find_user_by_id s.identity code.user_id ≡ some x))
        × ((x : Tenant) × (Identity.find_tenant_by_id s.identity code.tenant_id ≡ some x))
  unfolding redeem reject_used_code
  redeem_ok input key none s response p = cc
  redeem_ok input key (some (used family_id)) s response p = cc
  redeem_ok input key (some (unused code)) s response p =
      let (bound, session, user, tenant) = redeem_bound_ok key code _ s response p in
      (code, refl, validate_code_binding-IsBound code input bound, session, user, tenant)

  -- A code is exchanged only if the store holds it unused, it was issued to this client for this
  -- redirect URI, the verifier is well formed and its digest is the code's challenge, the SSO session
  -- is there and has not expired, and the user and the tenant exist.
  pub exchange_authorization_code-MayExchange :
      (input : CodeExchangeInput) (s : AuthState) (response : TokenResponse)
      → (exchange_authorization_code env client input s).0 ≡ ok response
      → MayExchange env client input s
  unfolding exchange_authorization_code
  exchange_authorization_code-MayExchange input s response p =
      let key = key_of env input.code in
      let taken = KvStore.get_and_delete s.now key s.authorization_codes in
      let (code, found, bound, session, (user, user_found), (tenant, tenant_found)) =
        redeem_ok input key taken.0
          (record s { stores = record s.stores { authorization_codes = taken.1 } }) response p in
      record {
        code = code;
        stored = sym (get_and_delete_lem s.now key s.authorization_codes) ∙ found;
        bound = bound;
        session = record {
          session = session.session;
          stored = session.stored;
          alive = session.alive;
        };
        user = user;
        user_found = user_found;
        tenant = tenant;
        tenant_found = tenant_found;
      }
