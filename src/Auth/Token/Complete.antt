-- ===== src/Auth/Token/Complete.antt =====
-- token.ts of apps/auth-api: the conditions on which tokens are handed out.
use multi_domain_sandbox.Prelude.{
  String, ◌≡◌, refl, ◌∙◌, ◌↔◌, true, Option, none, some, Result, ok, err, arith, ◌==◌, eq_iff,
}
use multi_domain_sandbox.Shared.KvStore
use multi_domain_sandbox.Shared.KvStore.{value_of}
use multi_domain_sandbox.Shared.KvStore.View.{get_and_delete_lem}
use multi_domain_sandbox.Auth.Domain.{User, Tenant, OidcClient}
use multi_domain_sandbox.Auth.Stores.{SsoSession, UnusedCode, unused, RefreshToken, is_active}
use multi_domain_sandbox.Auth.Identity
use multi_domain_sandbox.Auth.Identity.{MemoryIdentityRepository}
use multi_domain_sandbox.Auth.Access.{check_tenant_access}
use multi_domain_sandbox.Auth.State.{Env, AuthState, key_of}
use multi_domain_sandbox.Auth.SsoSession.Frame.{
  load_sso_session_by_key-Untouched, load_sso_session_by_key_stays,
}
use multi_domain_sandbox.Auth.RefreshTokens.{consumed, consume_refresh_token, consume_found}
use multi_domain_sandbox.Auth.Token.{
  TokenResponse, TokenError, CodeExchangeInput, validate_code_binding, compute_code_challenge,
  grant_found, grant_code, redeem_bound, redeem, exchange_authorization_code, check_context,
  validate_refresh_context, grant_refresh, refresh_validated, refresh_consumed, refresh_with,
  refresh_access_token,
}
use multi_domain_sandbox.Auth.Token.SoundRefresh.{
  MayRefresh, refresh_access_token-MayRefresh, consume_found_frame,
}
use multi_domain_sandbox.Auth.Token.Sound.{
  HasSession, IsBound, MayExchange, exchange_authorization_code-MayExchange,
}

-- A result that is some response.
abbrev pub Answered : Result TokenResponse TokenError → Type 0
Answered (ok response) = Unit {0}
Answered (err error) = ⊥

Answered-ok :
    (r : Result TokenResponse TokenError)
    → Answered r
    → (response : TokenResponse) × (r ≡ ok response)
Answered-ok (ok response) a = (response, refl)
Answered-ok (err error) a = absurd a

ok-Answered :
    (r : Result TokenResponse TokenError) (response : TokenResponse) → r ≡ ok response → Answered r
ok-Answered r response p = rw p tt

module _ (env : Env) (client : OidcClient) where
  IsBound-validate_code_binding :
      (code : UnusedCode) (input : CodeExchangeInput)
      → IsBound env client input code
      → validate_code_binding env code client input ≡ ok tt
  unfolding validate_code_binding compute_code_challenge
  IsBound-validate_code_binding code input bound = ground (
    arith,
    bound.client_id,
    bound.redirect_uri,
    bound.verifier,
    bound.challenge,
    eq_iff code.client_id client.client_id,
    eq_iff code.redirect_uri input.redirect_uri,
    eq_iff (env.sha256 input.code_verifier) code.code_challenge,
  )

  redeem_bound-Answered :
      (key : String) (code : UnusedCode) (checked : Result (Unit {0}) TokenError) (s : AuthState)
      → checked ≡ ok tt
      → (may : HasSession s code.sso_session_id) → (user : User)
      → Identity.find_user_by_id s.identity code.user_id ≡ some user
      → (tenant : Tenant) → Identity.find_tenant_by_id s.identity code.tenant_id ≡ some tenant
      → Answered (redeem_bound env client key code checked s).0
  unfolding redeem_bound grant_found grant_code
  redeem_bound-Answered key code (err e) s c may user u tenant t = cc
  redeem_bound-Answered key code (ok x) s c may user u tenant t =
      let here =
        load_sso_session_by_key_stays code.sso_session_id s may.session may.stored may.alive in
      let same = (load_sso_session_by_key-Untouched code.sso_session_id s).identity in
      rw (here, same, u, t) tt

  -- A request gets tokens for a code exactly if the store holds the code unused, it was issued to
  -- this client for this redirect URI, the verifier is well formed and its digest is the code's
  -- challenge, the SSO session is stored and has not expired, and the user and the tenant exist.
  pub exchange_authorization_code_iff :
      (input : CodeExchangeInput) (s : AuthState)
      → Answered (exchange_authorization_code env client input s).0 ↔ MayExchange env client input s
  unfolding exchange_authorization_code redeem
  exchange_authorization_code_iff input s = (
    λ a.
        let (response, p) = Answered-ok (exchange_authorization_code env client input s).0 a in
        exchange_authorization_code-MayExchange env client input s response p,
    λ may.
        let key = key_of env input.code in
        let taken = KvStore.get_and_delete s.now key s.authorization_codes in
        let s1 : AuthState = record s {
          stores = record s.stores { authorization_codes = taken.1 };
        } in
        let found : taken.0 ≡ some (unused may.code) =
          get_and_delete_lem s.now key s.authorization_codes ∙ may.stored in
        rw found (
          redeem_bound-Answered key may.code _ s1
            (IsBound-validate_code_binding may.code input may.bound)
            (record {
              session = may.session.session;
              stored = may.session.stored;
              alive = may.session.alive;
            })
            may.user may.user_found may.tenant may.tenant_found),
  )

  consume_found_consumed :
      (key : String) (found : Option RefreshToken) (token : RefreshToken) (s : AuthState)
      → found ≡ some token
      → is_active token.status ≡ true
      → (consume_found key found s).0 ≡ consumed token
  unfolding consume_found
  consume_found_consumed key none token s p a = cc
  consume_found_consumed key (some stored) token s p a = ground arith

  check_context_granted :
      (identity : MemoryIdentityRepository) (token : RefreshToken) (session : SsoSession)
      (tenant : Tenant) (user : User)
      → check_tenant_access identity client tenant token.user_id ≡ ok user
      → check_context env identity client token (some session) (some tenant) ≡ ok (user, tenant)
  unfolding check_context
  check_context_granted identity token session tenant user access = rw access refl

  refresh_consumed-Answered :
      (token : RefreshToken) (s : AuthState)
      → token.client_id ≡ client.client_id
      → (may : HasSession s token.sso_session_id) → (tenant : Tenant)
      → Identity.find_tenant_by_id s.identity token.tenant_id ≡ some tenant
      → (user : User) → check_tenant_access s.identity client tenant token.user_id ≡ ok user
      → Answered (refresh_consumed env client token s).0
  unfolding refresh_consumed validate_refresh_context refresh_validated grant_refresh
  refresh_consumed-Answered token s c may tenant t user access =
      let here =
        load_sso_session_by_key_stays token.sso_session_id s may.session may.stored may.alive in
      let same = (load_sso_session_by_key-Untouched token.sso_session_id s).identity in
      let own : (token.client_id == client.client_id) ≡ true = (eq_iff _ _).1 c in
      rw (own, here, same, t, check_context_granted s.identity token may.session tenant user access)
        tt

  -- A request gets new tokens for a refresh token exactly if the store holds the token, active
  -- and issued to this client, its SSO session is stored and has not expired, its tenant exists,
  -- and the user still has access to the service in it.
  pub refresh_access_token_iff :
      (value : String) (s : AuthState)
      → Answered (refresh_access_token env client value s).0 ↔ MayRefresh env client value s
  unfolding refresh_access_token consume_refresh_token refresh_with
  refresh_access_token_iff value s = (
    λ a.
        let (response, p) = Answered-ok (refresh_access_token env client value s).0 a in
        refresh_access_token-MayRefresh env client value s response p,
    λ may.
        let key = key_of env value in
        let taken = KvStore.get_and_delete s.now key s.refresh_tokens in
        let s1 : AuthState = record s { stores = record s.stores { refresh_tokens = taken.1 } } in
        let found = get_and_delete_lem s.now key s.refresh_tokens ∙ may.stored in
        let (sessions, now, identity) = consume_found_frame env client key taken.0 s1 in
        let s2 = (consume_found key taken.0 s1).1 in
        rw (consume_found_consumed key taken.0 may.token s1 found may.is_current) (
          refresh_consumed-Answered may.token s2 may.client_id
            (record {
              session = may.session.session;
              stored = rw (sessions, now) may.session.stored;
              alive = rw now may.session.alive;
            })
            may.tenant (rw identity may.tenant_found) may.user (rw identity may.access)),
  )
