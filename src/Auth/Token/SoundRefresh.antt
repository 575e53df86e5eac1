-- ===== src/Auth/Token/SoundRefresh.antt =====
-- token.ts of apps/auth-api: what a refresh that succeeded had found.
use multi_domain_sandbox.Prelude.{
  String, ◌≡◌, refl, sym, ap, ◌∙◌, true, Option, none, some, Result, ok, err, arith, Bool-cases,
  inl, inr, ◌==◌, eq_iff,
}
use multi_domain_sandbox.Shared.KvStore
use multi_domain_sandbox.Shared.KvStore.{value_of}
use multi_domain_sandbox.Shared.KvStore.View.{view, get_and_delete_lem}
use multi_domain_sandbox.Auth.Domain.{User, Tenant, OidcClient, AccessDeniedReason}
use multi_domain_sandbox.Auth.Stores.{SsoSession, RefreshToken, is_active}
use multi_domain_sandbox.Auth.Identity
use multi_domain_sandbox.Auth.Identity.{MemoryIdentityRepository}
use multi_domain_sandbox.Auth.Access.{check_tenant_access}
use multi_domain_sandbox.Auth.State.{Env, AuthState, key_of}
use multi_domain_sandbox.Auth.SsoSession.{load_sso_session_by_key}
use multi_domain_sandbox.Auth.SsoSession.Frame.{load_sso_session_by_key-Untouched}
use multi_domain_sandbox.Auth.RefreshTokens.{
  ConsumeResult, consumed, unknown, reused, consume_refresh_token, consume_found,
}
use multi_domain_sandbox.Auth.Token.{
  TokenResponse, TokenError, check_context, with_tenant, validate_refresh_context, reject_family,
  refresh_validated, refresh_consumed, refresh_with, refresh_access_token,
}
use multi_domain_sandbox.Auth.Token.Sound.{HasSession, HasSession-load}

pub record MayRefresh (env : Env) (client : OidcClient) (value : String) (s : AuthState)
    : Type 0 where
  pub token : RefreshToken
  pub stored : value_of (view s.refresh_tokens s.now (key_of env value)) ≡ some token
  pub is_current : is_active token.status ≡ true
  pub client_id : token.client_id ≡ client.client_id
  pub session : HasSession s token.sso_session_id
  pub tenant : Tenant
  pub tenant_found : Identity.find_tenant_by_id s.identity token.tenant_id ≡ some tenant
  pub user : User
  pub access : check_tenant_access s.identity client tenant token.user_id ≡ ok user

module _ (env : Env) (client : OidcClient) where
  pub consume_found_current :
      (key : String) (found : Option RefreshToken) (s : AuthState) (stored : RefreshToken)
      → (consume_found key found s).0 ≡ consumed stored
      → (found ≡ some stored) × (is_active stored.status ≡ true)
  unfolding consume_found
  consume_found_current key none s stored p = cc
  consume_found_current key (some token) s stored p = ground arith

  pub consume_found_frame :
      (key : String) (found : Option RefreshToken) (s : AuthState)
      → ((consume_found key found s).1.sso_sessions ≡ s.sso_sessions)
        × ((consume_found key found s).1.now ≡ s.now)
        × ((consume_found key found s).1.identity ≡ s.identity)
  unfolding consume_found
  consume_found_frame key none s = (refl, refl, refl)
  consume_found_frame key (some token) s = elim (Bool-cases (is_active token.status)) [
    | inl a ↦ rw a (refl, refl, refl)
    | inr n ↦ rw n (refl, refl, refl)
  ]

  with_tenant_ok :
      (tenant : Tenant) (access : Result User AccessDeniedReason) (user : User) (granted : Tenant)
      → with_tenant tenant access ≡ ok (user, granted)
      → (tenant ≡ granted) × (access ≡ ok user)
  with_tenant_ok tenant (ok u) user granted p = (cc, cc)
  with_tenant_ok tenant (err e) user granted p = cc

  check_context_ok :
      (identity : MemoryIdentityRepository) (token : RefreshToken) (session : Option SsoSession)
      (tenant : Option Tenant) (user : User) (granted : Tenant)
      → check_context env identity client token session tenant ≡ ok (user, granted)
      → ((x : SsoSession) × (session ≡ some x))
        × (tenant ≡ some granted)
        × (check_tenant_access identity client granted token.user_id ≡ ok user)
  unfolding check_context
  check_context_ok identity token none tenant user granted p = cc
  check_context_ok identity token (some session) none user granted p = cc
  check_context_ok identity token (some session) (some tenant) user granted p =
      let (same, access) =
        with_tenant_ok tenant (check_tenant_access identity client tenant token.user_id) user
          granted p in
      ((session, refl), ap some same, rw same at access)

  refresh_validated_ok :
      (token : RefreshToken) (checked : Result (User × Tenant) TokenError) (s : AuthState)
      (response : TokenResponse)
      → (refresh_validated env client token checked s).0 ≡ ok response
      → (user : User) × (tenant : Tenant) × (checked ≡ ok (user, tenant))
  unfolding refresh_validated
  refresh_validated_ok token (err e) s response p = cc
  refresh_validated_ok token (ok (user, tenant)) s response p = (user, tenant, refl)

  refresh_consumed_ok :
      (token : RefreshToken) (s : AuthState) (response : TokenResponse)
      → (refresh_consumed env client token s).0 ≡ ok response
      → (token.client_id ≡ client.client_id)
        × HasSession s token.sso_session_id
        × ((user : User) × (tenant : Tenant) × (Identity.find_tenant_by_id s.identity
                token.tenant_id
              ≡ some tenant)
            × (check_tenant_access s.identity client tenant token.user_id ≡ ok user))
  unfolding refresh_consumed reject_family validate_refresh_context
  refresh_consumed_ok token s response p = elim (Bool-cases (token.client_id == client.client_id)) [
    | inr other ↦ ground (arith, rw other at p)
    | inl same ↦
        let loaded = load_sso_session_by_key token.sso_session_id s in
        let frame = (load_sso_session_by_key-Untouched token.sso_session_id s).identity in
        let (user, tenant, checked) = refresh_validated_ok token _ _ response (rw same at p) in
        let ((session, here), found, access) =
          check_context_ok loaded.1.identity token loaded.0 _ user tenant checked in
        (
          (eq_iff token.client_id client.client_id).0 same,
          HasSession-load token.sso_session_id s session here,
          (user, tenant, rw frame at found, rw frame at access),
        )
  ]

  refresh_with_ok :
      (result : ConsumeResult) (s : AuthState) (response : TokenResponse)
      → (refresh_with env client result s).0 ≡ ok response
      → (token : RefreshToken) × (result ≡ consumed token)
        × ((refresh_consumed env client token s).0 ≡ ok response)
  unfolding refresh_with reject_family
  refresh_with_ok unknown s response p = cc
  refresh_with_ok (reused token) s response p = cc
  refresh_with_ok (consumed token) s response p = (token, refl, p)

  -- A refresh token gives new tokens only if the store holds it, active and issued to this client,
  -- its SSO session is there and has not expired, its tenant exists, and the user still has
  -- access to the service in it.
  pub refresh_access_token-MayRefresh :
      (value : String) (s : AuthState) (response : TokenResponse)
      → (refresh_access_token env client value s).0 ≡ ok response
      → MayRefresh env client value s
  unfolding refresh_access_token consume_refresh_token
  refresh_access_token-MayRefresh value s response p =
      let key = key_of env value in
      let taken = KvStore.get_and_delete s.now key s.refresh_tokens in
      let s1 : AuthState = record s { stores = record s.stores { refresh_tokens = taken.1 } } in
      let result = consume_found key taken.0 s1 in
      let (token, used_now, granted) = refresh_with_ok result.0 result.1 response p in
      let (found, is_current) = consume_found_current key taken.0 s1 token used_now in
      let (sessions, now, identity) = consume_found_frame key taken.0 s1 in
      let (client_id, session, (user, tenant, tenant_found, access)) =
        refresh_consumed_ok token result.1 response granted in
      record {
        token = token;
        stored = sym (get_and_delete_lem s.now key s.refresh_tokens) ∙ found;
        is_current = is_current;
        client_id = client_id;
        session = record {
          session = session.session;
          stored = rw (sessions, now) at session.stored;
          alive = rw now at session.alive;
        };
        tenant = tenant;
        tenant_found = rw identity at tenant_found;
        user = user;
        access = rw identity at access;
      }
