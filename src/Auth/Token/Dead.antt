-- ===== src/Auth/Token/Dead.antt =====
-- token.ts of apps/auth-api: the requests, and a family of refresh tokens that was revoked.
use multi_domain_sandbox.Prelude.{
  ℕ, String, ◌≡◌, ◌≢◌, refl, Option, none, some, Result, ok, err, Bool-cases, inl, inr, ◌==◌,
}
use multi_domain_sandbox.Auth.Domain.{User, Tenant, OidcClient}
use multi_domain_sandbox.Auth.Stores.{
  SsoSession, AuthorizationCode, UnusedCode, unused, used, RefreshToken,
}
use multi_domain_sandbox.Auth.State.{Env, AuthState, record_audit}
use multi_domain_sandbox.Auth.SsoSession.{load_sso_session_by_key}
use multi_domain_sandbox.Auth.SsoSession.Frame.{load_sso_session_by_key-Untouched}
use multi_domain_sandbox.Auth.RefreshTokens.{
  revoke_refresh_token_family, ConsumeResult, consumed, unknown, reused, rotate_refresh_token,
  store_refresh_token, create_refresh_token_family,
}
use multi_domain_sandbox.Auth.RefreshTokens.Tracked.{later, IsDead}
use multi_domain_sandbox.Auth.IssueTokens.{issue_tokens}
use multi_domain_sandbox.Auth.Token.{
  TokenError, CodeExchangeInput, grant_found, grant_code, redeem_bound, redeem, reject_used_code,
  remember_consumed_code, exchange_authorization_code, reject_family, grant_refresh,
  refresh_validated, refresh_consumed, refresh_with, refresh_access_token, revoke_found,
  revoke_refresh_token, validate_refresh_context,
}
use multi_domain_sandbox.Auth.RefreshTokens.Dead.{
  DeadIn-set, IsDead-revoke, IsDead-describe, IsDead-Untouched,
}

-- One request to the token or the revocation endpoint, where the random identifier of a new family is not
-- this one; the revocation of a family, which logouts and administrators make; anything that leaves the
-- refresh tokens as they are; or time that passes.
pub data Spared (env : Env) (family_id : String) : AuthState → AuthState → Type 0 where
  exchange :
      (client : OidcClient) (input : CodeExchangeInput) (s : AuthState)
      → env.random_bytes 16 s.draws ≢ family_id
      → Spared env family_id s (exchange_authorization_code env client input s).1
  refresh :
      (client : OidcClient) (value : String) (s : AuthState)
      → Spared env family_id s (refresh_access_token env client value s).1
  revoke :
      (client : OidcClient) (value : String) (s : AuthState)
      → Spared env family_id s (revoke_refresh_token env client value s).1
  revoke_family :
      (other : String) (s : AuthState)
      → Spared env family_id s (revoke_refresh_token_family other s).1
  elsewhere :
      (s s' : AuthState)
      → s'.now ≡ s.now
      → s'.refresh_tokens ≡ s.refresh_tokens
      → Spared env family_id s s'
  wait : (seconds : ℕ) (s : AuthState) → Spared env family_id s (later seconds s)
  here : (s : AuthState) → Spared env family_id s s
  both :
      {s s' s'' : AuthState}
      → Spared env family_id s s'
      → Spared env family_id s' s''
      → Spared env family_id s s''

module _ (env : Env) (family_id : String) where
  grant_found-IsDead :
      (client : OidcClient) (key : String) (code : UnusedCode) (session : Option SsoSession)
      (user : Option User) (tenant : Option Tenant) (s : AuthState)
      → env.random_bytes 16 s.draws ≢ family_id
      → IsDead family_id s
      → IsDead family_id (grant_found env client key code session user tenant s).1
  unfolding grant_found grant_code remember_consumed_code issue_tokens create_refresh_token_family
      store_refresh_token
  grant_found-IsDead client key code none user tenant s fresh dead = dead
  grant_found-IsDead client key code (some x) none tenant s fresh dead = dead
  grant_found-IsDead client key code (some x) (some y) none s fresh dead = dead
  grant_found-IsDead client key code (some x) (some y) (some z) s fresh dead =
      DeadIn-set family_id s.now _ _ s.refresh_tokens (inl fresh) dead

  redeem_bound-IsDead :
      (client : OidcClient) (key : String) (code : UnusedCode)
      (checked : Result (Unit {0}) TokenError) (s : AuthState)
      → env.random_bytes 16 s.draws ≢ family_id
      → IsDead family_id s
      → IsDead family_id (redeem_bound env client key code checked s).1
  unfolding redeem_bound
  redeem_bound-IsDead client key code (err error) s fresh dead = dead
  redeem_bound-IsDead client key code (ok x) s fresh dead =
      let loaded = load_sso_session_by_key code.sso_session_id s in
      let u = load_sso_session_by_key-Untouched code.sso_session_id s in
      grant_found-IsDead client key code loaded.0 _ _ loaded.1 (rw u.draws fresh)
        (IsDead-Untouched family_id u dead)

  pub redeem-IsDead :
      (client : OidcClient) (input : CodeExchangeInput) (key : String)
      (found : Option AuthorizationCode) (s : AuthState)
      → env.random_bytes 16 s.draws ≢ family_id
      → IsDead family_id s
      → IsDead family_id (redeem env client input key found s).1
  unfolding redeem reject_used_code remember_consumed_code record_audit
  redeem-IsDead client input key none s fresh dead = dead
  redeem-IsDead client input key (some (used other)) s fresh dead =
      IsDead-revoke family_id other _ (IsDead-describe family_id other s dead)
  redeem-IsDead client input key (some (unused code)) s fresh dead =
      redeem_bound-IsDead client key code _ s fresh dead

  refresh_validated-IsDead :
      (client : OidcClient) (stored : RefreshToken) (checked : Result (User × Tenant) TokenError)
      (s : AuthState)
      → stored.family_id ≢ family_id
      → IsDead family_id s
      → IsDead family_id (refresh_validated env client stored checked s).1
  unfolding refresh_validated grant_refresh issue_tokens rotate_refresh_token store_refresh_token
  refresh_validated-IsDead client stored (err e) s other dead =
      IsDead-revoke family_id stored.family_id s dead
  refresh_validated-IsDead client stored (ok (user, tenant)) s other dead =
      DeadIn-set family_id s.now _ _ s.refresh_tokens (inl other) dead

  pub refresh_with-IsDead :
      (client : OidcClient) (result : ConsumeResult) (s : AuthState)
      → ((stored : RefreshToken) → result ≡ consumed stored → stored.family_id ≢ family_id)
      → IsDead family_id s
      → IsDead family_id (refresh_with env client result s).1
  unfolding refresh_with refresh_consumed reject_family record_audit validate_refresh_context
  refresh_with-IsDead client unknown s other dead = dead
  refresh_with-IsDead client (reused stored) s other dead =
      IsDead-revoke family_id stored.family_id s dead
  refresh_with-IsDead client (consumed stored) s other dead =
      let u = load_sso_session_by_key-Untouched stored.sso_session_id s in
      elim (Bool-cases (stored.client_id == client.client_id)) [
        | inl same ↦ rw same (
            refresh_validated-IsDead client stored _ _ (other stored refl)
              (IsDead-Untouched family_id u dead))
        | inr differs ↦ rw differs (IsDead-revoke family_id stored.family_id s dead)
      ]

  pub revoke_found-IsDead :
      (client : OidcClient) (found : Option RefreshToken) (s : AuthState)
      → IsDead family_id s
      → IsDead family_id (revoke_found env client found s).1
  unfolding revoke_found
  revoke_found-IsDead client none s dead = dead
  revoke_found-IsDead client (some stored) s dead =
      elim (Bool-cases (stored.client_id == client.client_id)) [
        | inl same ↦ rw same (IsDead-revoke family_id stored.family_id s dead)
        | inr other ↦ rw other dead
      ]
