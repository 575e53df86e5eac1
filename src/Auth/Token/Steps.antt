-- ===== src/Auth/Token/Steps.antt =====
-- The token endpoint over time: its requests, in any order, and the clock.
use multi_domain_sandbox.Prelude.{
  ℕ, String, Option, none, some, Result, ok, err, arith, Bool-cases, inl, inr, ◌==◌,
}
use multi_domain_sandbox.Shared.KvStore
use multi_domain_sandbox.Shared.KvStore.{Entry, MemoryKeyValueStore, value_of}
use multi_domain_sandbox.Shared.KvStore.View.{view-get}
use multi_domain_sandbox.Auth.Domain.{User, Tenant, OidcClient}
use multi_domain_sandbox.Auth.Stores.{
  SsoSession, AuthorizationCode, UnusedCode, unused, used, RefreshToken,
}
use multi_domain_sandbox.Auth.State.{Env, AuthState, key_of, record_audit}
use multi_domain_sandbox.Auth.SsoSession.{load_sso_session_by_key}
use multi_domain_sandbox.Auth.SsoSession.Frame.{load_sso_session_by_key-Untouched}
use multi_domain_sandbox.Auth.RefreshTokens.{
  ConsumeResult, consumed, unknown, reused, consume_refresh_token,
}
use multi_domain_sandbox.Auth.RefreshTokens.Family.{AllTracked, IsTracked, IsTracked-tokens}
use multi_domain_sandbox.Auth.RefreshTokens.Tracked.{
  later, later-AllTracked, consume_refresh_token-AllTracked, revoke_refresh_token_family-AllTracked,
  rotate_refresh_token-AllTracked, create_refresh_token_family-AllTracked,
  describe_refresh_token_family-AllTracked,
}
use multi_domain_sandbox.Auth.IssueTokens.{issue_tokens}
use multi_domain_sandbox.Auth.Token.{
  TokenError, CodeExchangeInput, grant_of, grant_found, grant_code, redeem_bound, redeem,
  reject_used_code, remember_consumed_code, exchange_authorization_code, reject_family,
  grant_refresh, refresh_validated, refresh_consumed, refresh_with, refresh_access_token,
  revoke_found, revoke_refresh_token,
}
use multi_domain_sandbox.Auth.Token.Refresh.{
  AllTracked-Untouched, validate_refresh_context-AllTracked,
}

-- One request to the token or the revocation endpoint, or time that passes.
pub data Step (env : Env) : AuthState → AuthState → Type 0 where
  exchange :
      (client : OidcClient) (input : CodeExchangeInput) (s : AuthState)
      → Step env s (exchange_authorization_code env client input s).1
  refresh :
      (client : OidcClient) (value : String) (s : AuthState)
      → Step env s (refresh_access_token env client value s).1
  revoke :
      (client : OidcClient) (value : String) (s : AuthState)
      → Step env s (revoke_refresh_token env client value s).1
  wait : (seconds : ℕ) (s : AuthState) → Step env s (later seconds s)

pub data Steps (env : Env) : AuthState → AuthState → Type 0 where
  here : (s : AuthState) → Steps env s s
  then_step : {s s' s'' : AuthState} → Steps env s s' → Step env s' s'' → Steps env s s''

module _ (env : Env) where
  grant_found-AllTracked :
      (client : OidcClient) (key : String) (code : UnusedCode) (session : Option SsoSession)
      (user : Option User) (tenant : Option Tenant) (s : AuthState)
      → AllTracked s
      → AllTracked (grant_found env client key code session user tenant s).1
  unfolding grant_found grant_code remember_consumed_code issue_tokens
  grant_found-AllTracked client key code none user tenant s tr = tr
  grant_found-AllTracked client key code (some x) none tenant s tr = tr
  grant_found-AllTracked client key code (some x) (some y) none s tr = tr
  grant_found-AllTracked client key code (some x) (some y) (some z) s tr =
      create_refresh_token_family-AllTracked s tr env (grant_of client code)

  redeem_bound-AllTracked :
      (client : OidcClient) (key : String) (code : UnusedCode)
      (checked : Result (Unit {0}) TokenError) (s : AuthState)
      → AllTracked s
      → AllTracked (redeem_bound env client key code checked s).1
  unfolding redeem_bound
  redeem_bound-AllTracked client key code (err error) s tr = tr
  redeem_bound-AllTracked client key code (ok x) s tr =
      let loaded = load_sso_session_by_key code.sso_session_id s in
      grant_found-AllTracked client key code loaded.0 _ _ loaded.1
        (AllTracked-Untouched (load_sso_session_by_key-Untouched code.sso_session_id s) tr)

  redeem-AllTracked :
      (client : OidcClient) (input : CodeExchangeInput) (key : String)
      (found : Option AuthorizationCode) (s : AuthState)
      → AllTracked s
      → AllTracked (redeem env client input key found s).1
  unfolding redeem reject_used_code remember_consumed_code record_audit
  redeem-AllTracked client input key none s tr = tr
  redeem-AllTracked client input key (some (used family_id)) s tr =
      let described = describe_refresh_token_family-AllTracked s tr family_id in
      revoke_refresh_token_family-AllTracked _ described family_id
  redeem-AllTracked client input key (some (unused code)) s tr =
      redeem_bound-AllTracked client key code _ s tr

  refresh_validated-AllTracked :
      (client : OidcClient) (stored : RefreshToken) (checked : Result (User × Tenant) TokenError)
      (s : AuthState)
      → AllTracked s
      → AllTracked (refresh_validated env client stored checked s).1
  unfolding refresh_validated grant_refresh issue_tokens
  refresh_validated-AllTracked client stored (err e) s tr =
      revoke_refresh_token_family-AllTracked s tr stored.family_id
  refresh_validated-AllTracked client stored (ok (user, tenant)) s tr =
      rotate_refresh_token-AllTracked s tr env stored

  refresh_with-AllTracked :
      (client : OidcClient) (result : ConsumeResult) (s : AuthState)
      → AllTracked s
      → AllTracked (refresh_with env client result s).1
  unfolding refresh_with refresh_consumed reject_family record_audit
  refresh_with-AllTracked client unknown s tr = tr
  refresh_with-AllTracked client (reused stored) s tr =
      revoke_refresh_token_family-AllTracked s tr stored.family_id
  refresh_with-AllTracked client (consumed stored) s tr =
      elim (Bool-cases (stored.client_id == client.client_id)) [
        | inl same ↦ rw same (
            refresh_validated-AllTracked client stored _ _
              (validate_refresh_context-AllTracked env client stored s tr))
        | inr other ↦ rw other (revoke_refresh_token_family-AllTracked s tr stored.family_id)
      ]

  revoke_found-AllTracked :
      (client : OidcClient) (found : Option RefreshToken) (s : AuthState)
      → AllTracked s
      → AllTracked (revoke_found env client found s).1
  unfolding revoke_found
  revoke_found-AllTracked client none s tr = tr
  revoke_found-AllTracked client (some stored) s tr =
      elim (Bool-cases (stored.client_id == client.client_id)) [
        | inl same ↦ rw same (revoke_refresh_token_family-AllTracked s tr stored.family_id)
        | inr other ↦ rw other tr
      ]

  revoke_refresh_token-AllTracked :
      (client : OidcClient) (value : String) (s : AuthState)
      → AllTracked s
      → AllTracked (revoke_refresh_token env client value s).1
  unfolding revoke_refresh_token
  revoke_refresh_token-AllTracked client value s tr =
      let read = KvStore.get s.now (key_of env value) s.refresh_tokens in
      let same =
        λ (k : String). view-get s.now s.now (key_of env value) k s.refresh_tokens (omega arith) in
      let tr' : IsTracked s.now read.1 s.refresh_token_families =
        IsTracked-tokens tr read.1 (λ k e p a. rw (same k) at p)
          (λ k e p. tr.bounded k e (rw (same k) at p)) in
      revoke_found-AllTracked client read.0
        (record s { stores = record s.stores { refresh_tokens = read.1 } }) tr'

  Step-AllTracked : {s s' : AuthState} → Step env s s' → AllTracked s → AllTracked s'
  unfolding exchange_authorization_code refresh_access_token
  Step-AllTracked (exchange client input s) tr =
      let taken = KvStore.get_and_delete s.now (key_of env input.code) s.authorization_codes in
      redeem-AllTracked client input (key_of env input.code) taken.0
        (record s { stores = record s.stores { authorization_codes = taken.1 } }) tr
  Step-AllTracked (refresh client value s) tr =
      let result = consume_refresh_token env value s in
      refresh_with-AllTracked client result.0 result.1
        (consume_refresh_token-AllTracked s tr env value)
  Step-AllTracked (revoke client value s) tr = revoke_refresh_token-AllTracked client value s tr
  Step-AllTracked (wait seconds s) tr = later-AllTracked s tr seconds

  -- If every active refresh token is listed in its family's set for as long as it lives, and no stored
  -- refresh token is kept longer than a full lifetime from now, then so it is after any requests to
  -- the token and the revocation endpoint, in any order and at any times.
  pub Steps-AllTracked : {s s' : AuthState} → Steps env s s' → AllTracked s → AllTracked s'
  Steps-AllTracked (here s) tr = tr
  Steps-AllTracked (then_step before step) tr = Step-AllTracked step (Steps-AllTracked before tr)
