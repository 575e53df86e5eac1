-- ===== src/Auth/Token/Once.antt =====
-- token.ts of apps/auth-api: two requests for one authorization code.
use multi_domain_sandbox.Prelude.{
  ◌+◌, String, ◌≡◌, ◌≢◌, refl, ◌∙◌, Option, none, some, Result, ok, err, arith, Bool-cases, inl,
  inr, ◌==◌,
}
use multi_domain_sandbox.Shared.KvStore
use multi_domain_sandbox.Shared.KvStore.{Entry, value_of}
use multi_domain_sandbox.Shared.KvStore.View.{view}
use multi_domain_sandbox.Auth.Domain.{User, Tenant, OidcClient, AuditEventKind}
use multi_domain_sandbox.Auth.Stores.{
  AuthorizationCode, UnusedCode, unused, RefreshToken, is_active,
}
use multi_domain_sandbox.Auth.State.{Env, AuthState, key_of, record_audit}
use multi_domain_sandbox.Auth.SsoSession.{load_sso_session_by_key}
use multi_domain_sandbox.Auth.SsoSession.Frame.{load_sso_session_by_key-Untouched}
use multi_domain_sandbox.Auth.RefreshTokens.{
  ConsumeResult, consumed, unknown, reused, consume_refresh_token, consume_found,
  revoke_refresh_token_family, rotate_refresh_token, store_refresh_token,
}
use multi_domain_sandbox.Auth.IssueTokens.{issue_tokens}
use multi_domain_sandbox.Auth.Token.{
  TokenResponse, TokenError, CodeExchangeInput, refresh_token_was_reused, client_mismatch,
  exchange_authorization_code, reject_family, grant_refresh, refresh_validated, refresh_consumed,
  refresh_with, refresh_access_token, revoke_found, revoke_refresh_token, validate_refresh_context,
}
use multi_domain_sandbox.Auth.Token.Codes.{
  SpentIn, Spent, get_and_delete-SpentIn, SpentIn-get_and_delete, SpentIn-later, redeem-Spent,
}
use multi_domain_sandbox.Auth.Token.Sound.{exchange_authorization_code-MayExchange}
use multi_domain_sandbox.Auth.Token.Steps.{
  Step, Steps, exchange, refresh, revoke, wait, here, then_step,
}

-- The clock and the codes are as they were.
record SameCodes (s s' : AuthState) : Type 0 where
  now : s'.now ≡ s.now
  codes : s'.authorization_codes ≡ s.authorization_codes

Spent-SameCodes : {s s' : AuthState} (key : String) → SameCodes s s' → Spent key s → Spent key s'
Spent-SameCodes key same h = rw (same.now, same.codes) h

SameCodes-trans : {s s' s'' : AuthState} → SameCodes s s' → SameCodes s' s'' → SameCodes s s''
SameCodes-trans a b = record { now = b.now ∙ a.now; codes = b.codes ∙ a.codes }

SameCodes-load : (key : String) (s : AuthState) → SameCodes s (load_sso_session_by_key key s).1
SameCodes-load key s =
    let u = load_sso_session_by_key-Untouched key s in
    record { now = u.now; codes = u.authorization_codes }

SameCodes-revoke :
    (family_id : String) (s : AuthState) → SameCodes s (revoke_refresh_token_family family_id s).1
unfolding revoke_refresh_token_family
SameCodes-revoke family_id s = record { now = refl; codes = refl }

SameCodes-consume_found :
    (key : String) (found : Option RefreshToken) (s : AuthState)
    → SameCodes s (consume_found key found s).1
unfolding consume_found
SameCodes-consume_found key none s = record { now = refl; codes = refl }
SameCodes-consume_found key (some stored) s = elim (Bool-cases (is_active stored.status)) [
  | inl a ↦ rw a (record { now = refl; codes = refl })
  | inr n ↦ rw n (record { now = refl; codes = refl })
]

module _ (env : Env) (client : OidcClient) where
  SameCodes-validated :
      (stored : RefreshToken) (checked : Result (User × Tenant) TokenError) (s : AuthState)
      → SameCodes s (refresh_validated env client stored checked s).1
  unfolding refresh_validated grant_refresh issue_tokens rotate_refresh_token store_refresh_token
  SameCodes-validated stored (err e) s =
      let same = SameCodes-revoke stored.family_id s in
      record { now = same.now; codes = same.codes }
  SameCodes-validated stored (ok (user, tenant)) s = record { now = refl; codes = refl }

  SameCodes-rejected :
      (kind : AuditEventKind) (stored : RefreshToken) (error : TokenError) (s : AuthState)
      → SameCodes s (reject_family env kind client stored error s).1
  unfolding reject_family record_audit
  SameCodes-rejected kind stored error s =
      let same = SameCodes-revoke stored.family_id s in
      record { now = same.now; codes = same.codes }

  SameCodes-refresh_with :
      (result : ConsumeResult) (s : AuthState) → SameCodes s (refresh_with env client result s).1
  unfolding refresh_with refresh_consumed validate_refresh_context
  SameCodes-refresh_with unknown s = record { now = refl; codes = refl }
  SameCodes-refresh_with (reused stored) s = SameCodes-rejected _ stored refresh_token_was_reused s
  SameCodes-refresh_with (consumed stored) s =
      let loaded = SameCodes-load stored.sso_session_id s in
      let validated = validate_refresh_context env client stored s in
      let checked : SameCodes s validated.1 = record { now = loaded.now; codes = loaded.codes } in
      elim (Bool-cases (stored.client_id == client.client_id)) [
        | inl same ↦
            rw same (SameCodes-trans checked (SameCodes-validated stored validated.0 validated.1))
        | inr other ↦ rw other (SameCodes-rejected _ stored client_mismatch s)
      ]

  SameCodes-refresh :
      (value : String) (s : AuthState) → SameCodes s (refresh_access_token env client value s).1
  unfolding refresh_access_token consume_refresh_token
  SameCodes-refresh value s =
      let taken = KvStore.get_and_delete s.now (key_of env value) s.refresh_tokens in
      let s1 : AuthState = record s { stores = record s.stores { refresh_tokens = taken.1 } } in
      let used_up = SameCodes-consume_found (key_of env value) taken.0 s1 in
      let answered =
        SameCodes-refresh_with (consume_refresh_token env value s).0
          (consume_refresh_token env value s).1 in
      record { now = answered.now ∙ used_up.now; codes = answered.codes ∙ used_up.codes }

  SameCodes-revoke_found :
      (found : Option RefreshToken) (s : AuthState)
      → SameCodes s (revoke_found env client found s).1
  unfolding revoke_found
  SameCodes-revoke_found none s = record { now = refl; codes = refl }
  SameCodes-revoke_found (some stored) s =
      elim (Bool-cases (stored.client_id == client.client_id)) [
        | inl same ↦ rw same (SameCodes-revoke stored.family_id s)
        | inr other ↦ rw other (record { now = refl; codes = refl })
      ]

  SameCodes-revoke_refresh_token :
      (value : String) (s : AuthState) → SameCodes s (revoke_refresh_token env client value s).1
  unfolding revoke_refresh_token
  SameCodes-revoke_refresh_token value s =
      let read = KvStore.get s.now (key_of env value) s.refresh_tokens in
      let same =
        SameCodes-revoke_found read.0
          (record s { stores = record s.stores { refresh_tokens = read.1 } }) in
      record { now = same.now; codes = same.codes }

module _ (env : Env) where
  exchanged-Spent :
      (client : OidcClient) (input : CodeExchangeInput) (s : AuthState)
      → Spent (key_of env input.code) (exchange_authorization_code env client input s).1
  unfolding exchange_authorization_code
  exchanged-Spent client input s =
      let key = key_of env input.code in
      let taken = KvStore.get_and_delete s.now key s.authorization_codes in
      redeem-Spent env client key key input taken.0
        (record s { stores = record s.stores { authorization_codes = taken.1 } })
        (get_and_delete-SpentIn key s.now s.authorization_codes)

  Step-Spent : {s s' : AuthState} (key : String) → Step env s s' → Spent key s → Spent key s'
  unfolding exchange_authorization_code
  Step-Spent key (exchange client input s) h =
      let j = key_of env input.code in
      let taken = KvStore.get_and_delete s.now j s.authorization_codes in
      redeem-Spent env client key j input taken.0
        (record s { stores = record s.stores { authorization_codes = taken.1 } })
        (SpentIn-get_and_delete key j s.now s.authorization_codes h)
  Step-Spent key (refresh client value s) h =
      Spent-SameCodes key (SameCodes-refresh env client value s) h
  Step-Spent key (revoke client value s) h =
      Spent-SameCodes key (SameCodes-revoke_refresh_token env client value s) h
  Step-Spent key (wait seconds s) h =
      SpentIn-later key s.now (s.now + seconds) s.authorization_codes (omega arith) h

  Steps-Spent : {s s' : AuthState} (key : String) → Steps env s s' → Spent key s → Spent key s'
  Steps-Spent key (here s) h = h
  Steps-Spent key (then_step before step) h = Step-Spent key step (Steps-Spent key before h)

  unspent :
      (key : String) (s : AuthState) (o : Option (Entry AuthorizationCode)) (code : UnusedCode)
      → Spent key s
      → view s.authorization_codes s.now key ≡ o
      → value_of o ≢ some (unused code)
  unfolding SpentIn
  unspent key s none code h p q = cc
  unspent key s (some e) code h p q = h s.now e code (omega arith) p cc

  -- After a request to exchange a code, however it was answered, no request to exchange the same
  -- code gets tokens: not from another client, not at any later time, and not after any
  -- requests to the token endpoint in between.
  pub exchange_once :
      (client : OidcClient) (input : CodeExchangeInput) (s s' : AuthState)
      → Steps env (exchange_authorization_code env client input s).1 s'
      → (client' : OidcClient) (input' : CodeExchangeInput) (response : TokenResponse)
      → input'.code ≡ input.code
      → (exchange_authorization_code env client' input' s').0 ≢ ok response
  exchange_once client input s s' steps client' input' response same p =
      let may = exchange_authorization_code-MayExchange env client' input' s' response p in
      let key = key_of env input.code in
      unspent key s' (view s'.authorization_codes s'.now key) may.code
        (Steps-Spent key steps (exchanged-Spent client input s)) refl (rw same at may.stored)
