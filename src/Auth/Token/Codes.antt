-- ===== src/Auth/Token/Codes.antt =====
-- token.ts of apps/auth-api: what an exchange leaves of the authorization code.
use multi_domain_sandbox.Prelude.{
  ℕ, ◌≤◌, String, ◌≡◌, ◌≢◌, Option, none, some, Result, ok, err, arith, eq_iff,
}
use multi_domain_sandbox.Shared.KvStore
use multi_domain_sandbox.Shared.KvStore.{Entry, MemoryKeyValueStore, value_of}
use multi_domain_sandbox.Shared.KvStore.View.{view, view-get_and_delete, view-set}
use multi_domain_sandbox.Auth.Domain.{User, Tenant, OidcClient}
use multi_domain_sandbox.Auth.Stores.{SsoSession, AuthorizationCode, UnusedCode, unused, used}
use multi_domain_sandbox.Auth.State.{Env, AuthState, record_audit}
use multi_domain_sandbox.Auth.SsoSession.{load_sso_session_by_key}
use multi_domain_sandbox.Auth.SsoSession.Frame.{Untouched, load_sso_session_by_key-Untouched}
use multi_domain_sandbox.Auth.RefreshTokens.{
  create_refresh_token_family, store_refresh_token, describe_refresh_token_family,
  revoke_refresh_token_family,
}
use multi_domain_sandbox.Auth.RefreshTokens.Tracked.{later}
use multi_domain_sandbox.Auth.IssueTokens.{issue_tokens}
use multi_domain_sandbox.Auth.Token.{
  TokenError, CodeExchangeInput, remember_consumed_code, reject_used_code, grant_code, grant_found,
  redeem_bound, redeem,
}

-- Under the key there is no code that could be exchanged, now or later.
unfoldable pub SpentIn : String → ℕ → MemoryKeyValueStore AuthorizationCode → Type 0
SpentIn key now codes =
    (t : ℕ) (e : Entry AuthorizationCode) (c : UnusedCode)
    → now ≤ t
    → view codes t key ≡ some e
    → e.value ≢ unused c

abbrev pub Spent : String → AuthState → Type 0
Spent key s = SpentIn key s.now s.authorization_codes

pub set-SpentIn :
    (key j family_id : String) (now ttl : ℕ) (codes : MemoryKeyValueStore AuthorizationCode)
    → SpentIn key now codes
    → SpentIn key now (KvStore.set now j (used family_id) ttl codes)
unfolding SpentIn
set-SpentIn key j family_id now ttl codes spent t e c h p =
    ground (arith, view-set now t j key codes h (used family_id) ttl, spent t e c h)

pub SpentIn-get_and_delete :
    (key j : String) (now : ℕ) (codes : MemoryKeyValueStore AuthorizationCode)
    → SpentIn key now codes
    → SpentIn key now (KvStore.get_and_delete now j codes).1
unfolding SpentIn
SpentIn-get_and_delete key j now codes spent t e c h p =
    ground (arith, view-get_and_delete now t j key codes h, spent t e c h)

pub SpentIn-later :
    (key : String) (now later : ℕ) (codes : MemoryKeyValueStore AuthorizationCode)
    → now ≤ later
    → SpentIn key now codes
    → SpentIn key later codes
unfolding SpentIn
SpentIn-later key now later codes le spent t e c h p = spent t e c (omega arith) p

pub get_and_delete-SpentIn :
    (key : String) (now : ℕ) (codes : MemoryKeyValueStore AuthorizationCode)
    → SpentIn key now (KvStore.get_and_delete now key codes).1
unfolding SpentIn
get_and_delete-SpentIn key now codes t e c h p =
    ground (arith, view-get_and_delete now t key key codes h, eq_iff key key)

pub Spent-Untouched :
    {s s' : AuthState} (key : String) → Untouched s s' → Spent key s → Spent key s'
unfolding SpentIn
Spent-Untouched key u h t e c le p = h t e c (rw u.now at le) (rw u.authorization_codes at p)

-- An exchange under the key `j` brings in no code that could be exchanged under `key`.
module _ (env : Env) (client : OidcClient) (key j : String) where
  grant_found-Spent :
      (stored : UnusedCode) (session : Option SsoSession) (user : Option User)
      (tenant : Option Tenant) (s : AuthState)
      → Spent key s
      → Spent key (grant_found env client j stored session user tenant s).1
  unfolding grant_found grant_code remember_consumed_code issue_tokens create_refresh_token_family
      store_refresh_token
  grant_found-Spent stored none user tenant s h = h
  grant_found-Spent stored (some session) none tenant s h = h
  grant_found-Spent stored (some session) (some user) none s h = h
  grant_found-Spent stored (some session) (some user) (some tenant) s h =
      set-SpentIn key j _ _ _ _ h

  redeem_bound-Spent :
      (stored : UnusedCode) (checked : Result (Unit {0}) TokenError) (s : AuthState)
      → Spent key s
      → Spent key (redeem_bound env client j stored checked s).1
  unfolding redeem_bound
  redeem_bound-Spent stored (err error) s h = h
  redeem_bound-Spent stored (ok _) s h =
      let loaded = load_sso_session_by_key stored.sso_session_id s in
      grant_found-Spent stored loaded.0 _ _ loaded.1
        (Spent-Untouched key (load_sso_session_by_key-Untouched stored.sso_session_id s) h)

  pub redeem-Spent :
      (input : CodeExchangeInput) (found : Option AuthorizationCode) (s : AuthState)
      → Spent key s
      → Spent key (redeem env client input j found s).1
  unfolding redeem record_audit reject_used_code remember_consumed_code revoke_refresh_token_family
      describe_refresh_token_family
  redeem-Spent input none s h = h
  redeem-Spent input (some (used family_id)) s h = set-SpentIn key j family_id _ _ _ h
  redeem-Spent input (some (unused stored)) s h = redeem_bound-Spent stored _ s h
