-- ===== src/Auth/Token/Refresh.antt =====
-- token.ts of apps/auth-api: what a refused refresh leaves of the token's family.
use multi_domain_sandbox.Prelude.{
  String, ◌≡◌, refl, ◌∙◌, Option, none, some, Result, ok, err, arith, Bool-cases, inl, inr, ◌==◌,
}
use multi_domain_sandbox.Shared.KvStore.{value_of}
use multi_domain_sandbox.Shared.KvStore.View.{view, get_and_delete_lem}
use multi_domain_sandbox.Auth.Domain.{User, Tenant, OidcClient, AuditEventKind}
use multi_domain_sandbox.Auth.Stores.{RefreshToken}
use multi_domain_sandbox.Auth.State.{Env, AuthState, key_of, record_audit}
use multi_domain_sandbox.Auth.SsoSession.Frame.{Untouched, load_sso_session_by_key-Untouched}
use multi_domain_sandbox.Auth.RefreshTokens.{
  ConsumeResult, consumed, unknown, reused, consume_refresh_token, consume_found,
}
use multi_domain_sandbox.Auth.RefreshTokens.Family.{AllTracked}
use multi_domain_sandbox.Auth.RefreshTokens.Tracked.{
  IsDead, revoke_refresh_token_family-IsDead, consume_refresh_token-AllTracked,
}
use multi_domain_sandbox.Auth.Token.{
  TokenError, client_mismatch, refresh_token_was_reused, validate_refresh_context, reject_family,
  grant_refresh, refresh_validated, refresh_consumed, refresh_with, refresh_access_token,
}

pub AllTracked-Untouched : {s s' : AuthState} → Untouched s s' → AllTracked s → AllTracked s'
AllTracked-Untouched u tr = rw (u.now, u.refresh_tokens, u.refresh_token_families) tr

-- The token that a use found.
abbrev pub found_token : ConsumeResult → Option RefreshToken
found_token unknown = none
found_token (reused stored) = some stored
found_token (consumed stored) = some stored

consume_found_lem :
    (key : String) (found : Option RefreshToken) (s : AuthState)
    → found_token (consume_found key found s).0 ≡ found
unfolding consume_found
consume_found_lem key none s = refl
consume_found_lem key (some stored) s = ground arith

consume_refresh_token_lem :
    (env : Env) (value : String) (s : AuthState)
    → found_token (consume_refresh_token env value s).0
      ≡ value_of (view s.refresh_tokens s.now (key_of env value))
unfolding consume_refresh_token
consume_refresh_token_lem env value s =
    consume_found_lem (key_of env value) _ _
    ∙ get_and_delete_lem s.now (key_of env value) s.refresh_tokens

pub validate_refresh_context-AllTracked :
    (env : Env) (client : OidcClient) (stored : RefreshToken) (s : AuthState)
    → AllTracked s
    → AllTracked (validate_refresh_context env client stored s).1
unfolding validate_refresh_context
validate_refresh_context-AllTracked env client stored s tr =
    AllTracked-Untouched (load_sso_session_by_key-Untouched stored.sso_session_id s) tr

-- The family of the token is dead, where there is one.
abbrev DeadOf : Option RefreshToken → AuthState → Type 0
DeadOf none s = Unit {0}
DeadOf (some stored) s = IsDead stored.family_id s

module _ (env : Env) (client : OidcClient) where
  reject_family-IsDead :
      (kind : AuditEventKind) (stored : RefreshToken) (error : TokenError) (s : AuthState)
      → AllTracked s
      → IsDead stored.family_id (reject_family env kind client stored error s).1
  unfolding reject_family record_audit
  reject_family-IsDead kind stored error s tr =
      revoke_refresh_token_family-IsDead s tr stored.family_id

  refresh_validated-IsDead :
      (stored : RefreshToken) (checked : Result (User × Tenant) TokenError) (s : AuthState)
      (error : TokenError)
      → AllTracked s
      → (refresh_validated env client stored checked s).0 ≡ err error
      → IsDead stored.family_id (refresh_validated env client stored checked s).1
  unfolding refresh_validated grant_refresh
  refresh_validated-IsDead stored (err e) s error tr p =
      revoke_refresh_token_family-IsDead s tr stored.family_id
  refresh_validated-IsDead stored (ok (user, tenant)) s error tr p = cc

  refresh_consumed-IsDead :
      (stored : RefreshToken) (s : AuthState) (error : TokenError)
      → AllTracked s
      → (refresh_consumed env client stored s).0 ≡ err error
      → IsDead stored.family_id (refresh_consumed env client stored s).1
  unfolding refresh_consumed
  refresh_consumed-IsDead stored s error tr p =
      elim (Bool-cases (stored.client_id == client.client_id)) [
        | inl same ↦ rw same (
            refresh_validated-IsDead stored _ _ error
              (validate_refresh_context-AllTracked env client stored s tr) (rw same at p))
        | inr other ↦ rw other (reject_family-IsDead _ stored client_mismatch s tr)
      ]

  refresh_with-IsDead :
      (result : ConsumeResult) (s : AuthState) (error : TokenError)
      → AllTracked s
      → (refresh_with env client result s).0 ≡ err error
      → DeadOf (found_token result) (refresh_with env client result s).1
  unfolding refresh_with
  refresh_with-IsDead unknown s error tr p = tt
  refresh_with-IsDead (reused stored) s error tr p =
      reject_family-IsDead _ stored refresh_token_was_reused s tr
  refresh_with-IsDead (consumed stored) s error tr p = refresh_consumed-IsDead stored s error tr p

  -- In a tracked state, a refresh of a token that the store holds (active or not), if it is refused
  -- for any reason, leaves no token of the family active, then or at any later time.
  pub refused-IsDead :
      (value : String) (s : AuthState) (stored : RefreshToken) (error : TokenError)
      → AllTracked s
      → value_of (view s.refresh_tokens s.now (key_of env value)) ≡ some stored
      → (refresh_access_token env client value s).0 ≡ err error
      → IsDead stored.family_id (refresh_access_token env client value s).1
  unfolding refresh_access_token
  refused-IsDead value s stored error tr here p =
      let result = consume_refresh_token env value s in
      let found : found_token result.0 ≡ some stored =
        consume_refresh_token_lem env value s ∙ here in
      rw found at (
        refresh_with-IsDead result.0 result.1 error
          (consume_refresh_token-AllTracked s tr env value) p)
