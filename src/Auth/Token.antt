-- ===== src/Auth/Token.antt =====
-- apps/auth-api/src/application/usecases/token.ts: the grants of the token endpoint.
pub mod Codes
pub mod Refresh
pub mod Sound
pub mod SoundRefresh
pub mod Complete
pub mod Steps
pub mod Once
pub mod Dead
pub mod Replay
use multi_domain_sandbox.Prelude.{
  ℕ, String, Bool, true, false, not, Option, none, some, Result, ok, err, ◌==◌, if◌then◌else◌,
}
use multi_domain_sandbox.Shared.KvStore
use multi_domain_sandbox.Shared.CodeVerifier.{is_valid_code_verifier}
use multi_domain_sandbox.Auth.Domain.{
  User, Tenant, OidcClient, AccessDeniedReason, AuditDetail, AuditEventKind, refresh_token_reused,
  refresh_token_client_mismatch, authorization_code_reused, consumed_code_retention_seconds,
}
use multi_domain_sandbox.Auth.Identity
use multi_domain_sandbox.Auth.Identity.{MemoryIdentityRepository}
use multi_domain_sandbox.Auth.Stores.{
  SsoSession, AuthorizationCode, UnusedCode, unused, used, RefreshToken, NewRefreshToken,
}
use multi_domain_sandbox.Auth.SsoSession.{load_sso_session_by_key}
use multi_domain_sandbox.Auth.Access.{check_tenant_access}
use multi_domain_sandbox.Auth.IssueTokens.{IssuedTokens, issue_tokens}
use multi_domain_sandbox.Auth.RefreshTokens.{
  ConsumeResult, consumed, unknown, reused, IssuedRefreshToken, consume_refresh_token,
  create_refresh_token_family, describe_refresh_token_family, revoke_refresh_token_family,
  rotate_refresh_token,
}
use multi_domain_sandbox.Auth.State.{
  Env, Eff, AuthState, pure, ◌>>=◌, ◌>>◌, gets, on_authorization_codes, on_refresh_tokens, done,
  key_of, record_audit,
}

pub record TokenResponse : Type 0 where
  pub access_token : String
  pub expires_in : ℕ
  pub id_token : String
  pub refresh_token : String
  pub scope : String

-- `invalid_grant`, by its reason
pub data TokenError : Type 0 where
  code_unknown_or_expired code_reused client_mismatch redirect_uri_mismatch : TokenError
  code_verifier_invalid pkce_mismatch sso_session_expired user_missing tenant_missing : TokenError
  refresh_token_unknown_or_expired refresh_token_was_reused : TokenError
  access_denied : AccessDeniedReason → TokenError

pub record CodeExchangeInput : Type 0 where
  pub code : String
  pub redirect_uri : String
  pub code_verifier : String

pub to_response : IssuedTokens → String → String → TokenResponse
to_response tokens refresh_token scope = record {
  access_token = tokens.access_token;
  expires_in = tokens.expires_in;
  id_token = tokens.id_token;
  refresh_token = refresh_token;
  scope = scope;
}

abbrev user_of : Option RefreshToken → Option String
user_of none = none
user_of (some t) = some t.user_id

abbrev sid_of : Option RefreshToken → Option String
sid_of none = none
sid_of (some t) = some t.sid

abbrev tenant_of : Option RefreshToken → Option String
tenant_of none = none
tenant_of (some t) = some t.tenant_id

abbrev with_tenant : Tenant → Result User AccessDeniedReason → Result (User × Tenant) TokenError
with_tenant tenant (ok user) = ok (user, tenant)
with_tenant tenant (err reason) = err (access_denied reason)

-- What a code's refresh tokens are granted for.
abbrev grant_of : OidcClient → UnusedCode → NewRefreshToken
grant_of client stored = record {
  client_id = client.client_id;
  user_id = stored.user_id;
  tenant_id = stored.tenant_id;
  sid = stored.sid;
  sso_session_id = stored.sso_session_id;
  scope = stored.scope;
  auth_time = stored.auth_time;
}

unfoldable pub remember_consumed_code : String → String → Eff (Unit {0})
remember_consumed_code code_key family_id =
    on_authorization_codes
      (done (λ now. KvStore.set now code_key (used family_id) consumed_code_retention_seconds))

module _ (env : Env) where
  -- The digest of the verifier's bytes; the verifier is known to be ASCII when it is asked for.
  unfoldable pub compute_code_challenge : String → String
  compute_code_challenge code_verifier = env.sha256 code_verifier

  unfoldable pub validate_code_binding :
      UnusedCode → OidcClient → CodeExchangeInput → Result (Unit {0}) TokenError
  unfolding compute_code_challenge
  validate_code_binding stored client input =
      if not (stored.client_id == client.client_id)
      then err client_mismatch
      else if not (stored.redirect_uri == input.redirect_uri)
      then err redirect_uri_mismatch
      else if not (is_valid_code_verifier input.code_verifier)
      then err code_verifier_invalid
      else if not (compute_code_challenge input.code_verifier == stored.code_challenge)
      then err pkce_mismatch
      else ok tt

  -- A code that was used before: its family is revoked and the record kept.
  reject_used_code : OidcClient → String → String → Eff (Result TokenResponse TokenError)
  unfolding remember_consumed_code
  reject_used_code client code_key family_id = do
    family ← describe_refresh_token_family family_id
    revoke_refresh_token_family family_id
    remember_consumed_code code_key family_id
    record_audit env (record {
      kind = authorization_code_reused;
      user_id = user_of family;
      session_id = sid_of family;
      tenant_id = tenant_of family;
      client_id = some client.client_id;
      ip = none;
      user_agent = none;
      detail = AuditDetail.family family_id;
    })
    pure (err code_reused)

  -- The tokens for a code whose binding has been checked.
  grant_code :
      OidcClient → String → UnusedCode → User → Tenant → Eff (Result TokenResponse TokenError)
  unfolding remember_consumed_code
  grant_code client code_key stored user tenant = do
    refresh ← create_refresh_token_family env (grant_of client stored)
    tokens ← issue_tokens env (record {
      client = client;
      user = user;
      scope = stored.scope;
      nonce = some stored.nonce;
      sid = stored.sid;
      tenant = tenant;
      auth_time = stored.auth_time;
    })
    remember_consumed_code code_key refresh.token.family_id
    pure (ok (to_response tokens refresh.value stored.scope))

  -- The session, the user and the tenant of a code whose binding has been checked.
  grant_found :
      OidcClient
      → String
      → UnusedCode
      → Option SsoSession
      → Option User
      → Option Tenant
      → Eff (Result TokenResponse TokenError)
  unfolding grant_code
  grant_found client code_key stored none user tenant = pure (err sso_session_expired)
  grant_found client code_key stored (some session) none tenant = pure (err user_missing)
  grant_found client code_key stored (some session) (some user) none = pure (err tenant_missing)
  grant_found client code_key stored (some session) (some user) (some tenant) =
      grant_code client code_key stored user tenant

  redeem_bound :
      OidcClient
      → String
      → UnusedCode
      → Result (Unit {0}) TokenError
      → Eff (Result TokenResponse TokenError)
  unfolding grant_found
  redeem_bound client code_key stored (err error) = pure (err error)
  redeem_bound client code_key stored (ok _) = do
    session ← load_sso_session_by_key stored.sso_session_id
    identity ← gets (λ s. s.identity)
    grant_found client code_key stored session (Identity.find_user_by_id identity stored.user_id)
        (Identity.find_tenant_by_id identity stored.tenant_id)

  -- What was taken out of the store.
  pub redeem :
      OidcClient
      → CodeExchangeInput
      → String
      → Option AuthorizationCode
      → Eff (Result TokenResponse TokenError)
  unfolding reject_used_code redeem_bound validate_code_binding
  redeem client input code_key none = pure (err code_unknown_or_expired)
  redeem client input code_key (some (used family_id)) = reject_used_code client code_key family_id
  redeem client input code_key (some (unused stored)) =
      redeem_bound client code_key stored (validate_code_binding stored client input)

  unfoldable pub exchange_authorization_code :
      OidcClient → CodeExchangeInput → Eff (Result TokenResponse TokenError)
  unfolding redeem
  exchange_authorization_code client input = do
    let code_key = key_of env input.code
    found ← on_authorization_codes (λ now. KvStore.get_and_delete now code_key)
    redeem client input code_key found

  -- The tenant and the access of the user, anew.
  check_context :
      MemoryIdentityRepository
      → OidcClient
      → RefreshToken
      → Option SsoSession
      → Option Tenant
      → Result (User × Tenant) TokenError
  check_context identity client stored none tenant = err sso_session_expired
  check_context identity client stored (some session) none = err tenant_missing
  check_context identity client stored (some session) (some tenant) =
      with_tenant tenant (check_tenant_access identity client tenant stored.user_id)

  unfoldable pub validate_refresh_context :
      OidcClient → RefreshToken → Eff (Result (User × Tenant) TokenError)
  unfolding check_context
  validate_refresh_context client stored = do
    session ← load_sso_session_by_key stored.sso_session_id
    identity ← gets (λ s. s.identity)
    pure (
        check_context identity client stored session
          (Identity.find_tenant_by_id identity stored.tenant_id))

  -- The family is revoked, with an event, and the request refused.
  reject_family :
      AuditEventKind
      → OidcClient
      → RefreshToken
      → TokenError
      → Eff (Result TokenResponse TokenError)
  reject_family kind client stored error = do
    revoke_refresh_token_family stored.family_id
    record_audit env (record {
      kind = kind;
      user_id = some stored.user_id;
      session_id = some stored.sid;
      tenant_id = some stored.tenant_id;
      client_id = some client.client_id;
      ip = none;
      user_agent = none;
      detail = AuditDetail.family_of_client stored.family_id stored.client_id;
    })
    pure (err error)

  -- The next token of the family, with new access and ID tokens.
  grant_refresh : OidcClient → RefreshToken → User → Tenant → Eff (Result TokenResponse TokenError)
  grant_refresh client stored user tenant = do
    next ← rotate_refresh_token env stored
    tokens ← issue_tokens env (record {
      client = client;
      user = user;
      scope = stored.scope;
      nonce = none;
      sid = stored.sid;
      tenant = tenant;
      auth_time = stored.auth_time;
    })
    pure (ok (to_response tokens next.value stored.scope))

  -- Whatever refuses the request revokes the family.
  refresh_validated :
      OidcClient
      → RefreshToken
      → Result (User × Tenant) TokenError
      → Eff (Result TokenResponse TokenError)
  unfolding grant_refresh
  refresh_validated client stored (err error) = do
    revoke_refresh_token_family stored.family_id
    pure (err error)
  refresh_validated client stored (ok (user, tenant)) = grant_refresh client stored user tenant

  refresh_consumed : OidcClient → RefreshToken → Eff (Result TokenResponse TokenError)
  unfolding refresh_validated reject_family
  refresh_consumed client stored =
      if not (stored.client_id == client.client_id)
      then reject_family refresh_token_client_mismatch client stored client_mismatch
      else do
        validated ← validate_refresh_context client stored
        refresh_validated client stored validated

  pub refresh_with : OidcClient → ConsumeResult → Eff (Result TokenResponse TokenError)
  unfolding refresh_consumed reject_family
  refresh_with client unknown = pure (err refresh_token_unknown_or_expired)
  refresh_with client (reused stored) =
      reject_family refresh_token_reused client stored refresh_token_was_reused
  refresh_with client (consumed stored) = refresh_consumed client stored

  unfoldable pub refresh_access_token : OidcClient → String → Eff (Result TokenResponse TokenError)
  unfolding refresh_with
  refresh_access_token client refresh_token_value = do
    result ← consume_refresh_token env refresh_token_value
    refresh_with client result

  -- RFC 7009; a token that is not there, or is another client's, changes nothing.
  pub revoke_found : OidcClient → Option RefreshToken → Eff (Unit {0})
  revoke_found client none = pure tt
  revoke_found client (some stored) =
      if stored.client_id == client.client_id
      then revoke_refresh_token_family stored.family_id
      else pure tt

  unfoldable pub revoke_refresh_token : OidcClient → String → Eff (Unit {0})
  unfolding revoke_found
  revoke_refresh_token client token_value = do
    found ← on_refresh_tokens (λ now. KvStore.get now (key_of env token_value))
    revoke_found client found
