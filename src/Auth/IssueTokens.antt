-- ===== src/Auth/IssueTokens.antt =====
-- apps/auth-api/src/application/usecases/issue-tokens.ts.
use multi_domain_sandbox.Prelude.{
  ℕ, ◌+◌, String, Option, none, some, List, [], ◌∷◌, ◌++◌, if◌then◌else◌,
}
use multi_domain_sandbox.Shared.Text.{split}
use multi_domain_sandbox.Shared.SetStore.{contains}
use multi_domain_sandbox.Auth.Domain.{
  User, Tenant, OidcClient, id_token_ttl_seconds, access_token_ttl_seconds,
}
use multi_domain_sandbox.Auth.State.{
  Claim, text, number, true_claim, SignOptions, Env, Eff, pure, ◌>>=◌, gets, random_token,
}

pub record IssueTokensInput : Type 0 where
  pub client : OidcClient
  pub user : User
  pub scope : String
  pub nonce : Option String
  pub sid : String
  pub tenant : Tenant
  pub auth_time : ℕ

pub record IssuedTokens : Type 0 where
  pub id_token : String
  pub access_token : String
  pub expires_in : ℕ

abbrev optional_text : String → Option String → List (String × Claim)
optional_text name none = []
optional_text name (some s) = (name, text s) ∷ []

unfoldable pub profile_claims : User → List String → List (String × Claim)
profile_claims user scopes =
    (if contains "email" scopes
      then ("email", text user.email) ∷ ("email_verified", true_claim) ∷ []
      else [])
    ++ (if contains "profile" scopes then optional_text "name" user.name else [])

tenant_claims : Tenant → List (String × Claim)
tenant_claims tenant = ("tenant_id", text tenant.id) ∷ ("tenant_slug", text tenant.slug) ∷ []

module _ (env : Env) where
  unfoldable pub id_token_options : ℕ → IssueTokensInput → SignOptions
  unfolding profile_claims tenant_claims
  id_token_options now input = record {
    issuer = env.issuer;
    audience = input.client.client_id ∷ [];
    subject = input.user.id;
    issued_at = now;
    expires_at = now + id_token_ttl_seconds;
    claims =
        ("auth_time", number input.auth_time)
        ∷ ("sid", text input.sid)
        ∷ (optional_text "nonce" input.nonce
            ++ (tenant_claims input.tenant ++ profile_claims input.user (split b' ' input.scope)));
  }

  unfoldable pub access_token_options : ℕ → String → IssueTokensInput → SignOptions
  unfolding tenant_claims
  access_token_options now jti input = record {
    issuer = env.issuer;
    audience = input.client.audience ∷ env.issuer ∷ [];
    subject = input.user.id;
    issued_at = now;
    expires_at = now + access_token_ttl_seconds;
    claims =
        ("client_id", text input.client.client_id)
        ∷ ("sid", text input.sid)
        ∷ ("scope", text input.scope)
        ∷ ("jti", text jti)
        ∷ tenant_claims input.tenant;
  }

  unfoldable pub issue_tokens : IssueTokensInput → Eff IssuedTokens
  issue_tokens input = do
    now ← gets (λ s. s.now)
    jti ← random_token env 16
    pure (record {
      id_token = env.sign_jwt (id_token_options now input);
      access_token = env.sign_jwt (access_token_options now jti input);
      expires_in = access_token_ttl_seconds;
    })
