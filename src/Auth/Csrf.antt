-- ===== src/Auth/Csrf.antt =====
-- apps/auth-api/src/application/usecases/csrf.ts: the token of the login form.
pub mod Forms
use multi_domain_sandbox.Prelude.{ℕ, String, Option, none, some, Bool, true, false, ◌==◌}
use multi_domain_sandbox.Shared.KvStore
use multi_domain_sandbox.Auth.Domain.{csrf_token_ttl_seconds}
use multi_domain_sandbox.Auth.State.{
  Env, Eff, AuthState, pure, ◌>>=◌, ◌>>◌, on_csrf_tokens, done, key_of, random_token, token_bytes,
}

pub record IssuedCsrf : Type 0 where
  pub cookie_value : String
  pub form_token : String

abbrev same_token : Option String → String → Bool
same_token none form_token = false
same_token (some stored) form_token = stored == form_token

module _ (env : Env) where
  unfoldable pub issue_csrf_token : Eff IssuedCsrf
  issue_csrf_token = do
    cookie_value ← random_token env token_bytes
    form_token ← random_token env token_bytes
    on_csrf_tokens
        (done (λ now. KvStore.set now (key_of env cookie_value) form_token csrf_token_ttl_seconds))
    pure (record { cookie_value = cookie_value; form_token = form_token })

  -- `timingSafeEqualString` is the equality of strings.
  unfoldable pub verify_csrf_token : Option String → Option String → Eff Bool
  verify_csrf_token none form_token = pure false
  verify_csrf_token (some cookie_value) none = pure false
  verify_csrf_token (some cookie_value) (some form_token) = do
    stored ← on_csrf_tokens (λ now. KvStore.get now (key_of env cookie_value))
    pure (same_token stored form_token)
