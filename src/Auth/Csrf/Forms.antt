-- ===== src/Auth/Csrf/Forms.antt =====
-- csrf.ts of apps/auth-api: which forms are accepted.
use multi_domain_sandbox.Prelude.{ℕ, ◌+◌, ◌<◌, String, ◌≡◌, ◌↔◌, true, some, arith, eq_iff}
use multi_domain_sandbox.Shared.KvStore
use multi_domain_sandbox.Shared.KvStore.{value_of}
use multi_domain_sandbox.Shared.KvStore.View.{get_lem, view-set}
use multi_domain_sandbox.Auth.Domain.{csrf_token_ttl_seconds}
use multi_domain_sandbox.Auth.State.{Env, AuthState, key_of}
use multi_domain_sandbox.Auth.RefreshTokens.Tracked.{later}
use multi_domain_sandbox.Auth.Csrf.{issue_csrf_token, verify_csrf_token}

-- A form with the cookie of a token that was just issued is accepted exactly when it shows the
-- form token that was issued with the cookie and fewer than thirty minutes have passed.
pub verify-issue_csrf_token_iff :
    (env : Env) (s : AuthState) (seconds : ℕ) (form_token : String)
    → ((verify_csrf_token env
          (some (issue_csrf_token env s).0.cookie_value)
          (some form_token)
          (later seconds (issue_csrf_token env s).1)).0
        ≡ true)
      ↔ ((seconds < csrf_token_ttl_seconds) × (form_token ≡ (issue_csrf_token env s).0.form_token))
unfolding issue_csrf_token verify_csrf_token
verify-issue_csrf_token_iff env s seconds form_token =
    let key = key_of env (issue_csrf_token env s).0.cookie_value in
    let token = (issue_csrf_token env s).0.form_token in
    let stored = KvStore.set s.now key token csrf_token_ttl_seconds s.csrf_tokens in
    let t = s.now + seconds in
    ground (
      arith,
      get_lem t key stored,
      view-set s.now t key key s.csrf_tokens (omega arith) token csrf_token_ttl_seconds,
      eq_iff key key,
      eq_iff token form_token,
    )
