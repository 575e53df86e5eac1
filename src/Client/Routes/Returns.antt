-- ===== src/Client/Routes/Returns.antt =====
-- Where a browser is sent after a login, and what a back-channel logout leaves.
use multi_domain_sandbox.Prelude.{
  ℕ, suc, ◌≤◌, String, ◌≡◌, refl, arith, Option, none, some, Result, ok, err, inl, inr,
}
use multi_domain_sandbox.Shared.KvStore.{Entry, value_of}
use multi_domain_sandbox.Shared.KvStore.View
use multi_domain_sandbox.Shared.ReturnTo.{
  IsLocalPath, sanitize_return_to, sanitize_return_to-IsLocalPath,
}
use multi_domain_sandbox.Client.Types.{OidcClientConfig, PreAuthState, pre_auth_ttl_seconds}
use multi_domain_sandbox.Client.State.{ClientState, RandomBytes, token_bytes}
use multi_domain_sandbox.Client.Access.{ProviderError}
use multi_domain_sandbox.Client.Routes.{
  Provider, CallbackQuery, redirect, written, pre_auth_key, login, login_at,
}
use multi_domain_sandbox.Client.Routes.Callback.{callback}
use multi_domain_sandbox.Client.Routes.Callback.Established.{callback-Established}

-- Every login under way returns to a path on the web server's own origin.
pub record LocalReturns (s : ClientState) : Type 0 where
  pub local :
      (t : ℕ) (k : String) (e : Entry PreAuthState)
      → s.now ≤ t
      → View.view s.pre_auth t k ≡ some e
      → IsLocalPath e.value.return_to

module _ (random : RandomBytes) (compute_code_challenge : String → String)
    (provider : Provider) where
  login_at-LocalReturns :
      (client : OidcClientConfig) (return_to : Option String) (d : Result String ProviderError)
      (s : ClientState)
      → LocalReturns s
      → LocalReturns (login_at random compute_code_challenge provider client return_to d s).1
  unfolding login_at
  login_at-LocalReturns client return_to (err e) s l = l
  login_at-LocalReturns client return_to (ok endpoint) s l = record {
    local = λ t k e h p.
        let id = random token_bytes s.draws in
        let pre_auth : PreAuthState = record {
          state = random token_bytes (suc (suc s.draws));
          nonce = random token_bytes (suc (suc (suc s.draws)));
          code_verifier = random token_bytes (suc s.draws);
          return_to = sanitize_return_to return_to;
        } in
        elim (View.set_cases s.now t (pre_auth_key client id) k pre_auth pre_auth_ttl_seconds
          s.pre_auth e h p) [
            | inl set ↦ rw set (sanitize_return_to-IsLocalPath return_to)
            | inr before ↦ l.local t k e h before
          ];
  }

  -- A login that begins keeps to the invariant, whatever `return_to` the browser asked for, where reading
  -- the provider's configuration does.
  pub login-LocalReturns :
      (client : OidcClientConfig) (return_to : Option String) (s : ClientState)
      → LocalReturns (provider.get_discovery s).1
      → LocalReturns (login random compute_code_challenge provider client return_to s).1
  unfolding login
  login-LocalReturns client return_to s l =
      login_at-LocalReturns client return_to (provider.get_discovery s).0
        (provider.get_discovery s).1 l

found_local :
    (s : ClientState) (key : String) (o : Option (Entry PreAuthState)) (p : PreAuthState)
    → LocalReturns s
    → View.view s.pre_auth s.now key ≡ o
    → value_of o ≡ some p
    → IsLocalPath p.return_to
found_local s key none p l e h = ground arith
found_local s key (some x) p l e h =
    let same : x.value ≡ p = ground arith in rw (← same) (l.local s.now key x (omega arith) e)

-- Where every login that is stored has a return target on the web server's own origin, a callback that
-- starts a session sends the browser to a path on that origin.
pub callback_returns :
    (random : RandomBytes) (provider : Provider) (client : OidcClientConfig) (query : CallbackQuery)
    (pre_auth_cookie session_cookie : Option String) (x : String) (s : ClientState)
    → LocalReturns s
    → let response = (callback random provider client query pre_auth_cookie session_cookie s).0 in
      response.session_cookie ≡ written x
      → (path : String) × ((response.reply ≡ redirect path) × IsLocalPath path)
callback_returns random provider client query pre_auth_cookie session_cookie x s l h =
    let e =
      callback-Established random provider client query session_cookie x pre_auth_cookie s h in
    (
      e.pre_auth.return_to,
      (
        e.sent_to,
        found_local s (pre_auth_key client e.id)
            (View.view s.pre_auth s.now (pre_auth_key client e.id)) e.pre_auth l refl e.begun,
      ),
    )
