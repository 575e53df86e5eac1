-- ===== src/Client/Routes/Logout/Ended.antt =====
-- What a back-channel logout that is answered with success has done.
use multi_domain_sandbox.Prelude.{
  ℕ, ◌≤◌, String, ◌≡◌, ◌≢◌, refl, arith, Option, none, some, Result, ok, err, ◌==◌, Bool-cases, inl,
  inr,
}
use multi_domain_sandbox.Shared.KvStore.{Entry}
use multi_domain_sandbox.Client.Types.{TenantSession, ServiceConfig}
use multi_domain_sandbox.Client.State.{ClientState}
use multi_domain_sandbox.Client.Session.Index.{stored, Indexed}
use multi_domain_sandbox.Client.Session.Logout.{destroy_sessions_by_sid_ends}
use multi_domain_sandbox.Client.Access.{ProviderError}
use multi_domain_sandbox.Client.Routes.{Provider, LogoutClaims, empty_body}
use multi_domain_sandbox.Client.Routes.Logout.{logout_client, logout_verified, backchannel_logout}

module _ (provider : Provider) (resolve_client_by_id : String → Option ServiceConfig) where
  -- The provider vouched for a logout token of a known client, and no session of its `sid` is stored.
  pub record LoggedOut (logout_token : String) (s s' : ClientState) : Type 0 where
    pub claims : LogoutClaims
    pub verified : (provider.verify_logout_token logout_token s).0 ≡ ok claims
    pub client : ServiceConfig
    pub known : resolve_client_by_id claims.audience ≡ some client
    pub ended :
        (t : ℕ) (k : String) (e : Entry TenantSession)
        → (provider.verify_logout_token logout_token s).1.now ≤ t
        → stored s' t k ≡ some e
        → e.value.sid ≢ claims.sid

  client-LoggedOut :
      (logout_token : String) (s : ClientState) (claims : LogoutClaims)
      → let s1 = (provider.verify_logout_token logout_token s).1 in
        (provider.verify_logout_token logout_token s).0 ≡ ok claims
        → Indexed s1
        → (client : Option ServiceConfig) → resolve_client_by_id claims.audience ≡ client
        → (logout_client provider resolve_client_by_id claims client s1).0 ≡ empty_body 200
        → LoggedOut logout_token s (logout_client provider resolve_client_by_id claims client s1).1
  unfolding logout_client
  client-LoggedOut logout_token s claims v i none k h = ground arith
  client-LoggedOut logout_token s claims v i (some client) k h = record {
    claims = claims;
    verified = v;
    client = client;
    known = k;
    ended =
        destroy_sessions_by_sid_ends claims.sid (provider.verify_logout_token logout_token s).1 i;
  }

  verified-LoggedOut :
      (logout_token : String) (s : ClientState) (answer : Result LogoutClaims ProviderError)
      → let s1 = (provider.verify_logout_token logout_token s).1 in
        (provider.verify_logout_token logout_token s).0 ≡ answer
        → Indexed s1
        → (logout_verified provider resolve_client_by_id answer s1).0 ≡ empty_body 200
        → LoggedOut logout_token s (logout_verified provider resolve_client_by_id answer s1).1
  unfolding logout_verified
  verified-LoggedOut logout_token s (err e) v i h = ground arith
  verified-LoggedOut logout_token s (ok claims) v i h =
      client-LoggedOut logout_token s claims v i (resolve_client_by_id claims.audience) refl h

  -- A back-channel logout is answered with 200 only for a token that the provider vouches for, of a client
  -- that the server has; then no session of the token's `sid` is left, at any tenant, where the index was
  -- complete when the token had been checked.
  pub backchannel_logout-LoggedOut :
      (logout_token : String) (s : ClientState)
      → Indexed (provider.verify_logout_token logout_token s).1
      → (backchannel_logout provider resolve_client_by_id (some logout_token) s).0 ≡ empty_body 200
      → LoggedOut logout_token s
          (backchannel_logout provider resolve_client_by_id (some logout_token) s).1
  unfolding backchannel_logout
  backchannel_logout-LoggedOut logout_token s i h = elim (Bool-cases (logout_token == "")) [
    | inl e ↦ let q = rw e at h in ground arith
    | inr e ↦ rw e (
        verified-LoggedOut logout_token s (provider.verify_logout_token logout_token s).0 refl i
          (rw e at h))
  ]
