-- ===== src/Client/Access/Forced.antt =====
-- The second attempt of `apiFetch` of packages/oidc-client/src/api-client.ts, after an API has refused
-- the token as expired.
use multi_domain_sandbox.Prelude.{
  ℕ, ◌≡◌, refl, ◌∙◌, sym, ap, true, false, none, some, ok, arith, String, eqb,
}
use multi_domain_sandbox.Shared.KvStore
use multi_domain_sandbox.Shared.KvStore.{value_of}
use multi_domain_sandbox.Shared.KvStore.View
use multi_domain_sandbox.Shared.OidcProtocol.{is_expired_token_challenge}
use multi_domain_sandbox.Client.Types.{OidcClientConfig, TenantSession, refresh_lock_ttl_seconds}
use multi_domain_sandbox.Client.State.{ClientState}
use multi_domain_sandbox.Client.Session.{load_session}
use multi_domain_sandbox.Client.Session.Touch.{load_session_lem, load_session_now}
use multi_domain_sandbox.Client.Access.{
  World, ApiResponse, needs_refresh, with_lock, lock_answered, lock_key_of,
  ensure_fresh_access_token, with_bearer, fetched, retried, api_fetch,
}

module _ {Init Body : Type 0} (world : World Init Body) (client : OidcClientConfig) where
  with_lock_found :
      (session latest : TenantSession) (s : ClientState)
      → (load_session client (some session.id) s).0 ≡ some latest
      → needs_refresh latest s.now ≡ false
      → (with_lock world client session s).0 ≡ ok latest
  unfolding with_lock
  with_lock_found session latest s found fresh =
      rw (found, load_session_now client session.id s, fresh) refl

  -- With the lock free and a stored session that is not near its end, nothing is asked of the
  -- authorization server: the stored session is the answer, however early the given one is to be renewed.
  pub ensure_fresh_access_token_stored :
      (session latest : TenantSession) (s : ClientState)
      → needs_refresh session s.now ≡ true
      → View.view s.refresh_locks s.now (lock_key_of client session) ≡ none
      → (load_session client (some session.id) s).0 ≡ some latest
      → needs_refresh latest s.now ≡ false
      → (ensure_fresh_access_token world client session s).0 ≡ ok latest
  unfolding ensure_fresh_access_token lock_answered
  ensure_fresh_access_token_stored session latest s old free found fresh =
      let key = lock_key_of client session in
      let (locked, locks) =
        KvStore.set_if_absent s.now key "1" refresh_lock_ttl_seconds s.refresh_locks in
      let got : locked ≡ true = ground (
        arith,
        View.set_if_absent_lem s.now key s.refresh_locks "1" refresh_lock_ttl_seconds,
        free,
      ) in
      rw (old, got)
        (with_lock_found session latest (record s { refresh_locks = locks })
          (load_session_lem client session.id (record s { refresh_locks = locks })
            ∙ sym (load_session_lem client session.id s)
            ∙ found)
          fresh)

  retried_ok :
      (url : String) (init : Init) (session : TenantSession) (s : ClientState)
      → (retried world url init (ok session) s).0
        ≡ ok (record {
          response = (world.fetch (with_bearer world url init session.access_token) s).0;
          session = session;
        })
  unfolding retried
  retried_ok url init session s = refl

  abbrev pub first_attempt :
      TenantSession → String → Init → ClientState → ApiResponse Body × ClientState
  first_attempt session url init s = world.fetch (with_bearer world url init session.access_token) s

  abbrev due_at_once : TenantSession → TenantSession
  due_at_once session = record session { access_token_expires_at = 0 }

  due : (session : TenantSession) (now : ℕ) → needs_refresh (due_at_once session) now ≡ true
  unfolding needs_refresh
  due session now = ground arith

  ensure_fresh_access_token_kept :
      (session : TenantSession) (s : ClientState)
      → needs_refresh session s.now ≡ false
      → ensure_fresh_access_token world client session s ≡ (ok session, s)
  unfolding ensure_fresh_access_token
  ensure_fresh_access_token_kept session s fresh = rw fresh refl

  fetched_again :
      (session : TenantSession) (url : String) (init : Init) (s : ClientState)
      → let (response, s1) = first_attempt session url init s in
        eqb response.status 401 ≡ true
        → is_expired_token_challenge response.www_authenticate ≡ true
        → let (result, s2) = ensure_fresh_access_token world client (due_at_once session) s1 in
          fetched world client url init (ok session) s ≡ retried world url init result s2
  unfolding fetched
  fetched_again session url init s refused challenge = rw (refused, challenge) refl

  api_fetch_again :
      (session : TenantSession) (url : String) (init : Init) (s : ClientState)
      → needs_refresh session s.now ≡ false
      → let (response, s1) = first_attempt session url init s in
        eqb response.status 401 ≡ true
        → is_expired_token_challenge response.www_authenticate ≡ true
        → let (result, s2) = ensure_fresh_access_token world client (due_at_once session) s1 in
          api_fetch world client session url init s ≡ retried world url init result s2
  unfolding api_fetch
  api_fetch_again session url init s fresh refused challenge =
      rw (ensure_fresh_access_token_kept session s fresh)
        (fetched_again session url init s refused challenge)

  -- Where an API refuses a token as expired that was not near its end by the web server's record, the
  -- lock is free and the stored session is still not near its end, the second attempt sends the stored
  -- session's token as it is, and the call answers with that session.
  pub api_fetch_repeats :
      (session latest : TenantSession) (url : String) (init : Init) (s : ClientState)
      → needs_refresh session s.now ≡ false
      → let (response, s1) = first_attempt session url init s in
        eqb response.status 401 ≡ true
        → is_expired_token_challenge response.www_authenticate ≡ true
        → View.view s1.refresh_locks s1.now (lock_key_of client session) ≡ none
        → (load_session client (some session.id) s1).0 ≡ some latest
        → needs_refresh latest s1.now ≡ false
        → (s2 : ClientState) × ((api_fetch world client session url init s).0
            ≡ ok (record {
              response = (world.fetch (with_bearer world url init latest.access_token) s2).0;
              session = latest;
            }))
  api_fetch_repeats session latest url init s fresh refused challenge free found stored =
      let s1 = (first_attempt session url init s).1 in
      let again = ensure_fresh_access_token world client (due_at_once session) s1 in
      let given =
        ensure_fresh_access_token_stored (due_at_once session) latest s1 (due session s1.now) free
          found stored in
      (
        again.1,
        ap (λ r. r.0) (api_fetch_again session url init s fresh refused challenge)
            ∙ ap (λ r. (retried world url init r again.1).0) given
            ∙ retried_ok url init latest again.1,
      )
