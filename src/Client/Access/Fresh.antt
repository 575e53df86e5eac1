-- ===== src/Client/Access/Fresh.antt =====
-- `ensureFreshAccessToken` of packages/oidc-client/src/api-client.ts: the token that it answers with.
use multi_domain_sandbox.Prelude.{
  ℕ, ◌<◌, ◌≡◌, Bool, true, false, Option, none, some, ok, arith, String, eq_iff,
}
use multi_domain_sandbox.Shared.KvStore
use multi_domain_sandbox.Shared.KvStore.View
use multi_domain_sandbox.Client.Types.{
  OidcClientConfig, TenantSession, TokenResponse, refresh_lock_ttl_seconds,
}
use multi_domain_sandbox.Client.State.{ClientState}
use multi_domain_sandbox.Client.Session.{load_session, or_else}
use multi_domain_sandbox.Client.Access.{
  World, needs_refresh, refreshed_session, refresh, with_lock, lock_answered, lock_key_of,
  ensure_fresh_access_token,
}
use multi_domain_sandbox.Client.Access.Waiting.{wake, after}

-- The renewed session as it is saved.
abbrev pub renewal : TenantSession → ℕ → TokenResponse → TenantSession
renewal asked now tokens = record (refreshed_session asked now tokens) { last_seen_at = now }

released :
    (key : String) (t : ℕ) (locks : KvStore.MemoryKeyValueStore String)
    → View.view (KvStore.delete key locks) t key ≡ none
released key t locks = ground (arith, View.view-delete t key key locks, eq_iff key key)

module _ {Init Body : Type 0} (world : World Init Body) (client : OidcClientConfig) where
  -- The attempt to take the session's lock, which a call makes whose session needs a refresh.
  abbrev pub locking : TenantSession → ClientState → Bool × ClientState
  locking session s =
      let (locked, locks) =
        KvStore.set_if_absent s.now (lock_key_of client session) "1" refresh_lock_ttl_seconds
          s.refresh_locks in
      (locked, record s { refresh_locks = locks })

  -- The session as it is stored when the lock has been taken.
  abbrev pub under_lock : TenantSession → ClientState → Option TenantSession × ClientState
  under_lock session s = load_session client (some session.id) (locking session s).1

  -- The session `r` and the state `t` that a call from `s` ends with: `session` itself, in time; what one of
  -- the 30 wakes found, in time; what was stored when the lock had been taken, in time; or the renewal of
  -- that, or of `session` where none was stored, with the tokens that its refresh token brought then.
  pub data Usable (session : TenantSession) (s : ClientState) (r : TenantSession) (t : ClientState)
      : Type 0 where
    kept : r ≡ session → needs_refresh r t.now ≡ false → Usable session s r t
    awaited :
        (n : ℕ)
        → (locking session s).0 ≡ false
        → n < 30
        → wake world client session (after world client session n (locking session s).1)
          ≡ (some r, t)
        → needs_refresh r t.now ≡ false
        → Usable session s r t
    found :
        (locking session s).0 ≡ true
        → (under_lock session s).0 ≡ some r
        → needs_refresh r t.now ≡ false
        → Usable session s r t
    renewed :
        (tokens : TokenResponse) (answered : ClientState)
        → (locking session s).0 ≡ true
        → world.refresh client
            (or_else (under_lock session s).0 session).refresh_token
            (under_lock session s).1
          ≡ (ok tokens, answered)
        → r ≡ renewal (or_else (under_lock session s).0 session) answered.now tokens
        → Usable session s r t

  -- A call that needs the session's refresh lock and finds it free has let it go when it ends,
  -- whatever happens meanwhile, and whether it answers with a session or with an error: the store that
  -- it leaves has no lock of the session at any time.
  pub ensure_fresh_access_token-unlocks :
      (session : TenantSession) (s : ClientState) (t : ℕ)
      → needs_refresh session s.now ≡ true
      → View.view s.refresh_locks s.now (lock_key_of client session) ≡ none
      → View.view
          (ensure_fresh_access_token world client session s).1.refresh_locks
          t
          (lock_key_of client session)
        ≡ none
  unfolding ensure_fresh_access_token lock_answered
  ensure_fresh_access_token-unlocks session s t h free =
      let key = lock_key_of client session in
      let got : (KvStore.set_if_absent s.now key "1" refresh_lock_ttl_seconds s.refresh_locks).0
          ≡ true =
        ground (
          arith,
          View.set_if_absent_lem s.now key s.refresh_locks "1" refresh_lock_ttl_seconds,
          free,
        ) in
      rw (h, got)
        (released key t
          (with_lock world client session (record s {
            refresh_locks =
                (KvStore.set_if_absent s.now key "1" refresh_lock_ttl_seconds s.refresh_locks).1;
          })).1.refresh_locks)
