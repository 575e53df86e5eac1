-- ===== src/Client/Session/Touch.antt =====
-- What loading, touching and saving a session do, whatever the session store holds.
use multi_domain_sandbox.Prelude.{
  ℕ, ◌+◌, ◌<◌, String, ◌≡◌, ◌≢◌, refl, ◌∙◌, ap, true, false, Option, none, some, arith, ◌==◌,
  eq_iff, if◌then◌else◌, Bool-cases, inl, inr,
}
use multi_domain_sandbox.Shared.KvStore
use multi_domain_sandbox.Shared.KvStore.{Entry, value_of}
use multi_domain_sandbox.Shared.KvStore.View
use multi_domain_sandbox.Shared.SessionExpiry.{remaining_ttl, should_touch, is_expired}
use multi_domain_sandbox.Client.Types.{TenantSession, OidcClientConfig, session_absolute_seconds}
use multi_domain_sandbox.Client.State.{ClientState}
use multi_domain_sandbox.Client.Session.{
  load_session, destroy_session, load_found, save_session, touch_session, key_of, session_key,
  times, expiry,
}
use multi_domain_sandbox.Client.Session.Index.{stored}

-- A session that has expired is not given.
abbrev pub unless_expired : ℕ → Option TenantSession → Option TenantSession
unless_expired now none = none
unless_expired now (some session) =
    if is_expired expiry (times session) now then none else some session

found_lem :
    (found : Option TenantSession) (s : ClientState)
    → (load_found found s).0 ≡ unless_expired s.now found
unfolding load_found
found_lem none s = refl
found_lem (some session) s = ground arith

-- What a lookup gives, from the entry that can be seen under the client's tenant and the identifier.
pub load_session_lem :
    (client : OidcClientConfig) (id : String) (s : ClientState)
    → (load_session client (some id) s).0 ≡ (
        if id == ""
        then none
        else unless_expired s.now (value_of (stored s s.now (session_key client.tenant_slug id))))
unfolding load_session
load_session_lem client id s = elim (Bool-cases (id == "")) [
  | inl e ↦ rw e refl
  | inr e ↦
      let key = session_key client.tenant_slug id in
      rw e (
        found_lem (KvStore.get s.now key s.sessions).0
          (record s { sessions = (KvStore.get s.now key s.sessions).1 })
        ∙ ap (unless_expired s.now) (View.get_lem s.now key s.sessions))
]

found_now : (found : Option TenantSession) (s : ClientState) → (load_found found s).1.now ≡ s.now
unfolding load_found destroy_session
found_now none s = refl
found_now (some session) s = ground arith

pub load_session_now :
    (client : OidcClientConfig) (id : String) (s : ClientState)
    → (load_session client (some id) s).1.now ≡ s.now
unfolding load_session
load_session_now client id s = elim (Bool-cases (id == "")) [
  | inl e ↦ rw e refl
  | inr e ↦
      let key = session_key client.tenant_slug id in
      rw e (
        found_now (KvStore.get s.now key s.sessions).0
          (record s { sessions = (KvStore.get s.now key s.sessions).1 }))
]

-- `save_session` writes whatever the store holds: the entry of the key is the saved session.
save_session-stored :
    (session : TenantSession) (s : ClientState)
    → s.now < session.created_at + session_absolute_seconds
    → stored (save_session session s).1 s.now (key_of session)
      ≡ some (View.entry (save_session session s).0 (session.created_at + session_absolute_seconds))
unfolding save_session remaining_ttl
save_session-stored session s h = ground (
  arith,
  View.view-set s.now s.now (key_of session) (key_of session) s.sessions (omega arith)
      (save_session session s).0 (remaining_ttl expiry (times session) s.now),
  eq_iff (key_of session) (key_of session),
)

abbrev after_read : String → ClientState → ClientState
after_read key s = record s { sessions = (KvStore.get s.now key s.sessions).1 }

touch_session_gone :
    (session : TenantSession) (s : ClientState)
    → should_touch (times session) s.now ≡ true
    → stored s s.now (key_of session) ≡ none
    → touch_session session s ≡ save_session session (after_read (key_of session) s)
unfolding touch_session
touch_session_gone session s due gone =
    rw (due, View.get_lem s.now (key_of session) s.sessions, gone) refl

-- A session that is due for a touch and alive, but that a logout deleted between the moment the
-- request read it and the touch, is stored again by the touch: the next request finds it.
pub load_session-touch_session :
    (client : OidcClientConfig) (session : TenantSession) (s : ClientState)
    → client.tenant_slug ≡ session.tenant_slug
    → session.id ≢ ""
    → should_touch (times session) s.now ≡ true
    → is_expired expiry (times session) s.now ≡ false
    → stored s s.now (key_of session) ≡ none
    → (load_session client (some session.id) (touch_session session s).1).0
      ≡ some (record session { last_seen_at = s.now })
unfolding is_expired remaining_ttl save_session
load_session-touch_session client session s t n due alive gone =
    let s1 = after_read (key_of session) s in
    rw
      (
        touch_session_gone session s due gone,
        load_session_lem client session.id (save_session session s1).1,
        t,
        save_session-stored session s1 (ground arith),
      )
      (ground (arith, eq_iff session.id ""))
