-- ===== src/Client/Session/Index.antt =====
-- The sessions of a web server and the index from an SSO session's `sid` to their keys.
use multi_domain_sandbox.Prelude.{
  ℕ, ◌+◌, ◌≤◌, String, ◌≡◌, sym, ◌∙◌, true, false, Option, none, some, List, arith, ◌==◌,
  Bool-cases, inl, inr,
}
use multi_domain_sandbox.Shared.KvStore.{Entry}
use multi_domain_sandbox.Shared.KvStore
use multi_domain_sandbox.Shared.KvStore.View
use multi_domain_sandbox.Shared.SetStore.Members.{contains-remove}
use multi_domain_sandbox.Shared.SetStore.{contains, members_of}
use multi_domain_sandbox.Shared.SetStore.View as SetView
use multi_domain_sandbox.Shared.SessionExpiry.{is_expired}
use multi_domain_sandbox.Client.Types.{OidcClientConfig, TenantSession, session_absolute_seconds}
use multi_domain_sandbox.Client.State.{ClientState}
use multi_domain_sandbox.Client.Session.{
  destroy_session, load_session, load_found, key_of, sid_key, session_key, expiry, times,
}

-- The entry of a key of the session store, and what the index lists for a `sid`, at a time.
abbrev pub stored : ClientState → ℕ → String → Option (Entry TenantSession)
stored s t k = View.view s.sessions t k

abbrev pub listed : ClientState → ℕ → String → List String
listed s t sid = members_of (SetView.view s.sessions_by_sid t (sid_key sid))

-- What a stored session owes: its own key, its absolute limit, and its place in the index.
pub record Owes (s : ClientState) (t : ℕ) (k : String) (e : Entry TenantSession) : Type 0 where
  pub own_key : k ≡ key_of e.value
  pub limit : e.expires_at ≡ e.value.created_at + session_absolute_seconds
  pub created : e.value.created_at ≤ s.now
  pub in_index : contains k (listed s t e.value.sid) ≡ true

-- Every session is stored under its own key until its absolute limit, and for as long as that the
-- index lists its key under its `sid`.
pub record Indexed (s : ClientState) : Type 0 where
  pub owes :
      (t : ℕ) (k : String) (e : Entry TenantSession)
      → s.now ≤ t
      → stored s t k ≡ some e
      → Owes s t k e

pub destroy_session-Indexed :
    (session : TenantSession) (s : ClientState) → Indexed s → Indexed (destroy_session session s).1
unfolding destroy_session
destroy_session-Indexed session s i = record {
  owes = λ t k e h p.
      let other : (key_of session == k) ≡ false =
        ground (arith, View.view-delete t (key_of session) k s.sessions) in
      let before : stored s t k ≡ some e =
        ground (arith, View.view-delete t (key_of session) k s.sessions) in
      let o = i.owes t k e h before in
      record {
        own_key = o.own_key;
        limit = o.limit;
        created = o.created;
        in_index =
            contains-remove s.now t (sid_key session.sid) (sid_key e.value.sid) (key_of session) k
              s.sessions_by_sid h other o.in_index;
      };
}

-- A read changes no entry that is still to be seen.
pub read-Indexed :
    (key : String) (s : ClientState)
    → Indexed s
    → Indexed (record s { sessions = (KvStore.get s.now key s.sessions).1 })
read-Indexed key s i = record {
  owes = λ t k e h p.
      let o = i.owes t k e h (sym (View.view-get s.now t key k s.sessions h) ∙ p) in
      record { own_key = o.own_key; limit = o.limit; created = o.created; in_index = o.in_index };
}

found-Indexed :
    (found : Option TenantSession) (s : ClientState) → Indexed s → Indexed (load_found found s).1
unfolding load_found
found-Indexed none s i = i
found-Indexed (some session) s i = elim (Bool-cases (is_expired expiry (times session) s.now)) [
  | inl e ↦ rw e (destroy_session-Indexed session s i)
  | inr e ↦ rw e i
]

pub load_session-Indexed :
    (client : OidcClientConfig) (session_id : Option String) (s : ClientState)
    → Indexed s
    → Indexed (load_session client session_id s).1
unfolding load_session
load_session-Indexed client none s i = i
load_session-Indexed client (some id) s i = elim (Bool-cases (id == "")) [
  | inl e ↦ rw e i
  | inr e ↦ rw e (
      found-Indexed (KvStore.get s.now (session_key client.tenant_slug id) s.sessions).0
        (record s {
          sessions = (KvStore.get s.now (session_key client.tenant_slug id) s.sessions).1;
        })
        (read-Indexed (session_key client.tenant_slug id) s i))
]
