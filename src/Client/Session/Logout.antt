-- ===== src/Client/Session/Logout.antt =====
-- Back-channel logout on the sessions of a web server, and what a touch does to a session that it ended.
use multi_domain_sandbox.Prelude.{
  ℕ, ◌≤◌, String, ◌≡◌, ◌≢◌, refl, sym, ◌∙◌, ap, true, false, none, some, List, [], ◌∷◌, arith, ◌==◌,
  eq_iff, if◌then◌else◌,
}
use multi_domain_sandbox.Shared.KvStore
use multi_domain_sandbox.Shared.KvStore.{Entry}
use multi_domain_sandbox.Shared.KvStore.View
use multi_domain_sandbox.Shared.SetStore
use multi_domain_sandbox.Shared.SetStore.{contains, members_of}
use multi_domain_sandbox.Shared.SetStore.View as SetView
use multi_domain_sandbox.Client.Types.{TenantSession}
use multi_domain_sandbox.Client.State.{ClientState}
use multi_domain_sandbox.Client.Session.{destroy_sessions_by_sid, delete_all, sid_key}
use multi_domain_sandbox.Client.Session.Index.{stored, listed, Indexed}

delete_all-stored :
    (keys : List String) (s : ClientState) (t : ℕ) (k : String)
    → stored (delete_all keys s).1 t k ≡ (if contains k keys then none else stored s t k)
unfolding delete_all contains
delete_all-stored [] s t k = refl
delete_all-stored (key ∷ keys) s t k = ground (
  arith,
  delete_all-stored keys (record s { sessions = KvStore.delete key s.sessions }) t k,
  View.view-delete t key k s.sessions,
)

delete_all-now : (keys : List String) (s : ClientState) → (delete_all keys s).1.now ≡ s.now
unfolding delete_all
delete_all-now [] s = refl
delete_all-now (key ∷ keys) s =
    delete_all-now keys (record s { sessions = KvStore.delete key s.sessions })

delete_all-index :
    (keys : List String) (s : ClientState)
    → (delete_all keys s).1.sessions_by_sid ≡ s.sessions_by_sid
unfolding delete_all
delete_all-index [] s = refl
delete_all-index (key ∷ keys) s =
    delete_all-index keys (record s { sessions = KvStore.delete key s.sessions })

module _ (sid : String) (s : ClientState) where
  keys_of : List String
  keys_of = (SetStore.members s.now (sid_key sid) s.sessions_by_sid).0

  read_index : ClientState
  read_index = record s {
    sessions_by_sid = (SetStore.members s.now (sid_key sid) s.sessions_by_sid).1;
  }

  -- What is stored after the logout was stored before it and was not in the index.
  survivor :
      (t : ℕ) (k : String) (e : Entry TenantSession)
      → stored (destroy_sessions_by_sid sid s).1 t k ≡ some e
      → (contains k keys_of ≡ false) × (stored s t k ≡ some e)
  unfolding destroy_sessions_by_sid keys_of read_index
  survivor t k e p =
      let gone = delete_all-stored keys_of read_index t k in
      (ground (arith, gone), ground (arith, gone))

  pub survivor_before :
      (t : ℕ) (k : String) (e : Entry TenantSession)
      → stored (destroy_sessions_by_sid sid s).1 t k ≡ some e
      → stored s t k ≡ some e
  survivor_before t k e p = (survivor t k e p).1

  index_after :
      (t : ℕ) (key : String)
      → s.now ≤ t
      → SetView.view (destroy_sessions_by_sid sid s).1.sessions_by_sid t key
        ≡ (if sid_key sid == key then none else SetView.view s.sessions_by_sid t key)
  unfolding destroy_sessions_by_sid keys_of read_index
  index_after t key h = rw (delete_all-index keys_of read_index) (
      SetView.view-delete t (sid_key sid) key read_index.sessions_by_sid
      ∙ ap (λ x. if sid_key sid == key then none else x)
          (SetView.view-members s.now t (sid_key sid) key s.sessions_by_sid h))

  pub clock_after : (destroy_sessions_by_sid sid s).1.now ≡ s.now
  unfolding destroy_sessions_by_sid keys_of read_index
  clock_after = delete_all-now keys_of read_index

  keys_listed : (other : String) → sid_key sid ≡ sid_key other → keys_of ≡ listed s s.now other
  unfolding keys_of
  keys_listed other q = rw (← q) (SetView.members_lem s.now (sid_key sid) s.sessions_by_sid)

  -- A survivor's `sid` has another key in the index.
  survivor_sid :
      Indexed s
      → (t : ℕ) (k : String) (e : Entry TenantSession) → s.now ≤ t
      → contains k keys_of ≡ false
      → stored s t k ≡ some e
      → sid_key sid ≢ sid_key e.value.sid
  survivor_sid i t k e h c p q =
      let now : stored s s.now k ≡ some e = View.view_mono s.sessions s.now t k e h p in
      let o = i.owes s.now k e (omega arith) now in
      let all : contains k keys_of ≡ true = rw (keys_listed e.value.sid q) o.in_index in
      ground arith

  pub destroy_sessions_by_sid-Indexed : Indexed s → Indexed (destroy_sessions_by_sid sid s).1
  destroy_sessions_by_sid-Indexed i = record {
    owes = λ t k e h p.
        let h' : s.now ≤ t = rw (← clock_after) h in
        let (c, before) = survivor t k e p in
        let o = i.owes t k e h' before in
        record {
          own_key = o.own_key;
          limit = o.limit;
          created = rw clock_after o.created;
          in_index = ground (
            arith,
            index_after t (sid_key e.value.sid) h',
            o.in_index,
            survivor_sid i t k e h' c before,
            eq_iff (sid_key sid) (sid_key e.value.sid),
          );
        };
  }

  -- Where the index is complete, back-channel logout leaves no session of the `sid`, whatever its
  -- tenant: none is stored at any later time.
  pub destroy_sessions_by_sid_ends :
      Indexed s
      → (t : ℕ) (k : String) (e : Entry TenantSession) → s.now ≤ t
      → stored (destroy_sessions_by_sid sid s).1 t k ≡ some e
      → e.value.sid ≢ sid
  destroy_sessions_by_sid_ends i t k e h p q =
      let (c, before) = survivor t k e p in survivor_sid i t k e h c before (ap sid_key (sym q))
