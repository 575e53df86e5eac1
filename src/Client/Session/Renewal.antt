-- ===== src/Client/Session/Renewal.antt =====
-- Creating, saving and touching a session keep the index of `Client.Session.Index`.
use multi_domain_sandbox.Prelude.{
  ℕ, ◌+◌, ◌≤◌, ◌<◌, String, ◌≡◌, refl, sym, ap, true, some, arith, ◌==◌, eq_iff, if◌then◌else◌,
  Bool-cases, inl, inr,
}
use multi_domain_sandbox.Shared.KvStore
use multi_domain_sandbox.Shared.KvStore.{Entry}
use multi_domain_sandbox.Shared.KvStore.View
use multi_domain_sandbox.Shared.SetStore.{contains}
use multi_domain_sandbox.Shared.SetStore.Members.{contains-add, contains-add_self}
use multi_domain_sandbox.Shared.SessionExpiry.{remaining_ttl}
use multi_domain_sandbox.Client.Types.{TenantSession, session_absolute_seconds}
use multi_domain_sandbox.Client.State.{ClientState, RandomBytes}
use multi_domain_sandbox.Client.Session.{
  NewSessionInput, create_session, save_session, key_of, sid_key, times, expiry,
}
use multi_domain_sandbox.Client.Session.Index.{stored, listed, Owes, Indexed}

unexpired_limit :
    (s : ClientState) (t : ℕ) (k : String) (e : Entry TenantSession)
    → stored s t k ≡ some e
    → t < e.expires_at
unfolding View.view
unexpired_limit s t k e p = ground arith

unexpired-some :
    (t : ℕ) (x e : Entry TenantSession)
    → View.unexpired t (some x) ≡ some e
    → (x ≡ e) × (t < x.expires_at)
unexpired-some t x e p = (ground arith, ground arith)

-- A session that is written under its key, with the index that the state has after the write.
module _ (v : TenantSession) (ttl : ℕ) (s s' : ClientState)
    (to_limit : s.now + ttl ≡ v.created_at + session_absolute_seconds)
    (begun : v.created_at ≤ s.now) (clock : s'.now ≡ s.now)
    (written : s'.sessions ≡ KvStore.set s.now (key_of v) v ttl s.sessions)
    (is_listed : (t : ℕ)
      → s.now ≤ t
      → t < s.now + ttl
      → contains (key_of v) (listed s' t v.sid) ≡ true)
    (kept : (t : ℕ) (k sid : String)
      → s.now ≤ t
      → t < s.now + session_absolute_seconds
      → contains k (listed s t sid) ≡ true
      → contains k (listed s' t sid) ≡ true)
    (i : Indexed s) where
  written_view :
      (t : ℕ) (k : String)
      → s.now ≤ t
      → stored s' t k ≡ (
          if key_of v == k
          then View.unexpired t (some (View.entry v (s.now + ttl)))
          else stored s t k)
  written_view t k h = rw written (View.view-set s.now t (key_of v) k s.sessions h v ttl)

  written-Owes :
      (t : ℕ) (k : String) (e : Entry TenantSession)
      → s.now ≤ t
      → (View.entry v (s.now + ttl) ≡ e) × (t < s.now + ttl)
      → (key_of v ≡ k)
      → Owes s' t k e
  written-Owes t k e h (q, live) same =
      let value : v ≡ e.value = ap (λ x. x.value) q in
      let until : s.now + ttl ≡ e.expires_at = ap (λ x. x.expires_at) q in
      record {
        own_key = rw (← value) (sym same);
        limit = rw (← value, ← until) to_limit;
        created = rw (← value, clock) begun;
        in_index = rw (← value, ← same) (is_listed t h live);
      }

  other-Owes :
      (t : ℕ) (k : String) (e : Entry TenantSession)
      → s.now ≤ t
      → stored s t k ≡ some e
      → Owes s' t k e
  other-Owes t k e h p =
      let o = i.owes t k e h p in
      record {
        own_key = o.own_key;
        limit = o.limit;
        created = rw clock o.created;
        in_index =
            kept t k e.value.sid h
              (let live = unexpired_limit s t k e p in omega (arith, live, o.limit, o.created))
              o.in_index;
      }

  pub written-Indexed : Indexed s'
  written-Indexed = record {
    owes = λ t k e h p.
        let h' : s.now ≤ t = rw (← clock) h in
        elim (Bool-cases (key_of v == k)) [
          | inl same ↦
              written-Owes t k e h'
                (unexpired-some t (View.entry v (s.now + ttl)) e
                  (ground (arith, written_view t k h')))
                (ground (arith, eq_iff (key_of v) k))
          | inr other ↦ other-Owes t k e h' (ground (arith, written_view t k h'))
        ];
  }

pub create_session-Indexed :
    (random : RandomBytes) (input : NewSessionInput) (s : ClientState)
    → Indexed s
    → Indexed (create_session random input s).1
unfolding create_session
create_session-Indexed random input s i =
    let v = (create_session random input s).0 in
    written-Indexed v session_absolute_seconds s (create_session random input s).1 refl
      (omega arith) refl refl
      (λ t h l.
        contains-add_self s.now t (sid_key v.sid) (key_of v) session_absolute_seconds
          s.sessions_by_sid h l)
      (λ t k sid h l p.
        contains-add s.now t (sid_key v.sid) (sid_key sid) (key_of v) k s.sessions_by_sid h
          session_absolute_seconds l p)
      i

-- The session is stored, with the `sid` and the start that it is known by.
pub record Stored (s : ClientState) (session : TenantSession) : Type 0 where
  pub entry : Entry TenantSession
  pub found : stored s s.now (key_of session) ≡ some entry
  pub same_sid : entry.value.sid ≡ session.sid
  pub same_start : entry.value.created_at ≡ session.created_at

entry_later :
    (s : ClientState) (t : ℕ) (k : String) (e : Entry TenantSession)
    → s.now ≤ t
    → t < e.expires_at
    → stored s s.now k ≡ some e
    → stored s t k ≡ some e
entry_later s t k e h l p = ground (arith, View.view-later s.sessions s.now t k h)

-- Saving a session that is still stored keeps the index complete.
pub save_session-Indexed :
    (session : TenantSession) (s : ClientState)
    → Stored s session
    → Indexed s
    → Indexed (save_session session s).1
unfolding save_session remaining_ttl
save_session-Indexed session s st i =
    let o = i.owes s.now (key_of session) st.entry (omega arith) st.found in
    let live = unexpired_limit s s.now (key_of session) st.entry st.found in
    let start = st.same_start in
    let ends = o.limit in
    let begun : session.created_at ≤ s.now = rw (← st.same_start) o.created in
    let updated : TenantSession = record session { last_seen_at = s.now } in
    let ttl = remaining_ttl expiry (times updated) s.now in
    let to_limit : s.now + ttl ≡ session.created_at + session_absolute_seconds =
      omega (arith, start, ends, live, begun) in
    written-Indexed updated ttl s (save_session session s).1 to_limit begun refl refl
      (λ t h l.
        rw (← st.same_sid)
          (i.owes t (key_of session) st.entry h (
            entry_later s t (key_of session) st.entry h (omega (arith, start, ends, l, to_limit))
              st.found)).in_index)
      (λ t k sid h l p. p) i
