-- ===== src/Client/Session/Own.antt =====
-- The keys of the stored sessions over any history of the operations on them, the touches of sessions that
-- have been deleted meanwhile included.
use multi_domain_sandbox.Prelude.{
  ℕ, ◌≤◌, String, ◌≡◌, inl, inr, refl, sym, ◌∙◌, ap, Option, none, some, arith, ◌==◌, eq_iff,
  Bool-cases,
}
use multi_domain_sandbox.Shared.KvStore
use multi_domain_sandbox.Shared.KvStore.{Entry}
use multi_domain_sandbox.Shared.KvStore.View
use multi_domain_sandbox.Shared.SessionExpiry.{is_expired, remaining_ttl, should_touch}
use multi_domain_sandbox.Client.Types.{OidcClientConfig, TenantSession, session_absolute_seconds}
use multi_domain_sandbox.Client.State.{ClientState, RandomBytes}
use multi_domain_sandbox.Client.Session.{
  NewSessionInput, create_session, load_session, load_found, save_session, touch_session, or_else,
  destroy_session, destroy_sessions_by_sid, session_key, key_of, expiry, times,
}
use multi_domain_sandbox.Client.Session.Index.{stored}
use multi_domain_sandbox.Client.Session.Logout.{survivor_before, clock_after}
use multi_domain_sandbox.Client.Session.Steps.{later}

-- Every session that is stored stands under its own key.
pub record Own (s : ClientState) : Type 0 where
  pub own :
      (t : ℕ) (k : String) (e : Entry TenantSession)
      → s.now ≤ t
      → stored s t k ≡ some e
      → k ≡ key_of e.value

-- One operation, on whatever session the caller has, or some seconds.
pub data Call (random : RandomBytes) (s : ClientState) : ClientState → Type 0 where
  waits : (n : ℕ) → Call random s (later n s)
  creates : (input : NewSessionInput) → Call random s (create_session random input s).1
  loads :
      (client : OidcClientConfig) (session_id : Option String)
      → Call random s (load_session client session_id s).1
  saves : (session : TenantSession) → Call random s (save_session session s).1
  touches : (session : TenantSession) → Call random s (touch_session session s).1
  destroys : (session : TenantSession) → Call random s (destroy_session session s).1
  logs_out : (sid : String) → Call random s (destroy_sessions_by_sid sid s).1

pub data Calls (random : RandomBytes) (s : ClientState) : ClientState → Type 0 where
  here : Calls random s s
  then : {t u : ClientState} → Calls random s t → Call random t u → Calls random s u

later-Own : (n : ℕ) (s : ClientState) → Own s → Own (later n s)
unfolding later
later-Own n s i = record { own = λ t k e h p. i.own t k e (omega arith) p }

-- A session that is written under its key.
written-Own :
    (v : TenantSession) (ttl : ℕ) (s s' : ClientState)
    → s'.now ≡ s.now
    → s'.sessions ≡ KvStore.set s.now (key_of v) v ttl s.sessions
    → Own s
    → Own s'
written-Own v ttl s s' clock written i = record {
  own = λ t k e h p.
      let h' : s.now ≤ t = rw (← clock) h in
      let q = rw written at p in
      elim (Bool-cases (key_of v == k)) [
        | inl same ↦ elim (View.set_cases s.now t (key_of v) k v ttl s.sessions e h' q) [
          | inl is ↦ sym (ground (arith, eq_iff (key_of v) k, same)) ∙ sym (ap key_of is)
          | inr before ↦ i.own t k e h' before
        ]
        | inr other ↦
            i.own t k e h'
              (ground (arith, View.view-set s.now t (key_of v) k s.sessions h' v ttl, q, other))
      ];
}

-- An operation after which every session that is seen was there before.
fewer-Own :
    (s s' : ClientState)
    → s'.now ≡ s.now
    → ((t : ℕ) (k : String) (e : Entry TenantSession)
        → s.now ≤ t
        → stored s' t k ≡ some e
        → stored s t k ≡ some e)
    → Own s
    → Own s'
fewer-Own s s' clock before i = record {
  own = λ t k e h p. let h' : s.now ≤ t = rw (← clock) h in i.own t k e h' (before t k e h' p);
}

read-Own :
    (key : String) (s : ClientState)
    → Own s
    → Own (record s { sessions = (KvStore.get s.now key s.sessions).1 })
read-Own key s i =
    fewer-Own s (record s { sessions = (KvStore.get s.now key s.sessions).1 }) refl
      (λ t k e h p. sym (View.view-get s.now t key k s.sessions h) ∙ p) i

destroy_session-Own :
    (session : TenantSession) (s : ClientState) → Own s → Own (destroy_session session s).1
unfolding destroy_session
destroy_session-Own session s i =
    fewer-Own s (destroy_session session s).1 refl
      (λ t k e h p. ground (arith, View.view-delete t (key_of session) k s.sessions, p)) i

found-Own : (found : Option TenantSession) (s : ClientState) → Own s → Own (load_found found s).1
unfolding load_found
found-Own none s i = i
found-Own (some session) s i = elim (Bool-cases (is_expired expiry (times session) s.now)) [
  | inl e ↦ rw e (destroy_session-Own session s i)
  | inr e ↦ rw e i
]

load_session-Own :
    (client : OidcClientConfig) (session_id : Option String) (s : ClientState)
    → Own s
    → Own (load_session client session_id s).1
unfolding load_session
load_session-Own client none s i = i
load_session-Own client (some id) s i = elim (Bool-cases (id == "")) [
  | inl e ↦ rw e i
  | inr e ↦
      let key = session_key client.tenant_slug id in
      rw e (
        found-Own (KvStore.get s.now key s.sessions).0
          (record s { sessions = (KvStore.get s.now key s.sessions).1 }) (read-Own key s i))
]

create_session-Own :
    (random : RandomBytes) (input : NewSessionInput) (s : ClientState)
    → Own s
    → Own (create_session random input s).1
unfolding create_session
create_session-Own random input s =
    written-Own (create_session random input s).0 session_absolute_seconds s
      (create_session random input s).1 refl refl

save_session-Own :
    (session : TenantSession) (s : ClientState) → Own s → Own (save_session session s).1
unfolding save_session
save_session-Own session s =
    written-Own (save_session session s).0
      (remaining_ttl expiry (times (save_session session s).0) s.now) s (save_session session s).1
      refl refl

touch_session-Own :
    (session : TenantSession) (s : ClientState) → Own s → Own (touch_session session s).1
unfolding touch_session
touch_session-Own session s i = elim (Bool-cases (should_touch (times session) s.now)) [
  | inl due ↦
      let (latest, read) = KvStore.get s.now (key_of session) s.sessions in
      rw due (
        save_session-Own (or_else latest session) (record s { sessions = read })
          (read-Own (key_of session) s i))
  | inr seen ↦ rw seen i
]

destroy_sessions_by_sid-Own :
    (sid : String) (s : ClientState) → Own s → Own (destroy_sessions_by_sid sid s).1
destroy_sessions_by_sid-Own sid s i =
    fewer-Own s (destroy_sessions_by_sid sid s).1 (clock_after sid s)
      (λ t k e h p. survivor_before sid s t k e p) i

call-Own : {random : RandomBytes} {s t : ClientState} → Call random s t → Own s → Own t
call-Own {random} {s} (waits n) i = later-Own n s i
call-Own {random} {s} (creates input) i = create_session-Own random input s i
call-Own {random} {s} (loads client id) i = load_session-Own client id s i
call-Own {random} {s} (saves session) i = save_session-Own session s i
call-Own {random} {s} (touches session) i = touch_session-Own session s i
call-Own {random} {s} (destroys session) i = destroy_session-Own session s i
call-Own {random} {s} (logs_out sid) i = destroy_sessions_by_sid-Own sid s i

pub Calls-Own : {random : RandomBytes} {s t : ClientState} → Calls random s t → Own s → Own t
Calls-Own here i = i
Calls-Own (then calls call) i = call-Own call (Calls-Own calls i)
