-- ===== src/Auth/SsoSession/Frame.antt =====
-- sso-session.ts of apps/auth-api: what reading a session touches, and what it gives.
use multi_domain_sandbox.Prelude.{
  String, ◌≡◌, refl, ◌∙◌, false, Option, none, some, arith, Bool-cases, inl, inr,
}
use multi_domain_sandbox.Shared.KvStore
use multi_domain_sandbox.Shared.KvStore.{MemoryKeyValueStore, value_of}
use multi_domain_sandbox.Shared.KvStore.View.{view, get_lem}
use multi_domain_sandbox.Shared.SessionExpiry.{is_expired}
use multi_domain_sandbox.Auth.Stores.{SsoSession}
use multi_domain_sandbox.Auth.State.{AuthState}
use multi_domain_sandbox.Auth.SsoSession.{
  expiry, times, load_found, load_sso_session_by_key, destroy_sso_session, load_at,
  find_sso_session_by_sid,
}

-- What the token endpoint keeps is as it was.
pub record Untouched (s s' : AuthState) : Type 0 where
  pub now : s'.now ≡ s.now
  pub draws : s'.draws ≡ s.draws
  pub refresh_tokens : s'.refresh_tokens ≡ s.refresh_tokens
  pub refresh_token_families : s'.refresh_token_families ≡ s.refresh_token_families
  pub sid_refresh_families : s'.sid_refresh_families ≡ s.sid_refresh_families
  pub authorization_codes : s'.authorization_codes ≡ s.authorization_codes
  pub mfa_pending : s'.mfa_pending ≡ s.mfa_pending
  pub identity : s'.identity ≡ s.identity
  pub sessions : s'.sessions ≡ s.sessions
  pub audit : s'.audit ≡ s.audit

with_sessions :
    (s : AuthState) (a : MemoryKeyValueStore SsoSession) (b : MemoryKeyValueStore String)
    → Untouched s (record s { stores = record s.stores { sso_sessions = a; sid_index = b } })
with_sessions s a b = record {
  now = refl;
  draws = refl;
  refresh_tokens = refl;
  refresh_token_families = refl;
  sid_refresh_families = refl;
  authorization_codes = refl;
  mfa_pending = refl;
  identity = refl;
  sessions = refl;
  audit = refl;
}

load_found-Untouched :
    (found : Option SsoSession) (s : AuthState) → Untouched s (load_found found s).1
unfolding load_found destroy_sso_session
load_found-Untouched none s = with_sessions s s.sso_sessions s.sid_index
load_found-Untouched (some session) s =
    elim (Bool-cases (is_expired expiry (times session) s.now)) [
      | inl gone ↦ rw gone (with_sessions s _ _)
      | inr here ↦ rw here (with_sessions s s.sso_sessions s.sid_index)
    ]

pub load_sso_session_by_key-Untouched :
    (key : String) (s : AuthState) → Untouched s (load_sso_session_by_key key s).1
unfolding load_sso_session_by_key
load_sso_session_by_key-Untouched key s =
    let read = KvStore.get s.now key s.sso_sessions in
    let u =
      load_found-Untouched read.0
        (record s { stores = record s.stores { sso_sessions = read.1 } }) in
    record {
      now = u.now;
      draws = u.draws;
      refresh_tokens = u.refresh_tokens;
      refresh_token_families = u.refresh_token_families;
      sid_refresh_families = u.sid_refresh_families;
      authorization_codes = u.authorization_codes;
      mfa_pending = u.mfa_pending;
      identity = u.identity;
      sessions = u.sessions;
      audit = u.audit;
    }

load_found_alive :
    (found : Option SsoSession) (s : AuthState) (session : SsoSession)
    → (load_found found s).0 ≡ some session
    → (found ≡ some session) × (is_expired expiry (times session) s.now ≡ false)
unfolding load_found
load_found_alive none s session e = cc
load_found_alive (some stored) s session e = ground arith

-- A session is returned exactly as it is stored, and never when it has expired.
pub load_sso_session_by_key_alive :
    (key : String) (s : AuthState) (session : SsoSession)
    → (load_sso_session_by_key key s).0 ≡ some session
    → (value_of (view s.sso_sessions s.now key) ≡ some session)
      × (is_expired expiry (times session) s.now ≡ false)
unfolding load_sso_session_by_key
load_sso_session_by_key_alive key s session e =
    let read = KvStore.get s.now key s.sso_sessions in
    let (stored, alive) =
      load_found_alive read.0 (record s { stores = record s.stores { sso_sessions = read.1 } })
        session e in
    (rw (get_lem s.now key s.sso_sessions) at stored, alive)

load_found_stays :
    (found : Option SsoSession) (s : AuthState) (session : SsoSession)
    → found ≡ some session
    → is_expired expiry (times session) s.now ≡ false
    → (load_found found s).0 ≡ some session
unfolding load_found
load_found_stays none s session p alive = cc
load_found_stays (some stored) s session p alive =
    let same : stored ≡ session = cc in
    let here : is_expired expiry (times stored) s.now ≡ false = rw same alive in rw here p

pub load_sso_session_by_key_stays :
    (key : String) (s : AuthState) (session : SsoSession)
    → value_of (view s.sso_sessions s.now key) ≡ some session
    → is_expired expiry (times session) s.now ≡ false
    → (load_sso_session_by_key key s).0 ≡ some session
unfolding load_sso_session_by_key
load_sso_session_by_key_stays key s session p alive =
    let read = KvStore.get s.now key s.sso_sessions in
    load_found_stays read.0 (record s { stores = record s.stores { sso_sessions = read.1 } })
      session (get_lem s.now key s.sso_sessions ∙ p) alive

load_at-Untouched : (found : Option String) (s : AuthState) → Untouched s (load_at found s).1
unfolding load_at
load_at-Untouched none s = with_sessions s s.sso_sessions s.sid_index
load_at-Untouched (some key) s = load_sso_session_by_key-Untouched key s

pub find_sso_session_by_sid-Untouched :
    (sid : String) (s : AuthState) → Untouched s (find_sso_session_by_sid sid s).1
unfolding find_sso_session_by_sid
find_sso_session_by_sid-Untouched sid s =
    let read = KvStore.get s.now sid s.sid_index in
    let u =
      load_at-Untouched read.0 (record s { stores = record s.stores { sid_index = read.1 } }) in
    record {
      now = u.now;
      draws = u.draws;
      refresh_tokens = u.refresh_tokens;
      refresh_token_families = u.refresh_token_families;
      sid_refresh_families = u.sid_refresh_families;
      authorization_codes = u.authorization_codes;
      mfa_pending = u.mfa_pending;
      identity = u.identity;
      sessions = u.sessions;
      audit = u.audit;
    }
