-- ===== src/Client/Session/Steps.antt =====
-- The sessions of a web server over any history of its operations.
use multi_domain_sandbox.Prelude.{ℕ, ◌+◌, String, Option, arith}
use multi_domain_sandbox.Client.Types.{OidcClientConfig, TenantSession}
use multi_domain_sandbox.Client.State.{ClientState, RandomBytes}
use multi_domain_sandbox.Client.Session.{
  NewSessionInput, create_session, load_session, save_session, destroy_session,
  destroy_sessions_by_sid,
}
use multi_domain_sandbox.Client.Session.Index.{
  Indexed, load_session-Indexed, destroy_session-Indexed,
}
use multi_domain_sandbox.Client.Session.Renewal.{
  Stored, create_session-Indexed, save_session-Indexed,
}
use multi_domain_sandbox.Client.Session.Logout.{destroy_sessions_by_sid-Indexed}

unfoldable pub later : ℕ → ClientState → ClientState
later n s = record s { now = s.now + n }

-- One operation, or some seconds; a session is saved while it is still stored.
pub data Step (random : RandomBytes) (s : ClientState) : ClientState → Type 0 where
  waits : (n : ℕ) → Step random s (later n s)
  creates : (input : NewSessionInput) → Step random s (create_session random input s).1
  loads :
      (client : OidcClientConfig) (session_id : Option String)
      → Step random s (load_session client session_id s).1
  saves : (session : TenantSession) → Stored s session → Step random s (save_session session s).1
  destroys : (session : TenantSession) → Step random s (destroy_session session s).1
  logs_out : (sid : String) → Step random s (destroy_sessions_by_sid sid s).1

pub data Steps (random : RandomBytes) (s : ClientState) : ClientState → Type 0 where
  here : Steps random s s
  then : {t u : ClientState} → Steps random s t → Step random t u → Steps random s u

later-Indexed : (n : ℕ) (s : ClientState) → Indexed s → Indexed (later n s)
unfolding later
later-Indexed n s i = record {
  owes = λ t k e h p.
      let o = i.owes t k e (omega arith) p in
      let c = o.created in
      record {
        own_key = o.own_key;
        limit = o.limit;
        created = omega (arith, c);
        in_index = o.in_index;
      };
}

step-Indexed : {random : RandomBytes} {s t : ClientState} → Step random s t → Indexed s → Indexed t
step-Indexed {random} {s} (waits n) i = later-Indexed n s i
step-Indexed {random} {s} (creates input) i = create_session-Indexed random input s i
step-Indexed {random} {s} (loads client id) i = load_session-Indexed client id s i
step-Indexed {random} {s} (saves session stored) i = save_session-Indexed session s stored i
step-Indexed {random} {s} (destroys session) i = destroy_session-Indexed session s i
step-Indexed {random} {s} (logs_out sid) i = destroy_sessions_by_sid-Indexed sid s i

-- If every session stands under its own key until its absolute limit, and is listed under its `sid`
-- for as long, so it is after any history of creations, lookups, saves of stored sessions, deletions,
-- back-channel logouts and waits.
pub Steps-Indexed :
    {random : RandomBytes} {s t : ClientState} → Steps random s t → Indexed s → Indexed t
Steps-Indexed here i = i
Steps-Indexed (then steps step) i = step-Indexed step (Steps-Indexed steps i)
