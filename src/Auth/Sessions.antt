-- ===== src/Auth/Sessions.antt =====
-- apps/auth-api/src/infrastructure/memory-session-repository.ts: the session repository of
-- application/ports/session-repository.ts.
use multi_domain_sandbox.Prelude.{
  ℕ, ◌+◌, String, Bool, true, false, ◌&&◌, Option, none, some, List, [], ◌∷◌, ◌==◌, ltb,
  if◌then◌else◌, map,
}
use multi_domain_sandbox.Auth.Domain.{
  RequestEnvironment, SessionRevokeReason, AuthSessionRecord, NewAuthSession, SessionClientEntry,
  sso_session_idle_seconds, sso_session_absolute_seconds,
}
use multi_domain_sandbox.Auth.Identity.{find, filter}

pub record AuthSessionWithClients : Type 0 where
  pub session : AuthSessionRecord
  pub open session use *
  pub clients : List SessionClientEntry

-- The sessions in the order of insertion, one for an id.
pub record MemorySessionRepository : Type 0 where
  pub sessions : List AuthSessionRecord
  pub clients : List SessionClientEntry

-- `sessions.set(session.id, session)`
unfoldable pub set_session : AuthSessionRecord → List AuthSessionRecord → List AuthSessionRecord
set_session s [] = s ∷ []
set_session s (t ∷ ts) = let rest = set_session s ts in if t.id == s.id then s ∷ ts else t ∷ rest

abbrev is_none : Option ℕ → Bool
is_none none = true
is_none (some _) = false

-- Newest last access first; `sort` is stable.
insert_by_last_seen : AuthSessionRecord → List AuthSessionRecord → List AuthSessionRecord
insert_by_last_seen s [] = s ∷ []
insert_by_last_seen s (t ∷ ts) =
    let rest = insert_by_last_seen s ts in
    if ltb s.last_seen_at t.last_seen_at then t ∷ rest else s ∷ t ∷ ts

unfoldable pub sort_by_last_seen : List AuthSessionRecord → List AuthSessionRecord
unfolding insert_by_last_seen
sort_by_last_seen [] = []
sort_by_last_seen (s ∷ ss) = insert_by_last_seen s (sort_by_last_seen ss)

module _ (r : MemorySessionRepository) where
  unfoldable pub find_session : String → Option AuthSessionRecord
  find_session id = find (λ s. s.id == id) r.sessions

  unfoldable pub create : NewAuthSession → MemorySessionRepository
  create session = record r {
    sessions =
        set_session
          (record {
            id = session.id;
            user_id = session.user_id;
            ip = session.ip;
            user_agent = session.user_agent;
            created_at = session.created_at;
            last_seen_at = session.last_seen_at;
            revoked_at = none;
            revoke_reason = none;
          })
          r.sessions;
  }

  unfoldable pub touch :
      String → RequestEnvironment → ℕ → Option RequestEnvironment × MemorySessionRepository
  touch session_id environment at = elim (find_session session_id) [
    | none ↦ (none, r)
    | some existing ↦
        let updated = record existing {
          ip = environment.ip;
          user_agent = environment.user_agent;
          last_seen_at = at;
        } in
        (
          some (record { ip = existing.ip; user_agent = existing.user_agent }),
          record r { sessions = set_session updated r.sessions },
        )
  ]

  unfoldable pub mark_revoked : String → SessionRevokeReason → ℕ → MemorySessionRepository
  mark_revoked session_id reason at = elim (find_session session_id) [
    | none ↦ r
    | some existing ↦
        if is_none existing.revoked_at
        then record r {
          sessions =
              set_session (record existing { revoked_at = some at; revoke_reason = some reason })
                r.sessions;
        }
        else r
  ]

  with_clients : AuthSessionRecord → AuthSessionWithClients
  with_clients s = record { session = s; clients = filter (λ c. c.session_id == s.id) r.clients }

  unfoldable pub is_alive : String → ℕ → AuthSessionRecord → Bool
  is_alive user_id now s =
      s.user_id == user_id
      && is_none s.revoked_at
      && ltb now (s.last_seen_at + sso_session_idle_seconds)
      && ltb now (s.created_at + sso_session_absolute_seconds)

  unfoldable pub list_active_by_user : String → ℕ → List AuthSessionWithClients
  unfolding with_clients
  list_active_by_user user_id now =
      map with_clients (sort_by_last_seen (filter (is_alive user_id now) r.sessions))

  unfoldable pub find_with_clients : String → Option AuthSessionWithClients
  unfolding with_clients
  find_with_clients session_id = elim (find_session session_id) [
    | none ↦ none
    | some s ↦ some (with_clients s)
  ]

record_entry : String → String → String → ℕ → List SessionClientEntry → List SessionClientEntry
record_entry session_id oidc_client_id tenant_id at [] =
    record {
      session_id = session_id;
      oidc_client_id = oidc_client_id;
      tenant_id = tenant_id;
      first_seen_at = at;
      last_seen_at = at;
    }
    ∷ []
record_entry session_id oidc_client_id tenant_id at (c ∷ cs) =
    let rest = record_entry session_id oidc_client_id tenant_id at cs in
    if c.session_id == session_id && c.oidc_client_id == oidc_client_id && c.tenant_id == tenant_id
    then record c { last_seen_at = at } ∷ cs
    else c ∷ rest

unfoldable pub record_client :
    MemorySessionRepository → String → String → String → ℕ → MemorySessionRepository
unfolding record_entry
record_client r session_id oidc_client_id tenant_id at = record r {
  clients = record_entry session_id oidc_client_id tenant_id at r.clients;
}
