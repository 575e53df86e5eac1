-- ===== src/Auth/GlobalLogout.antt =====
-- apps/auth-api/src/application/usecases/global-logout.ts. What the program starts together runs here
-- one after the other, in the order in which it is written.
pub mod Ended
use multi_domain_sandbox.Prelude.{
  ℕ, ◌+◌, String, Option, none, some, Bool, true, false, List, [], ◌∷◌, ◌==◌, ◌&&◌, ◌||◌, Result,
  ok, err, if◌then◌else◌, map,
}
use multi_domain_sandbox.Shared.SetStore
use multi_domain_sandbox.Shared.SetStore.{add_member}
use multi_domain_sandbox.Auth.Domain.{
  OidcClient, RequestEnvironment, SessionRevokeReason, SessionClientEntry, AuditEventKind,
  AuditDetail, NewAuditEvent, global_logout_event, session_revoked, is_active_client,
  logout_token_ttl_seconds,
}
use multi_domain_sandbox.Auth.Cognito.{CognitoTokens}
use multi_domain_sandbox.Auth.Identity
use multi_domain_sandbox.Auth.Identity.{filter}
use multi_domain_sandbox.Auth.Sessions
use multi_domain_sandbox.Auth.Sessions.{AuthSessionWithClients}
use multi_domain_sandbox.Auth.Stores.{SsoSession}
use multi_domain_sandbox.Auth.RefreshTokens.{
  RefreshFamilyRef, list_refresh_families, revoke_refresh_token_family,
}
use multi_domain_sandbox.Auth.SsoSession.{destroy_sso_session, find_sso_session_by_sid}
use multi_domain_sandbox.Auth.State.{
  Claim, text, object_of, Env, Eff, AuthState, pure, ◌>>=◌, ◌>>◌, gets, on_sessions,
  on_sid_refresh_families, done, random_token, record_audit,
}

pub record BackchannelResult : Type 0 where
  pub client_id : String
  pub ok : Bool

unfoldable pub revoke_each : List RefreshFamilyRef → Eff (Unit {0})
revoke_each [] = pure tt
revoke_each (ref ∷ refs) = do revoke_refresh_token_family ref.family_id; revoke_each refs

-- `[...new Set(ids)]`
unfoldable pub unique : List String → List String → List String
unique [] seen = seen
unique (x ∷ xs) seen = unique xs (add_member x seen)

abbrev client_ids : Option AuthSessionWithClients → List String
client_ids none = []
client_ids (some r) = unique (map (λ (c : SessionClientEntry). c.oidc_client_id) r.clients) []

abbrev user_of : Option SsoSession → Option AuthSessionWithClients → Option String
user_of (some session) recorded = some session.user_id
user_of none (some r) = some r.user_id
user_of none none = none

abbrev ip_of : Option RequestEnvironment → Option String
ip_of none = none
ip_of (some e) = some e.ip

abbrev user_agent_of : Option RequestEnvironment → Option String
user_agent_of none = none
user_agent_of (some e) = some e.user_agent

abbrev event_of : SessionRevokeReason → AuditEventKind
event_of SessionRevokeReason.global_logout = global_logout_event
event_of SessionRevokeReason.user_revoked = session_revoked

abbrev reached : Bool → List BackchannelResult → List String
reached wanted [] = []
reached wanted (r ∷ rs) =
    let rest = reached wanted rs in
    if wanted
    then (if r.ok then r.client_id ∷ rest else rest)
    else (if r.ok then rest else r.client_id ∷ rest)

-- The Cognito tokens are revoked at Cognito, whose answer is only logged.
end_session : String → Option SsoSession → Eff (Unit {0})
end_session sid none = pure tt
end_session sid (some session) = do
  families ← list_refresh_families sid
  revoke_each families
  destroy_sso_session session
  on_sid_refresh_families (done (λ now. SetStore.delete sid))

module _ (env : Env) where
  unfoldable pub issue_logout_token : String → String → Eff String
  issue_logout_token client_id sid = do
    now ← gets (λ s. s.now)
    jti ← random_token env 16
    pure (
        env.sign_jwt (record {
          issuer = env.issuer;
          audience = client_id ∷ [];
          subject = sid;
          issued_at = now;
          expires_at = now + logout_token_ttl_seconds;
          claims =
              ("jti", text jti)
              ∷ ("sid", text sid)
              ∷ ("events", object_of "http://schemas.openid.net/event/backchannel-logout")
              ∷ [];
        }))

  notify_at : OidcClient → String → Option String → Eff BackchannelResult
  notify_at client sid none = pure (record { client_id = client.client_id; ok = false })
  notify_at client sid (some uri) =
      if is_active_client client.status
      then (do
        token ← issue_logout_token client.client_id sid
        pure (record { client_id = client.client_id; ok = env.backchannel_post uri token }))
      else pure (record { client_id = client.client_id; ok = false })

  unfoldable pub notify_client : OidcClient → String → Eff BackchannelResult
  unfolding notify_at
  notify_client client sid = notify_at client sid client.backchannel_logout_uri

  notify_found : String → String → Option OidcClient → Eff BackchannelResult
  notify_found oidc_client_id sid none = pure (record { client_id = oidc_client_id; ok = false })
  notify_found oidc_client_id sid (some client) = notify_client client sid

  unfoldable pub notify_client_by_id : String → String → Eff BackchannelResult
  unfolding notify_found
  notify_client_by_id oidc_client_id sid = do
    identity ← gets (λ s. s.identity)
    notify_found oidc_client_id sid (Identity.find_client_by_id identity oidc_client_id)

  notify_each : List String → String → Eff (List BackchannelResult)
  notify_each [] sid = pure []
  notify_each (id ∷ ids) sid = do
    first ← notify_client_by_id id sid
    rest ← notify_each ids sid
    pure (first ∷ rest)

  -- The clients that the session entered are told, and the record of the session is closed.
  close_record :
      String
      → SessionRevokeReason
      → Option RequestEnvironment
      → Option SsoSession
      → Option AuthSessionWithClients
      → Eff (Unit {0})
  unfolding notify_each
  close_record sid reason environment session recorded = do
    notifications ← notify_each (client_ids recorded) sid
    now ← gets (λ s. s.now)
    on_sessions (λ r. Sessions.mark_revoked r sid reason now)
    record_audit env (record {
      kind = event_of reason;
      user_id = user_of session recorded;
      session_id = some sid;
      tenant_id = none;
      client_id = none;
      ip = ip_of environment;
      user_agent = user_agent_of environment;
      detail =
          AuditDetail.notified reason (reached true notifications) (reached false notifications);
    })

  unfoldable pub revoke_session_by_sid :
      String → SessionRevokeReason → Option RequestEnvironment → Eff (Unit {0})
  unfolding end_session close_record
  revoke_session_by_sid sid reason environment = do
    session ← find_sso_session_by_sid sid
    sessions ← gets (λ s. s.sessions)
    end_session sid session
    close_record sid reason environment session (Sessions.find_with_clients sessions sid)

  unfoldable pub global_logout : SsoSession → RequestEnvironment → Eff (Unit {0})
  global_logout session environment =
      revoke_session_by_sid session.sid SessionRevokeReason.global_logout (some environment)

  abbrev entered : OidcClient → String → List SessionClientEntry → Bool
  entered client tenant_id [] = false
  entered client tenant_id (c ∷ cs) =
      (c.oidc_client_id == client.id && c.tenant_id == tenant_id) || entered client tenant_id cs

  abbrev is_of : OidcClient → String → RefreshFamilyRef → Bool
  is_of client tenant_id ref = ref.client_id == client.client_id && ref.tenant_id == tenant_id

  revoke_affected : OidcClient → String → List AuthSessionWithClients → Eff (List String)
  revoke_affected client tenant_id [] = pure []
  revoke_affected client tenant_id (record_ ∷ rest) = do
    families ← list_refresh_families record_.id
    revoke_each (filter (is_of client tenant_id) families)
    notify_client client record_.id
    ids ← revoke_affected client tenant_id rest
    pure (record_.id ∷ ids)

  unfoldable pub revoke_client_access : String → OidcClient → String → Eff (List String)
  unfolding revoke_affected
  revoke_client_access user_id client tenant_id = do
    now ← gets (λ s. s.now)
    sessions ← gets (λ s. s.sessions)
    revoke_affected client tenant_id (
        filter (λ (r : AuthSessionWithClients). entered client tenant_id r.clients)
          (Sessions.list_active_by_user sessions user_id now))
