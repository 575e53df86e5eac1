-- ===== src/Auth/GlobalLogout/Ended.antt =====
-- global-logout.ts of apps/auth-api: what is left of a session that was revoked.
use multi_domain_sandbox.Prelude.{
  String, ◌≡◌, ◌⊎◌, refl, ◌∙◌, Option, none, some, List, [], ◌∷◌, arith, Bool-cases, inl, inr,
  eq_iff,
}
use multi_domain_sandbox.Shared.KvStore.View.{view, view-delete}
use multi_domain_sandbox.Auth.Domain.{
  OidcClient, RequestEnvironment, SessionRevokeReason, is_active_client,
}
use multi_domain_sandbox.Auth.Stores.{SsoSession}
use multi_domain_sandbox.Auth.State.{Env, AuthState, record_audit}
use multi_domain_sandbox.Auth.Sessions
use multi_domain_sandbox.Auth.Sessions.{AuthSessionWithClients}
use multi_domain_sandbox.Auth.RefreshTokens.{
  RefreshFamilyRef, list_refresh_families, revoke_refresh_token_family,
}
use multi_domain_sandbox.Auth.RefreshTokens.Family.{AllTracked}
use multi_domain_sandbox.Auth.RefreshTokens.Tracked.{
  IsDead, revoke_refresh_token_family-IsDead, revoke_refresh_token_family-AllTracked,
}
use multi_domain_sandbox.Auth.RefreshTokens.Dead.{IsDead-revoke}
use multi_domain_sandbox.Auth.SsoSession.{destroy_sso_session, find_sso_session_by_sid}
use multi_domain_sandbox.Auth.SsoSession.Frame.{Untouched, find_sso_session_by_sid-Untouched}
use multi_domain_sandbox.Auth.Token.Refresh.{AllTracked-Untouched}
use multi_domain_sandbox.Auth.GlobalLogout.{
  revoke_each, issue_logout_token, notify_at, notify_client, notify_found, notify_client_by_id,
  notify_each, end_session, close_record, client_ids, revoke_session_by_sid,
}

-- The family is one of those that the references name.
unfoldable pub Listed : String → List RefreshFamilyRef → Type 0
Listed family_id [] = ⊥
Listed family_id (ref ∷ refs) = (ref.family_id ≡ family_id) ⊎ Listed family_id refs

-- The clock, the refresh tokens and the SSO sessions are as they were.
record Kept (s s' : AuthState) : Type 0 where
  now : s'.now ≡ s.now
  refresh_tokens : s'.refresh_tokens ≡ s.refresh_tokens
  sso_sessions : s'.sso_sessions ≡ s.sso_sessions

kept :
    {s s' : AuthState}
    → s'.now ≡ s.now
    → s'.refresh_tokens ≡ s.refresh_tokens
    → s'.sso_sessions ≡ s.sso_sessions
    → Kept s s'
kept a b c = record { now = a; refresh_tokens = b; sso_sessions = c }

Kept-trans : {s s' s'' : AuthState} → Kept s s' → Kept s' s'' → Kept s s''
Kept-trans a b =
    kept (b.now ∙ a.now) (b.refresh_tokens ∙ a.refresh_tokens) (b.sso_sessions ∙ a.sso_sessions)

revoke_each-stays :
    (family_id : String) (refs : List RefreshFamilyRef) (s : AuthState)
    → IsDead family_id s
    → IsDead family_id (revoke_each refs s).1
unfolding revoke_each
revoke_each-stays family_id [] s dead = dead
revoke_each-stays family_id (ref ∷ refs) s dead =
    revoke_each-stays family_id refs (revoke_refresh_token_family ref.family_id s).1
      (IsDead-revoke family_id ref.family_id s dead)

revoke_each-IsDead :
    (family_id : String) (refs : List RefreshFamilyRef) (s : AuthState)
    → AllTracked s
    → Listed family_id refs
    → IsDead family_id (revoke_each refs s).1
unfolding revoke_each Listed
revoke_each-IsDead family_id [] s tr l = absurd l
revoke_each-IsDead family_id (ref ∷ refs) s tr (inl same) =
    revoke_each-stays family_id refs (revoke_refresh_token_family ref.family_id s).1
      (rw⁻¹ same (revoke_refresh_token_family-IsDead s tr ref.family_id))
revoke_each-IsDead family_id (ref ∷ refs) s tr (inr later) =
    revoke_each-IsDead family_id refs (revoke_refresh_token_family ref.family_id s).1
      (revoke_refresh_token_family-AllTracked s tr ref.family_id) later

module _ (env : Env) where
  notify_at-Kept :
      (client : OidcClient) (sid : String) (uri : Option String) (s : AuthState)
      → Kept s (notify_at env client sid uri s).1
  unfolding notify_at issue_logout_token
  notify_at-Kept client sid none s = kept refl refl refl
  notify_at-Kept client sid (some uri) s = elim (Bool-cases (is_active_client client.status)) [
    | inl a ↦ rw a (kept {s = s} refl refl refl)
    | inr n ↦ rw n (kept {s = s} refl refl refl)
  ]

  notify_found-Kept :
      (id sid : String) (client : Option OidcClient) (s : AuthState)
      → Kept s (notify_found env id sid client s).1
  unfolding notify_found notify_client
  notify_found-Kept id sid none s = kept refl refl refl
  notify_found-Kept id sid (some client) s =
      notify_at-Kept client sid client.backchannel_logout_uri s

  notify_each-Kept :
      (ids : List String) (sid : String) (s : AuthState) → Kept s (notify_each env ids sid s).1
  unfolding notify_each notify_client_by_id
  notify_each-Kept [] sid s = kept refl refl refl
  notify_each-Kept (id ∷ ids) sid s =
      Kept-trans (notify_found-Kept id sid _ s)
        (notify_each-Kept ids sid (notify_client_by_id env id sid s).1)

  close_record-Kept :
      (sid : String) (reason : SessionRevokeReason) (environment : Option RequestEnvironment)
      (session : Option SsoSession) (recorded : Option AuthSessionWithClients) (s : AuthState)
      → Kept s (close_record env sid reason environment session recorded s).1
  unfolding close_record record_audit
  close_record-Kept sid reason environment session recorded s =
      let told = notify_each-Kept (client_ids recorded) sid s in
      kept told.now told.refresh_tokens told.sso_sessions

end_session-IsDead :
    (sid family_id : String) (session : SsoSession) (s : AuthState)
    → AllTracked s
    → Listed family_id (list_refresh_families sid s).0
    → IsDead family_id (end_session sid (some session) s).1
unfolding end_session list_refresh_families destroy_sso_session
end_session-IsDead sid family_id session s tr l =
    let listed = list_refresh_families sid s in revoke_each-IsDead family_id listed.0 listed.1 tr l

end_session_gone :
    (sid : String) (session : SsoSession) (s : AuthState)
    → view
        (end_session sid (some session) s).1.sso_sessions
        (end_session sid (some session) s).1.now
        session.id
      ≡ none
unfolding end_session destroy_sso_session
end_session_gone sid session s =
    let listed = list_refresh_families sid s in
    let revoked = (revoke_each listed.0 listed.1).1 in
    ground (
      arith,
      view-delete revoked.now session.id session.id revoked.sso_sessions,
      eq_iff session.id session.id,
    )

same-list :
    (sid : String) (s s' : AuthState)
    → Untouched s s'
    → (list_refresh_families sid s').0 ≡ (list_refresh_families sid s).0
unfolding list_refresh_families
same-list sid s s' u = rw (u.now, u.sid_refresh_families) refl

-- In a tracked state, when a session is found alive by its sid and revoked, its entry is gone
-- from the store, and no refresh token of any family that is listed under the sid is active, then
-- or at any later time: whatever the reason, and whether or not the clients could be told.
pub revoke_session_by_sid_ends :
    (env : Env) (sid : String) (reason : SessionRevokeReason)
    (environment : Option RequestEnvironment) (s : AuthState) (session : SsoSession)
    (family_id : String)
    → AllTracked s
    → (find_sso_session_by_sid sid s).0 ≡ some session
    → Listed family_id (list_refresh_families sid s).0
    → IsDead family_id (revoke_session_by_sid env sid reason environment s).1
      × (view
            (revoke_session_by_sid env sid reason environment s).1.sso_sessions
            (revoke_session_by_sid env sid reason environment s).1.now
            session.id
          ≡ none)
unfolding revoke_session_by_sid
revoke_session_by_sid_ends env sid reason environment s session family_id tr found l =
    let s0 = (find_sso_session_by_sid sid s).1 in
    let u = find_sso_session_by_sid-Untouched sid s in
    let ended = (end_session sid (some session) s0).1 in
    let dead =
      end_session-IsDead sid family_id session s0 (AllTracked-Untouched u tr)
        (rw (same-list sid s s0 u) l) in
    let recorded = Sessions.find_with_clients s0.sessions sid in
    let closed = close_record-Kept env sid reason environment (some session) recorded ended in
    rw found (
      λ t k e h p same. dead t k e (rw closed.now at h) (rw closed.refresh_tokens at p) same,
      rw (closed.now, closed.sso_sessions) (end_session_gone sid session s0),
    )
