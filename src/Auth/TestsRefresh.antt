-- ===== src/Auth/TestsRefresh.antt =====
-- The theorems on refresh tokens at work on the sample server.
use multi_domain_sandbox.Prelude.{inl, none, ◌≡◌, ◌≢◌, ◌↔◌, refl, ok}
use multi_domain_sandbox.Shared.KvStore.View.{view}
use multi_domain_sandbox.Auth.State.{AuthState}
use multi_domain_sandbox.Auth.Stores.{RefreshToken, RefreshTokenStatus}
use multi_domain_sandbox.Auth.Samples.{session, env, cms, state, grant, numbered}
use multi_domain_sandbox.Auth.RefreshTokens.{
  create_refresh_token_family, revoke_refresh_token_family,
}
use multi_domain_sandbox.Auth.RefreshTokens.Family.{AllTracked}
use multi_domain_sandbox.Auth.RefreshTokens.Tracked.{
  IsDead, create_refresh_token_family-AllTracked, revoke_refresh_token_family-IsDead,
}
use multi_domain_sandbox.Auth.Token.{TokenResponse, refresh_access_token, refresh_token_was_reused}
use multi_domain_sandbox.Auth.Domain.{SessionRevokeReason}
use multi_domain_sandbox.Auth.GlobalLogout.{revoke_session_by_sid}
use multi_domain_sandbox.Auth.GlobalLogout.Ended.{Listed, revoke_session_by_sid_ends}
use multi_domain_sandbox.Auth.Token.SoundRefresh.{MayRefresh}
use multi_domain_sandbox.Auth.Token.Steps.{Steps, Steps-AllTracked, here, then_step, refresh}
use multi_domain_sandbox.Auth.Token.Refresh.{refused-IsDead}
use multi_domain_sandbox.Auth.Token.Dead as DeadSteps
use multi_domain_sandbox.Auth.Token.Dead.{Spared}
use multi_domain_sandbox.Auth.Token.Replay.{refused_for_good}
use multi_domain_sandbox.Auth.Token.Complete.{Answered, refresh_access_token_iff}

state-AllTracked : AllTracked state
unfolding view
state-AllTracked = record { found = λ k e p a. cc; bounded = λ k e p. cc }

-- A family was issued; then its first token was used.
abbrev issued : AuthState
issued = (create_refresh_token_family env grant state).1

abbrev rotated_once : AuthState
rotated_once = (refresh_access_token env cms "random-x" issued).1

abbrev first_token : RefreshToken
first_token = record { family_id = "random-"; grant = grant; status = RefreshTokenStatus.rotated }

abbrev second_token : RefreshToken
second_token = record { family_id = "random-"; grant = grant; status = RefreshTokenStatus.revoked }

abbrev response : TokenResponse
response = record {
  access_token = "user-1";
  expires_in = 900;
  id_token = "user-1";
  refresh_token = "random-";
  scope = "openid";
}

issued-AllTracked : AllTracked issued
issued-AllTracked = create_refresh_token_family-AllTracked state state-AllTracked env grant

used_once : Steps env issued rotated_once
used_once = then_step (here issued) (refresh cms "random-x" issued)

rotated_once-AllTracked : AllTracked rotated_once
rotated_once-AllTracked = Steps-AllTracked env used_once issued-AllTracked

Steps-AllTracked_example : AllTracked rotated_once
Steps-AllTracked_example = Steps-AllTracked env used_once issued-AllTracked

refresh_access_token_iff_example :
    Answered (refresh_access_token env cms "random-x" issued).0
    ↔ MayRefresh env cms "random-x" issued
refresh_access_token_iff_example = refresh_access_token_iff env cms "random-x" issued

revoke_refresh_token_family-IsDead_example :
    IsDead "random-" (revoke_refresh_token_family "random-" issued).1
revoke_refresh_token_family-IsDead_example =
    revoke_refresh_token_family-IsDead issued issued-AllTracked "random-"

refused-IsDead_example : IsDead "random-" (refresh_access_token env cms "random-x" rotated_once).1
unfolding view refresh_access_token create_refresh_token_family revoke_refresh_token_family numbered
    multi_domain_sandbox.Auth.RefreshTokens.consume_refresh_token
    multi_domain_sandbox.Auth.RefreshTokens.consume_found
    multi_domain_sandbox.Auth.RefreshTokens.rotate_refresh_token
    multi_domain_sandbox.Auth.RefreshTokens.store_refresh_token
    multi_domain_sandbox.Auth.RefreshTokens.set_token
    multi_domain_sandbox.Auth.RefreshTokens.encode_family_ref
    multi_domain_sandbox.Shared.KvStore.get_and_delete multi_domain_sandbox.Shared.KvStore.set
    multi_domain_sandbox.Shared.KvStore.get multi_domain_sandbox.Shared.KvStore.delete
    multi_domain_sandbox.Shared.Map.insert multi_domain_sandbox.Shared.Map.remove
    multi_domain_sandbox.Shared.Map.remove_where multi_domain_sandbox.Shared.SetStore.add
    multi_domain_sandbox.Shared.SetStore.members multi_domain_sandbox.Shared.SetStore.add_member
    multi_domain_sandbox.Shared.SetStore.contains
    multi_domain_sandbox.Auth.Token.validate_refresh_context
    multi_domain_sandbox.Auth.SsoSession.load_sso_session_by_key
    multi_domain_sandbox.Auth.SsoSession.destroy_sso_session
    multi_domain_sandbox.Shared.SessionExpiry.is_expired
    multi_domain_sandbox.Shared.SessionExpiry.remaining_ttl
    multi_domain_sandbox.Auth.Identity.find_tenant_by_id
    multi_domain_sandbox.Auth.Access.check_tenant_access
    multi_domain_sandbox.Auth.Identity.find_user_by_id
    multi_domain_sandbox.Auth.Identity.find_contract
    multi_domain_sandbox.Auth.Identity.find_service_membership
    multi_domain_sandbox.Auth.IssueTokens.issue_tokens multi_domain_sandbox.Auth.State.record_audit
    multi_domain_sandbox.Auth.RefreshTokens.set_revoked
    multi_domain_sandbox.Auth.RefreshTokens.get_each
refused-IsDead_example =
    refused-IsDead env cms "random-x" rotated_once first_token refresh_token_was_reused
      rotated_once-AllTracked refl refl

-- The first token was shown again; the second one is then worth nothing.
refused_for_good_example :
    (refresh_access_token env cms "random-xx"
      (refresh_access_token env cms "random-x" rotated_once).1).0
    ≢ ok response
unfolding view refresh_access_token create_refresh_token_family revoke_refresh_token_family numbered
    multi_domain_sandbox.Auth.RefreshTokens.consume_refresh_token
    multi_domain_sandbox.Auth.RefreshTokens.consume_found
    multi_domain_sandbox.Auth.RefreshTokens.rotate_refresh_token
    multi_domain_sandbox.Auth.RefreshTokens.store_refresh_token
    multi_domain_sandbox.Auth.RefreshTokens.set_token
    multi_domain_sandbox.Auth.RefreshTokens.encode_family_ref
    multi_domain_sandbox.Shared.KvStore.get_and_delete multi_domain_sandbox.Shared.KvStore.set
    multi_domain_sandbox.Shared.KvStore.get multi_domain_sandbox.Shared.KvStore.delete
    multi_domain_sandbox.Shared.Map.insert multi_domain_sandbox.Shared.Map.remove
    multi_domain_sandbox.Shared.Map.remove_where multi_domain_sandbox.Shared.SetStore.add
    multi_domain_sandbox.Shared.SetStore.members multi_domain_sandbox.Shared.SetStore.add_member
    multi_domain_sandbox.Shared.SetStore.contains
    multi_domain_sandbox.Auth.Token.validate_refresh_context
    multi_domain_sandbox.Auth.SsoSession.load_sso_session_by_key
    multi_domain_sandbox.Auth.SsoSession.destroy_sso_session
    multi_domain_sandbox.Shared.SessionExpiry.is_expired
    multi_domain_sandbox.Shared.SessionExpiry.remaining_ttl
    multi_domain_sandbox.Auth.Identity.find_tenant_by_id
    multi_domain_sandbox.Auth.Access.check_tenant_access
    multi_domain_sandbox.Auth.Identity.find_user_by_id
    multi_domain_sandbox.Auth.Identity.find_contract
    multi_domain_sandbox.Auth.Identity.find_service_membership
    multi_domain_sandbox.Auth.IssueTokens.issue_tokens multi_domain_sandbox.Auth.State.record_audit
    multi_domain_sandbox.Auth.RefreshTokens.set_revoked
    multi_domain_sandbox.Auth.RefreshTokens.get_each
refused_for_good_example =
    refused_for_good env cms "random-x" rotated_once
      (refresh_access_token env cms "random-x" rotated_once).1 first_token refresh_token_was_reused
      rotated_once-AllTracked refl refl
      (DeadSteps.here (refresh_access_token env cms "random-x" rotated_once).1) cms "random-xx"
      second_token response refl refl

abbrev logged_out : AuthState
logged_out = (revoke_session_by_sid env "sid-1" SessionRevokeReason.global_logout none issued).1

-- A logout ends the session and the family that was issued in it.
revoke_session_by_sid_ends_example :
    IsDead "random-" logged_out × (view logged_out.sso_sessions logged_out.now session.id ≡ none)
unfolding Listed numbered view create_refresh_token_family
    multi_domain_sandbox.Auth.SsoSession.find_sso_session_by_sid
    multi_domain_sandbox.Auth.SsoSession.load_sso_session_by_key
    multi_domain_sandbox.Auth.RefreshTokens.list_refresh_families
    multi_domain_sandbox.Auth.RefreshTokens.decode_family_ref
    multi_domain_sandbox.Auth.RefreshTokens.encode_family_ref
    multi_domain_sandbox.Auth.RefreshTokens.store_refresh_token
    multi_domain_sandbox.Shared.KvStore.get multi_domain_sandbox.Shared.KvStore.set
    multi_domain_sandbox.Shared.Map.insert multi_domain_sandbox.Shared.Map.remove_where
    multi_domain_sandbox.Shared.SetStore.add multi_domain_sandbox.Shared.SetStore.members
    multi_domain_sandbox.Shared.SetStore.add_member multi_domain_sandbox.Shared.SetStore.contains
    multi_domain_sandbox.Shared.SessionExpiry.is_expired
    multi_domain_sandbox.Shared.SessionExpiry.remaining_ttl multi_domain_sandbox.Shared.Text.split
revoke_session_by_sid_ends_example =
    revoke_session_by_sid_ends env "sid-1" SessionRevokeReason.global_logout none issued session
      "random-" issued-AllTracked refl (inl refl)
