-- ===== src/Auth/Domain.antt =====
-- apps/auth-api/src/domain: identity.ts, session.ts, audit.ts, policy.ts, and the enumerations of
-- packages/shared/src/identity.ts and oidc-protocol.ts.
use multi_domain_sandbox.Prelude.{
  ℕ, String, Bool, true, false, Option, List, [], ◌∷◌, ◌*◌, ◌==◌, ◌||◌, not,
}

pub data UserStatus : Type 0 where
  active disabled : UserStatus

pub data TenantStatus : Type 0 where
  active suspended : TenantStatus

pub data ContractStatus : Type 0 where
  active suspended : ContractStatus

pub data ClientStatus : Type 0 where
  active disabled : ClientStatus

pub data ServiceMembershipStatus : Type 0 where
  active disabled : ServiceMembershipStatus

pub data MfaMethod : Type 0 where
  totp : MfaMethod

pub data AccessDeniedReason : Type 0 where
  user_disabled tenant_suspended not_contracted no_membership membership_inactive :
      AccessDeniedReason

pub record User : Type 0 where
  pub id : String
  pub cognito_sub : Option String
  pub email : String
  pub name : Option String
  pub status : UserStatus

pub record NewUser : Type 0 where
  pub id : String
  pub cognito_sub : Option String
  pub email : String
  pub name : Option String

pub record Tenant : Type 0 where
  pub id : String
  pub slug : String
  pub name : String
  pub status : TenantStatus

pub record OidcClient : Type 0 where
  pub id : String
  pub client_id : String
  pub name : String
  pub audience : String
  pub redirect_uri_template : String
  pub secret_hashes : List String
  pub allowed_scopes : List String
  pub status : ClientStatus
  pub backchannel_logout_uri : Option String

pub record Contract : Type 0 where
  pub status : ContractStatus

pub record ServiceMembership : Type 0 where
  pub status : ServiceMembershipStatus

pub record UserMfaMethod : Type 0 where
  pub method : MfaMethod
  pub enrolled_at : ℕ

abbrev pub is_active_user : UserStatus → Bool
is_active_user UserStatus.active = true
is_active_user UserStatus.disabled = false

abbrev pub is_active_tenant : TenantStatus → Bool
is_active_tenant TenantStatus.active = true
is_active_tenant TenantStatus.suspended = false

abbrev pub is_active_contract : ContractStatus → Bool
is_active_contract ContractStatus.active = true
is_active_contract ContractStatus.suspended = false

abbrev pub is_active_client : ClientStatus → Bool
is_active_client ClientStatus.active = true
is_active_client ClientStatus.disabled = false

abbrev pub is_active_membership : ServiceMembershipStatus → Bool
is_active_membership ServiceMembershipStatus.active = true
is_active_membership ServiceMembershipStatus.disabled = false

-- domain/session.ts
pub record RequestEnvironment : Type 0 where
  pub ip : String
  pub user_agent : String

pub data SessionRevokeReason : Type 0 where
  global_logout user_revoked : SessionRevokeReason

pub record AuthSessionRecord : Type 0 where
  pub id : String
  pub user_id : String
  pub ip : String
  pub user_agent : String
  pub created_at : ℕ
  pub last_seen_at : ℕ
  pub revoked_at : Option ℕ
  pub revoke_reason : Option SessionRevokeReason

pub record NewAuthSession : Type 0 where
  pub id : String
  pub user_id : String
  pub ip : String
  pub user_agent : String
  pub created_at : ℕ
  pub last_seen_at : ℕ

pub record SessionClientEntry : Type 0 where
  pub session_id : String
  pub oidc_client_id : String
  pub tenant_id : String
  pub first_seen_at : ℕ
  pub last_seen_at : ℕ

unfoldable pub environment_changed : RequestEnvironment → RequestEnvironment → Bool
environment_changed recorded current =
    not (recorded.ip == current.ip) || not (recorded.user_agent == current.user_agent)

-- domain/audit.ts
pub data AuditEventKind : Type 0 where
  login_succeeded login_failed environment_changed_event global_logout_event session_revoked :
      AuditEventKind
  refresh_token_reused refresh_token_client_mismatch authorization_code_reused : AuditEventKind
  service_member_invited service_member_revoked : AuditEventKind
  mfa_enrolled mfa_challenge_failed mfa_setup_expired : AuditEventKind

-- The structured part of an event, one constructor for each shape that the program records.
pub data AuditDetail : Type 0 where
  no_detail : AuditDetail
  family : String → AuditDetail
  family_of_client : String → String → AuditDetail
  reason : String → AuditDetail
  previous_environment : RequestEnvironment → RequestEnvironment → AuditDetail
  mfa : MfaMethod → AuditDetail
  attempts : ℕ → AuditDetail
  setup_phase renewed : AuditDetail
  linked : Bool → AuditDetail
  revoked_sessions : List String → AuditDetail
  notified : SessionRevokeReason → List String → List String → AuditDetail

pub record NewAuditEvent : Type 0 where
  pub kind : AuditEventKind
  pub user_id : Option String
  pub session_id : Option String
  pub tenant_id : Option String
  pub client_id : Option String
  pub ip : Option String
  pub user_agent : Option String
  pub detail : AuditDetail

pub record AuditEvent : Type 0 where
  pub id : String
  pub occurred_at : ℕ
  pub event : NewAuditEvent
  pub open event use *

-- domain/policy.ts, in seconds
abbrev pub sso_session_idle_seconds : ℕ
sso_session_idle_seconds = 2 * 60 * 60

abbrev pub sso_session_absolute_seconds : ℕ
sso_session_absolute_seconds = 12 * 60 * 60

abbrev pub authorization_request_ttl_seconds : ℕ
authorization_request_ttl_seconds = 30 * 60

abbrev pub authorization_code_ttl_seconds : ℕ
authorization_code_ttl_seconds = 60

abbrev pub consumed_code_retention_seconds : ℕ
consumed_code_retention_seconds = 10 * 60

abbrev pub id_token_ttl_seconds : ℕ
id_token_ttl_seconds = 5 * 60

abbrev pub access_token_ttl_seconds : ℕ
access_token_ttl_seconds = 15 * 60

abbrev pub refresh_token_ttl_seconds : ℕ
refresh_token_ttl_seconds = 12 * 60 * 60

abbrev pub csrf_token_ttl_seconds : ℕ
csrf_token_ttl_seconds = 30 * 60

abbrev pub mfa_pending_ttl_seconds : ℕ
mfa_pending_ttl_seconds = 5 * 60

abbrev pub mfa_max_attempts : ℕ
mfa_max_attempts = 5

abbrev pub totp_setup_ttl_seconds : ℕ
totp_setup_ttl_seconds = 3 * 60

abbrev pub logout_token_ttl_seconds : ℕ
logout_token_ttl_seconds = 2 * 60

abbrev pub supported_scopes : List String
supported_scopes = "openid" ∷ "profile" ∷ "email" ∷ []
