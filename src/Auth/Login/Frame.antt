-- ===== src/Auth/Login/Frame.antt =====
-- login.ts of apps/auth-api: what a login leaves as it was.
use multi_domain_sandbox.Prelude.{
  String, ◌≡◌, refl, ◌∙◌, Option, none, some, Result, ok, err, Bool-cases, inl, inr,
}
use multi_domain_sandbox.Auth.Domain.{User, MfaMethod, RequestEnvironment, is_active_user}
use multi_domain_sandbox.Auth.Cognito.{
  CognitoAuthenticator, CognitoCredentials, CognitoAuthenticated, CognitoAuthOutcome,
  CognitoAuthError,
}
use multi_domain_sandbox.Auth.Identity.{MemoryIdentityRepository}
use multi_domain_sandbox.Auth.State.{Env, AuthState, record_audit}
use multi_domain_sandbox.Auth.SsoSession.{create_sso_session}
use multi_domain_sandbox.Auth.Login.{
  linked, store_pending, save_pending, login_outcome, login, link_unlinked, resolve_by_email,
  resolve_by_sub, resolve_user, finish_resolved, finish_login,
}

-- No browser is logged in that was not before: the sessions are as they were.
pub record SameSessions (s s' : AuthState) : Type 0 where
  pub now : s'.now ≡ s.now
  pub sso_sessions : s'.sso_sessions ≡ s.sso_sessions
  pub sid_index : s'.sid_index ≡ s.sid_index
  pub sessions : s'.sessions ≡ s.sessions

pub record SamePending (s s' : AuthState) : Type 0 where
  pub now : s'.now ≡ s.now
  pub mfa_pending : s'.mfa_pending ≡ s.mfa_pending

-- Both.
record Same (s s' : AuthState) : Type 0 where
  sessions : SameSessions s s'
  mfa_pending : s'.mfa_pending ≡ s.mfa_pending

all-Same :
    {s s' : AuthState}
    → s'.now ≡ s.now
    → s'.sso_sessions ≡ s.sso_sessions
    → s'.sid_index ≡ s.sid_index
    → s'.sessions ≡ s.sessions
    → s'.mfa_pending ≡ s.mfa_pending
    → Same s s'
all-Same a b c d e = record {
  sessions = record { now = a; sso_sessions = b; sid_index = c; sessions = d };
  mfa_pending = e;
}

linked-Same :
    (user : User) (o : Option (User × MemoryIdentityRepository)) (s : AuthState)
    → Same s (linked user o s).1
linked-Same user none s = all-Same refl refl refl refl refl
linked-Same user (some (u, r)) s = all-Same refl refl refl refl refl

module _ (env : Env) where
  link_unlinked-Same :
      (sub : String) (user : User) (other : Option String) (s : AuthState)
      → Same s (link_unlinked env sub user other s).1
  unfolding link_unlinked
  link_unlinked-Same sub user (some other) s = all-Same refl refl refl refl refl
  link_unlinked-Same sub user none s = linked-Same user _ s

  resolve_by_email-Same :
      (sub email : String) (name : Option String) (found : Option User) (s : AuthState)
      → Same s (resolve_by_email env sub email name found s).1
  unfolding resolve_by_email
  resolve_by_email-Same sub email name none s = all-Same refl refl refl refl refl
  resolve_by_email-Same sub email name (some user) s =
      link_unlinked-Same sub user user.cognito_sub s

  resolve_by_sub-Same :
      (sub email : String) (name : Option String) (found : Option User) (s : AuthState)
      → Same s (resolve_by_sub env sub email name found s).1
  unfolding resolve_by_sub
  resolve_by_sub-Same sub email name none s = resolve_by_email-Same sub email name _ s
  resolve_by_sub-Same sub email name (some user) s = all-Same refl refl refl refl refl

  resolve_user-Same :
      (sub email : String) (name : Option String) (s : AuthState)
      → Same s (resolve_user env sub email name s).1
  unfolding resolve_user
  resolve_user-Same sub email name s = resolve_by_sub-Same sub email name _ s

  finish_resolved-SamePending :
      (authenticated : CognitoAuthenticated) (environment : RequestEnvironment) (method : MfaMethod)
      (user : User) (s : AuthState)
      → SamePending s (finish_resolved env authenticated environment method user s).1
  unfolding finish_resolved record_audit create_sso_session
  finish_resolved-SamePending authenticated environment method user s =
      elim (Bool-cases (is_active_user user.status)) [
        | inl a ↦ rw a (record { now = refl; mfa_pending = refl })
        | inr n ↦ rw n (record { now = refl; mfa_pending = refl })
      ]

  pub finish_login-SamePending :
      (authenticated : CognitoAuthenticated) (environment : RequestEnvironment) (method : MfaMethod)
      (s : AuthState)
      → SamePending s (finish_login env authenticated environment method s).1
  unfolding finish_login
  finish_login-SamePending authenticated environment method s =
      let resolved = resolve_user env authenticated.sub authenticated.email authenticated.name s in
      let a = resolve_user-Same authenticated.sub authenticated.email authenticated.name s in
      let b = finish_resolved-SamePending authenticated environment method resolved.0 resolved.1 in
      record { now = b.now ∙ a.sessions.now; mfa_pending = b.mfa_pending ∙ a.mfa_pending }

  finish_resolved_disabled :
      (authenticated : CognitoAuthenticated) (environment : RequestEnvironment) (method : MfaMethod)
      (user : User) (s : AuthState) (e : Unit {0})
      → (finish_resolved env authenticated environment method user s).0 ≡ err e
      → SameSessions s (finish_resolved env authenticated environment method user s).1
  unfolding finish_resolved record_audit
  finish_resolved_disabled authenticated environment method user s e p =
      elim (Bool-cases (is_active_user user.status)) [
        | inl a ↦ let q = rw a at p in cc
        | inr n ↦
            rw n (record { now = refl; sso_sessions = refl; sid_index = refl; sessions = refl })
      ]

  pub finish_login_disabled :
      (authenticated : CognitoAuthenticated) (environment : RequestEnvironment) (method : MfaMethod)
      (s : AuthState) (e : Unit {0})
      → (finish_login env authenticated environment method s).0 ≡ err e
      → SameSessions s (finish_login env authenticated environment method s).1
  unfolding finish_login
  finish_login_disabled authenticated environment method s e p =
      let resolved = resolve_user env authenticated.sub authenticated.email authenticated.name s in
      let a = resolve_user-Same authenticated.sub authenticated.email authenticated.name s in
      let b = finish_resolved_disabled authenticated environment method resolved.0 resolved.1 e p in
      record {
        now = b.now ∙ a.sessions.now;
        sso_sessions = b.sso_sessions ∙ a.sessions.sso_sessions;
        sid_index = b.sid_index ∙ a.sessions.sid_index;
        sessions = b.sessions ∙ a.sessions.sessions;
      }

  login_outcome-SameSessions :
      (outcome : Result CognitoAuthOutcome CognitoAuthError) (environment : RequestEnvironment)
      (rid : String) (s : AuthState)
      → SameSessions s (login_outcome env outcome environment rid s).1
  unfolding login_outcome record_audit store_pending save_pending
  login_outcome-SameSessions (err e) environment rid s = record {
    now = refl;
    sso_sessions = refl;
    sid_index = refl;
    sessions = refl;
  }
  login_outcome-SameSessions (ok (CognitoAuthOutcome.totp_required session username)) environment
        rid s =
      record { now = refl; sso_sessions = refl; sid_index = refl; sessions = refl }
  login_outcome-SameSessions (ok (CognitoAuthOutcome.authenticated a)) environment rid s = record {
    now = refl;
    sso_sessions = refl;
    sid_index = refl;
    sessions = refl;
  }

  -- A password alone never makes a session: whatever the reply to the credentials, the SSO sessions,
  -- their index and the recorded sessions are as they were.
  pub login-SameSessions :
      (cognito : CognitoAuthenticator) (credentials : CognitoCredentials)
      (environment : RequestEnvironment) (rid : String) (s : AuthState)
      → SameSessions s (login env cognito credentials environment rid s).1
  unfolding login
  login-SameSessions cognito credentials environment rid s =
      login_outcome-SameSessions (cognito.authenticate credentials) environment rid s
