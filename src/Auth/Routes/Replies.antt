-- ===== src/Auth/Routes/Replies.antt =====
-- Where /authorize may send a browser.
use multi_domain_sandbox.Prelude.{
  String, ◌≡◌, refl, arith, Option, none, some, Result, ok, err, List,
}
use multi_domain_sandbox.Auth.Domain.{AccessDeniedReason, RequestEnvironment}
use multi_domain_sandbox.Auth.Stores.{SsoSession}
use multi_domain_sandbox.Auth.State.{Env, AuthState}
use multi_domain_sandbox.Auth.SsoSession.{load_sso_session}
use multi_domain_sandbox.Auth.Access.{ValidatedAuthorizationRequest, authorize_with_session}
use multi_domain_sandbox.Auth.AuthorizationRequest.{
  RawParams, AuthorizationRequestError, refused, redirectable, validate_authorization_request,
}
use multi_domain_sandbox.Auth.AuthorizationRequest.Redirects.{
  RedirectTarget, redirectable-RedirectTarget, Confirmed-RedirectTarget,
  validate_authorization_request_iff,
}
use multi_domain_sandbox.Auth.Routes.{
  to_client, respond_validation_error, redirect_for_outcome, with_session, validated, authorize,
}

module _ (env : Env) (params : RawParams) (cookie : Option String)
    (environment : RequestEnvironment) where
  outcome-target :
      (request : ValidatedAuthorizationRequest) (outcome : Result String AccessDeniedReason)
      (uri : String) (query : List (String × Option String))
      → redirect_for_outcome request outcome ≡ to_client uri query
      → request.redirect_uri ≡ uri
  unfolding redirect_for_outcome
  outcome-target request (ok code) uri query h = ground arith
  outcome-target request (err reason) uri query h = ground arith

  session-target :
      (request : ValidatedAuthorizationRequest) (session : Option SsoSession) (s : AuthState)
      (uri : String) (query : List (String × Option String))
      → (with_session env cookie environment request session s).0.reply ≡ to_client uri query
      → request.redirect_uri ≡ uri
  unfolding with_session
  session-target request none s uri query h = ground arith
  session-target request (some session) s uri query h =
      outcome-target request (authorize_with_session env request session environment s).0 uri query
        h

  validated-target :
      (s : AuthState) (v : Result ValidatedAuthorizationRequest AuthorizationRequestError)
      → validate_authorization_request s.identity params ≡ v
      → (uri : String) (query : List (String × Option String))
      → (validated env cookie environment v s).0.reply ≡ to_client uri query
      → RedirectTarget s.identity params uri
  unfolding validated respond_validation_error
  validated-target s (err (refused kind)) e uri query h = ground arith
  validated-target s (err (redirectable kind to state description)) e uri query h =
      let same : to ≡ uri = ground arith in
      redirectable-RedirectTarget s.identity params kind uri state description (rw (← same) e)
  validated-target s (ok request) e uri query h =
      let a = (validate_authorization_request_iff s.identity params request).0 e in
      let (session, t) = load_sso_session env cookie s in
      Confirmed-RedirectTarget s.identity params request.client request.redirect_uri uri
        request.tenant (session-target request session t uri query h) a.confirmed

  -- Whatever /authorize answers, with a code or with an error, it sends a browser to no URI of a client but
  -- the one that the request named and that is the registered client's template for an existing tenant.
  pub authorize-RedirectTarget :
      (s : AuthState) (uri : String) (query : List (String × Option String))
      → (authorize env params cookie environment s).0.reply ≡ to_client uri query
      → RedirectTarget s.identity params uri
  unfolding authorize
  authorize-RedirectTarget s uri query h =
      validated-target s (validate_authorization_request s.identity params) refl uri query h
