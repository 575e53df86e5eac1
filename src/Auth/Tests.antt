-- ===== src/Auth/Tests.antt =====
-- The theorems at work on the sample server.
use multi_domain_sandbox.Prelude.{
  ◌≡◌, ◌≢◌, ◌≤◌, ◌<◌, ◌↔◌, refl, true, some, List, [], ◌∷◌, ok, arith,
}
use multi_domain_sandbox.Shared.KvStore
use multi_domain_sandbox.Shared.KvStore.View.{view}
use multi_domain_sandbox.Auth.Domain.{csrf_token_ttl_seconds}
use multi_domain_sandbox.Auth.Samples.{
  env, cms, acme, alice, browser, input, cognito, strict_cognito, state, numbered,
}
use multi_domain_sandbox.Auth.RefreshTokens.Tracked.{later}
use multi_domain_sandbox.Auth.RefreshTokens.Refs.{decode_family_ref-encode_family_ref}
use multi_domain_sandbox.Auth.RefreshTokens.{RefreshFamilyRef, encode_family_ref, decode_family_ref}
use multi_domain_sandbox.Auth.Access.{check_tenant_access}
use multi_domain_sandbox.Auth.Access.Conditions.{MayEnter, check_tenant_access_iff}
use multi_domain_sandbox.Auth.Csrf.{issue_csrf_token, verify_csrf_token}
use multi_domain_sandbox.Auth.Csrf.Forms.{verify-issue_csrf_token_iff}
use multi_domain_sandbox.Auth.Login.{login}
use multi_domain_sandbox.Auth.Login.Frame.{SameSessions, login-SameSessions}
use multi_domain_sandbox.Auth.Mfa.{MfaCompleted, complete_totp_challenge}
use multi_domain_sandbox.Auth.Mfa.Setup.{complete_totp_setup}
use multi_domain_sandbox.Auth.Mfa.Guesses.{Guess, codes_tried, codes_tried-bound}
use multi_domain_sandbox.Auth.Mfa.Factor.{ChallengeMet, complete_totp_challenge-ChallengeMet}
use multi_domain_sandbox.Auth.Mfa.Setup.Enrolment.{SetupMet, complete_totp_setup-SetupMet}
use multi_domain_sandbox.Auth.Token.{TokenResponse, exchange_authorization_code}
use multi_domain_sandbox.Auth.Token.Sound.{MayExchange}
use multi_domain_sandbox.Auth.Token.Steps.{here}
use multi_domain_sandbox.Auth.Token.Once.{exchange_once}
use multi_domain_sandbox.Auth.Token.Complete.{Answered, exchange_authorization_code_iff}

abbrev response : TokenResponse
response = record {
  access_token = "user-1";
  expires_in = 900;
  id_token = "user-1";
  refresh_token = "random-x";
  scope = "openid";
}

exchange_once_example :
    (exchange_authorization_code env cms input
      (exchange_authorization_code env cms input state).1).0
    ≢ ok response
exchange_once_example =
    exchange_once env cms input state (exchange_authorization_code env cms input state).1
      (here (exchange_authorization_code env cms input state).1) cms input response refl

exchange_authorization_code_iff_example :
    Answered (exchange_authorization_code env cms input state).0 ↔ MayExchange env cms input state
exchange_authorization_code_iff_example = exchange_authorization_code_iff env cms input state

check_tenant_access_iff_example :
    (check_tenant_access state.identity cms acme "user-1" ≡ ok alice)
    ↔ MayEnter state.identity cms acme "user-1" alice
check_tenant_access_iff_example = check_tenant_access_iff state.identity cms acme "user-1" alice

abbrev wrong : Guess
wrong = record { wait = 1; cognito = strict_cognito; code = "000000"; environment = browser }

abbrev six_guesses : List Guess
six_guesses = wrong ∷ wrong ∷ wrong ∷ wrong ∷ wrong ∷ wrong ∷ []

codes_tried-bound_example : codes_tried env "login-1" six_guesses state ≤ 5
unfolding view KvStore.set multi_domain_sandbox.Shared.Map.insert
codes_tried-bound_example = codes_tried-bound env "login-1" six_guesses state (omega arith)

abbrev challenge_done : MfaCompleted
challenge_done = record {
  login = record {
    user = alice;
    session = record {
      id = "random-";
      sid = "random-x";
      user_id = "user-1";
      encrypted_cognito_tokens = "a";
      auth_time = 0;
      created_at = 0;
      last_seen_at = 0;
    };
    cookie_value = "random-";
  };
  rid = "";
}

complete_totp_challenge-ChallengeMet_example : ChallengeMet env cognito "login-1" "123456" state
unfolding complete_totp_challenge numbered multi_domain_sandbox.Auth.Login.load_pending KvStore.get
    KvStore.set multi_domain_sandbox.Shared.Map.insert multi_domain_sandbox.Auth.Login.finish_login
    multi_domain_sandbox.Auth.Login.resolve_user
    multi_domain_sandbox.Auth.Identity.find_user_by_cognito_sub
    multi_domain_sandbox.Auth.Login.delete_pending
    multi_domain_sandbox.Auth.SsoSession.create_sso_session
complete_totp_challenge-ChallengeMet_example =
    complete_totp_challenge-ChallengeMet env cognito "login-1" "123456" browser state challenge_done
      refl

complete_totp_setup-SetupMet_example : SetupMet env cognito "login-2" "123456" state
unfolding complete_totp_setup numbered multi_domain_sandbox.Auth.Login.load_pending KvStore.get
    KvStore.set multi_domain_sandbox.Shared.Map.insert multi_domain_sandbox.Auth.Login.finish_login
    multi_domain_sandbox.Auth.Login.resolve_user
    multi_domain_sandbox.Auth.Identity.find_user_by_cognito_sub
    multi_domain_sandbox.Auth.Login.delete_pending
    multi_domain_sandbox.Auth.SsoSession.create_sso_session
complete_totp_setup-SetupMet_example =
    complete_totp_setup-SetupMet env cognito "login-2" "123456" browser state challenge_done refl

login-SameSessions_example :
    SameSessions state
      (login env cognito (record { username = "alice"; password = "secret" }) browser "" state).1
login-SameSessions_example =
    login-SameSessions env cognito (record { username = "alice"; password = "secret" }) browser ""
      state

verify-issue_csrf_token_iff_example :
    ((verify_csrf_token env
        (some (issue_csrf_token env state).0.cookie_value)
        (some "token")
        (later 60 (issue_csrf_token env state).1)).0
      ≡ true)
    ↔ ((60 < csrf_token_ttl_seconds) × ("token" ≡ (issue_csrf_token env state).0.form_token))
verify-issue_csrf_token_iff_example = verify-issue_csrf_token_iff env state 60 "token"

abbrev ref : RefreshFamilyRef
ref = record { family_id = "f"; client_id = "cms"; tenant_id = "tenant-1" }

decode_family_ref-encode_family_ref_example : decode_family_ref (encode_family_ref ref) ≡ some ref
unfolding multi_domain_sandbox.Shared.Text.lacks
decode_family_ref-encode_family_ref_example = decode_family_ref-encode_family_ref ref refl refl refl
