-- ===== src/Auth/Mfa/Factor.antt =====
-- mfa.ts of apps/auth-api: what a login by challenge that completed had found.
use multi_domain_sandbox.Prelude.{
  String, ◌≡◌, refl, sym, ◌∙◌, Option, none, some, Result, ok, err, arith,
}
use multi_domain_sandbox.Shared.KvStore
use multi_domain_sandbox.Shared.KvStore.{value_of}
use multi_domain_sandbox.Shared.KvStore.View.{get_lem}
use multi_domain_sandbox.Auth.Domain.{RequestEnvironment}
use multi_domain_sandbox.Auth.Cognito.{CognitoAuthenticator, CognitoAuthenticated, CognitoMfaError}
use multi_domain_sandbox.Auth.Stores.{MfaPending, totp_challenge, totp_setup, TotpChallenge}
use multi_domain_sandbox.Auth.State.{Env, AuthState, key_of, record_audit}
use multi_domain_sandbox.Auth.Login.{load_pending}
use multi_domain_sandbox.Auth.Mfa.{
  MfaCompleted, challenge_of, wrong_code, responded, challenge_found, complete_totp_challenge,
}
use multi_domain_sandbox.Auth.Mfa.Guesses.{pending_at}

-- The service accepted a code for the challenge that is pending.
pub record ChallengeMet (env : Env) (cognito : CognitoAuthenticator) (pending_id code : String)
    (s : AuthState) : Type 0 where
  pub challenge : TotpChallenge
  pub pending : pending_at env pending_id s ≡ some (totp_challenge challenge)
  pub authenticated : CognitoAuthenticated
  pub accepted :
      cognito.respond_to_totp challenge.username challenge.cognito_session code ≡ ok authenticated

module _ (env : Env) (cognito : CognitoAuthenticator) (pending_id code : String)
    (environment : RequestEnvironment) where
  wrong_code_refused :
      (c : TotpChallenge) (s : AuthState) (done : MfaCompleted)
      → ((wrong_code env pending_id c environment s).0 ≡ ok done)
      → ⊥
  unfolding wrong_code record_audit
  wrong_code_refused c s done p = ground arith

  responded_ok :
      (c : TotpChallenge) (reply : Result CognitoAuthenticated CognitoMfaError) (s : AuthState)
      (done : MfaCompleted)
      → (responded env pending_id c environment reply s).0 ≡ ok done
      → (a : CognitoAuthenticated) × (reply ≡ ok a)
  unfolding responded
  responded_ok c (err CognitoMfaError.code_mismatch) s done p =
      absurd (wrong_code_refused c s done p)
  responded_ok c (err CognitoMfaError.session_expired) s done p = cc
  responded_ok c (err (CognitoMfaError.unavailable reason)) s done p = cc
  responded_ok c (ok a) s done p = (a, refl)

  challenge_found_ok :
      (found : Option MfaPending) (s : AuthState) (done : MfaCompleted)
      → (challenge_found env cognito pending_id code environment (challenge_of found) s).0 ≡ ok done
      → (c : TotpChallenge) × (found ≡ some (totp_challenge c))
        × ((a : CognitoAuthenticated) × (cognito.respond_to_totp c.username c.cognito_session code
              ≡ ok a))
  unfolding challenge_found
  challenge_found_ok none s done p = cc
  challenge_found_ok (some (totp_setup x)) s done p = cc
  challenge_found_ok (some (totp_challenge c)) s done p = (c, refl, responded_ok c _ s done p)

  -- A login by TOTP challenge completes only if its challenge is pending, unexpired, and the
  -- service accepted the code for that challenge's user.
  pub complete_totp_challenge-ChallengeMet :
      (s : AuthState) (done : MfaCompleted)
      → (complete_totp_challenge env cognito pending_id code environment s).0 ≡ ok done
      → ChallengeMet env cognito pending_id code s
  unfolding complete_totp_challenge load_pending
  complete_totp_challenge-ChallengeMet s done p =
      let read = KvStore.get s.now (key_of env pending_id) s.mfa_pending in
      let (c, found, (a, accepted)) =
        challenge_found_ok read.0 (record s { stores = record s.stores { mfa_pending = read.1 } })
          done p in
      record {
        challenge = c;
        pending = sym (get_lem s.now (key_of env pending_id) s.mfa_pending) ∙ found;
        authenticated = a;
        accepted = accepted;
      }
