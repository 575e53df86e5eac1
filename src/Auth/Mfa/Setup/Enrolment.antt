-- ===== src/Auth/Mfa/Setup/Enrolment.antt =====
-- mfa.ts of apps/auth-api: what a login by enrolment that completed had found.
use multi_domain_sandbox.Prelude.{
  String, ◌≡◌, refl, sym, ◌∙◌, true, Option, none, some, Result, ok, err, Bool-cases, inl, inr,
}
use multi_domain_sandbox.Shared.KvStore
use multi_domain_sandbox.Shared.KvStore.{value_of}
use multi_domain_sandbox.Shared.KvStore.View.{get_lem}
use multi_domain_sandbox.Auth.Domain.{RequestEnvironment}
use multi_domain_sandbox.Auth.Cognito.{CognitoAuthenticator, CognitoMfaError, CognitoTokens}
use multi_domain_sandbox.Auth.Stores.{MfaPending, totp_challenge, totp_setup, TotpSetupPending}
use multi_domain_sandbox.Auth.State.{Env, AuthState, key_of}
use multi_domain_sandbox.Auth.Login.{load_pending}
use multi_domain_sandbox.Auth.Mfa.{MfaCompleted}
use multi_domain_sandbox.Auth.Mfa.Setup.{
  setup_of, unexpired_secret, enabled, verified, setup_unsealed, setup_found, complete_totp_setup,
}
use multi_domain_sandbox.Auth.Mfa.Guesses.{pending_at}

-- The service verified a code made with a secret that had not run out, and TOTP is on from now on.
pub record SetupMet (env : Env) (cognito : CognitoAuthenticator) (pending_id code : String)
    (s : AuthState) : Type 0 where
  pub setup : TotpSetupPending
  pub pending : pending_at env pending_id s ≡ some (totp_setup setup)
  pub current : unexpired_secret setup.secret_issued_at s.now ≡ true
  pub tokens : CognitoTokens
  pub unsealed : env.unseal_cognito_tokens setup.encrypted_tokens ≡ some tokens
  pub verified : cognito.verify_software_token tokens.access_token code ≡ ok tt
  pub on : cognito.enable_totp tokens.access_token ≡ ok tt

module _ (env : Env) (cognito : CognitoAuthenticator) (pending_id code : String)
    (environment : RequestEnvironment) where
  enabled_ok :
      (p : TotpSetupPending) (tokens : CognitoTokens) (reply : Result (Unit {0}) CognitoMfaError)
      (s : AuthState) (done : MfaCompleted)
      → (enabled env pending_id p tokens environment reply s).0 ≡ ok done
      → reply ≡ ok tt
  unfolding enabled
  enabled_ok p tokens (err e) s done q = cc
  enabled_ok p tokens (ok tt) s done q = refl

  verified_ok :
      (p : TotpSetupPending) (tokens : CognitoTokens) (reply : Result (Unit {0}) CognitoMfaError)
      (s : AuthState) (done : MfaCompleted)
      → (verified env cognito pending_id p tokens environment reply s).0 ≡ ok done
      → (reply ≡ ok tt) × (cognito.enable_totp tokens.access_token ≡ ok tt)
  unfolding verified
  verified_ok p tokens (err CognitoMfaError.code_mismatch) s done q = cc
  verified_ok p tokens (err CognitoMfaError.session_expired) s done q = cc
  verified_ok p tokens (err (CognitoMfaError.unavailable reason)) s done q = cc
  verified_ok p tokens (ok tt) s done q = (refl, enabled_ok p tokens _ s done q)

  setup_unsealed_ok :
      (p : TotpSetupPending) (found : Option CognitoTokens) (s : AuthState) (done : MfaCompleted)
      → (setup_unsealed env cognito pending_id code p environment found s).0 ≡ ok done
      → (tokens : CognitoTokens) × (found ≡ some tokens)
        × (cognito.verify_software_token tokens.access_token code ≡ ok tt)
        × (cognito.enable_totp tokens.access_token ≡ ok tt)
  unfolding setup_unsealed
  setup_unsealed_ok p none s done q = cc
  setup_unsealed_ok p (some tokens) s done q =
      let (checked, on) = verified_ok p tokens _ s done q in (tokens, refl, checked, on)

  setup_found_ok :
      (found : Option MfaPending) (s : AuthState) (done : MfaCompleted)
      → (setup_found env cognito pending_id code environment (setup_of found) s).0 ≡ ok done
      → (p : TotpSetupPending) × (found ≡ some (totp_setup p))
        × (unexpired_secret p.secret_issued_at s.now ≡ true)
        × ((tokens : CognitoTokens) × (env.unseal_cognito_tokens p.encrypted_tokens ≡ some tokens)
            × (cognito.verify_software_token tokens.access_token code ≡ ok tt)
            × (cognito.enable_totp tokens.access_token ≡ ok tt))
  unfolding setup_found
  setup_found_ok none s done q = cc
  setup_found_ok (some (totp_challenge c)) s done q = cc
  setup_found_ok (some (totp_setup p)) s done q =
      elim (Bool-cases (unexpired_secret p.secret_issued_at s.now)) [
        | inl current ↦ (p, refl, current, setup_unsealed_ok p _ s done (rw current at q))
        | inr over ↦ let r = rw over at q in cc
      ]

  -- A login by enrolment completes only if its setup is pending, unexpired, the secret was issued
  -- within the last three minutes, its tokens could be read, and the service verified the code and
  -- turned TOTP on.
  pub complete_totp_setup-SetupMet :
      (s : AuthState) (done : MfaCompleted)
      → (complete_totp_setup env cognito pending_id code environment s).0 ≡ ok done
      → SetupMet env cognito pending_id code s
  unfolding complete_totp_setup load_pending
  complete_totp_setup-SetupMet s done q =
      let read = KvStore.get s.now (key_of env pending_id) s.mfa_pending in
      let (p, found, current, (tokens, unsealed, checked, on)) =
        setup_found_ok read.0 (record s { stores = record s.stores { mfa_pending = read.1 } }) done
          q in
      record {
        setup = p;
        pending = sym (get_lem s.now (key_of env pending_id) s.mfa_pending) ∙ found;
        current = current;
        tokens = tokens;
        unsealed = unsealed;
        verified = checked;
        on = on;
      }
