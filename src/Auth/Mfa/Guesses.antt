-- ===== src/Auth/Mfa/Guesses.antt =====
-- How many codes one pending login lets a browser try.
use multi_domain_sandbox.Prelude.{
  ℕ, ◌+◌, ◌-◌, ◌≤◌, ◌<◌, String, ◌≡◌, refl, ap, ◌∙◌, Option, none, some, List, [], ◌∷◌, Result, ok,
  err, arith, leb, Bool-cases, inl, inr, eq_iff,
}
use multi_domain_sandbox.Shared.KvStore
use multi_domain_sandbox.Shared.KvStore.{Entry, MemoryKeyValueStore, value_of}
use multi_domain_sandbox.Shared.KvStore.View.{
  view, get_lem, view-get, view-delete, view-update, view-later, unexpired,
}
use multi_domain_sandbox.Auth.Domain.{RequestEnvironment, mfa_max_attempts, MfaMethod}
use multi_domain_sandbox.Auth.Cognito.{CognitoAuthenticator, CognitoAuthenticated, CognitoMfaError}
use multi_domain_sandbox.Auth.Stores.{MfaPending, totp_challenge, totp_setup, TotpChallenge}
use multi_domain_sandbox.Auth.State.{Env, AuthState, key_of, record_audit}
use multi_domain_sandbox.Auth.RefreshTokens.Tracked.{later}
use multi_domain_sandbox.Auth.Login.{load_pending, update_pending, delete_pending}
use multi_domain_sandbox.Auth.Login.Frame.{SamePending, finish_login-SamePending}
use multi_domain_sandbox.Auth.Mfa.{
  challenge_of, wrong_code, responded, challenge_found, complete_totp_challenge,
}

abbrev pub Pendings : Type 0
Pendings = MemoryKeyValueStore MfaPending

-- The codes that can still be tried.
abbrev left : Option MfaPending → ℕ
left none = 0
left (some (totp_setup p)) = 0
left (some (totp_challenge c)) = mfa_max_attempts - c.attempts

-- A challenge that has used up its attempts is not kept.
abbrev InLimit : Option MfaPending → Type 0
InLimit none = Unit {0}
InLimit (some (totp_setup p)) = Unit {0}
InLimit (some (totp_challenge c)) = c.attempts < mfa_max_attempts

abbrev asks : Option MfaPending → ℕ
asks none = 0
asks (some (totp_setup p)) = 0
asks (some (totp_challenge c)) = 1

-- What the store has for a pending login.
abbrev pub pending_at : Env → String → AuthState → Option MfaPending
pending_at env pending_id s = value_of (view s.mfa_pending s.now (key_of env pending_id))

-- One request: how long after the last one, the service's replies, the code, the browser.
pub record Guess : Type 0 where
  pub wait : ℕ
  pub cognito : CognitoAuthenticator
  pub code : String
  pub environment : RequestEnvironment

-- How many of the requests, made one after the other, pass a code to the service.
pub codes_tried : Env → String → List Guess → AuthState → ℕ
codes_tried env pending_id [] s = 0
codes_tried env pending_id (g ∷ gs) s =
    let s1 = later g.wait s in
    let answered = complete_totp_challenge env g.cognito pending_id g.code g.environment s1 in
    asks (pending_at env pending_id s1) + codes_tried env pending_id gs answered.1

-- A request that finds `o` leaves `o'`.
record Spends (o o' : Option MfaPending) : Type 0 where
  spent : asks o + left o' ≤ left o
  in_limit : InLimit o'

later-Spends :
    (e : Option (Entry MfaPending)) (t : ℕ)
    → InLimit (value_of e)
    → (left (value_of (unexpired t e)) ≤ left (value_of e)) × InLimit (value_of (unexpired t e))
later-Spends none t h = (omega arith, tt)
later-Spends (some e) t h = elim (Bool-cases (leb e.expires_at t)) [
  | inl gone ↦ rw gone (omega arith, tt)
  | inr here ↦ rw here (omega arith, h)
]

module _ (env : Env) (pending_id : String) where
  deleted : (s : AuthState) → pending_at env pending_id (delete_pending env pending_id s).1 ≡ none
  unfolding delete_pending
  deleted s =
      let key = key_of env pending_id in
      ground (arith, view-delete s.now key key s.mfa_pending, eq_iff key key)

  gone :
      (c : TotpChallenge) (o : Option MfaPending)
      → o ≡ none
      → InLimit (some (totp_challenge c))
      → Spends (some (totp_challenge c)) o
  gone c o p h = rw p (record { spent = omega arith; in_limit = tt })

  updated_to :
      (v : MfaPending) (c : MfaPending) (s : AuthState)
      → pending_at env pending_id s ≡ some c
      → pending_at env pending_id (update_pending env pending_id v s).1 ≡ some v
  unfolding update_pending
  updated_to v c s p =
      let key = key_of env pending_id in
      ground (arith, view-update s.now s.now key key s.mfa_pending (omega arith) v, eq_iff key key)

  SamePending-at :
      {s s' : AuthState}
      → SamePending s s'
      → pending_at env pending_id s' ≡ pending_at env pending_id s
  SamePending-at same = rw (same.now, same.mfa_pending) refl

  wrong_code-Spends :
      (c : TotpChallenge) (environment : RequestEnvironment) (s : AuthState)
      → pending_at env pending_id s ≡ some (totp_challenge c)
      → InLimit (some (totp_challenge c))
      → Spends
          (some (totp_challenge c))
          (pending_at env pending_id (wrong_code env pending_id c environment s).1)
  unfolding wrong_code record_audit view update_pending
  wrong_code-Spends c environment s p h =
      elim (Bool-cases (leb mfa_max_attempts (c.attempts + 1))) [
        | inl last ↦ rw last (gone c _ (deleted _) h)
        | inr more ↦
            let again = totp_challenge (record c { attempts = c.attempts + 1 }) in
            let below : c.attempts + 1 < mfa_max_attempts = ground arith in
            rw (more, updated_to again (totp_challenge c) s p)
              (record { spent = omega arith; in_limit = below })
      ]

  responded-Spends :
      (c : TotpChallenge) (environment : RequestEnvironment)
      (reply : Result CognitoAuthenticated CognitoMfaError) (s : AuthState)
      → pending_at env pending_id s ≡ some (totp_challenge c)
      → InLimit (some (totp_challenge c))
      → Spends
          (some (totp_challenge c))
          (pending_at env pending_id (responded env pending_id c environment reply s).1)
  unfolding responded
  responded-Spends c environment (err CognitoMfaError.code_mismatch) s p h =
      wrong_code-Spends c environment s p h
  responded-Spends c environment (err CognitoMfaError.session_expired) s p h =
      gone c _ (deleted s) h
  responded-Spends c environment (err (CognitoMfaError.unavailable reason)) s p h =
      gone c _ (deleted s) h
  responded-Spends c environment (ok authenticated) s p h =
      let done = (delete_pending env pending_id s).1 in
      gone c _
        (SamePending-at (finish_login-SamePending env authenticated environment MfaMethod.totp done)
          ∙ deleted s)
        h

  found-Spends :
      (cognito : CognitoAuthenticator) (code : String) (environment : RequestEnvironment)
      (found : Option MfaPending) (s : AuthState)
      → pending_at env pending_id s ≡ found
      → InLimit found
      → Spends found (
          pending_at env pending_id
            (challenge_found env cognito pending_id code environment (challenge_of found) s).1)
  unfolding challenge_found
  found-Spends cognito code environment none s p h =
      rw p (record { spent = omega arith; in_limit = tt })
  found-Spends cognito code environment (some (totp_setup x)) s p h =
      rw p (record { spent = omega arith; in_limit = tt })
  found-Spends cognito code environment (some (totp_challenge c)) s p h =
      responded-Spends c environment _ s p h

  challenge-Spends :
      (cognito : CognitoAuthenticator) (code : String) (environment : RequestEnvironment)
      (s : AuthState)
      → InLimit (pending_at env pending_id s)
      → Spends (pending_at env pending_id s) (
          pending_at env pending_id
            (complete_totp_challenge env cognito pending_id code environment s).1)
  unfolding complete_totp_challenge load_pending
  challenge-Spends cognito code environment s h =
      let key = key_of env pending_id in
      let read = KvStore.get s.now key s.mfa_pending in
      let s1 : AuthState = record s { stores = record s.stores { mfa_pending = read.1 } } in
      let found : read.0 ≡ pending_at env pending_id s = get_lem s.now key s.mfa_pending in
      let unread : pending_at env pending_id s1 ≡ pending_at env pending_id s =
        ap value_of (view-get s.now s.now key key s.mfa_pending (omega arith)) in
      rw found (found-Spends cognito code environment (pending_at env pending_id s) s1 unread h)

  -- Over any requests for one pending login that are made one after the other, each to its end before
  -- the next begins, whatever their times and the service's replies: no more codes are passed on than
  -- its challenge has attempts left, where a stored challenge has not used them up. Requests that
  -- overlap are not covered.
  pub codes_tried-bound :
      (guesses : List Guess) (s : AuthState)
      → InLimit (pending_at env pending_id s)
      → codes_tried env pending_id guesses s ≤ left (pending_at env pending_id s)
  unfolding codes_tried
  codes_tried-bound [] s h = omega arith
  codes_tried-bound (g ∷ gs) s h =
      let s1 = later g.wait s in
      let key = key_of env pending_id in
      let e = view s.mfa_pending s.now key in
      let (fewer, in_limit) = later-Spends e s1.now h in
      let same = view-later s.mfa_pending s.now s1.now key (omega arith) in
      let in_limit1 : InLimit (pending_at env pending_id s1) = rw same in_limit in
      let fewer1 : left (pending_at env pending_id s1) ≤ left (pending_at env pending_id s) =
        rw same fewer in
      let step = challenge-Spends g.cognito g.code g.environment s1 in_limit1 in
      let answered = complete_totp_challenge env g.cognito pending_id g.code g.environment s1 in
      let rest = codes_tried-bound gs answered.1 step.in_limit in
      let spent = step.spent in omega arith
