-- ===== src/Auth/RefreshTokens/Dead.antt =====
-- refresh-tokens.ts of apps/auth-api: the operations, and a family that was revoked.
use multi_domain_sandbox.Prelude.{
  ℕ, ◌≤◌, String, ◌≡◌, ◌≢◌, refl, true, false, Option, none, some, arith, Bool-cases, inl, inr, ◌⊎◌,
  List,
}
use multi_domain_sandbox.Shared.KvStore
use multi_domain_sandbox.Shared.KvStore.{Entry, value_of}
use multi_domain_sandbox.Shared.KvStore.View.{view, view-set, view-get_and_delete}
use multi_domain_sandbox.Shared.SetStore
use multi_domain_sandbox.Auth.Stores.{RefreshToken, is_active}
use multi_domain_sandbox.Auth.State.{AuthState}
use multi_domain_sandbox.Auth.SsoSession.Frame.{Untouched}
use multi_domain_sandbox.Auth.RefreshTokens.{
  consume_found, revoke_refresh_token_family, describe_refresh_token_family, set_token, get_each,
  set_revoked,
}
use multi_domain_sandbox.Auth.RefreshTokens.Family.{Tokens, ttl, view-get_each, set_revoked_active}
use multi_domain_sandbox.Auth.RefreshTokens.Tracked.{IsDead}

module _ (family_id : String) where
  abbrev pub DeadIn : ℕ → Tokens → Type 0
  DeadIn now tokens =
      (t : ℕ) (k : String) (e : Entry RefreshToken)
      → now ≤ t
      → view tokens t k ≡ some e
      → e.value.family_id ≡ family_id
      → is_active e.value.status ≡ false

  -- Writes whose active tokens were there before.
  pub DeadIn-write :
      (now : ℕ) (tokens tokens' : Tokens)
      → ((t : ℕ) (k : String) (e : Entry RefreshToken)
          → now ≤ t
          → view tokens' t k ≡ some e
          → is_active e.value.status ≡ true
          → view tokens t k ≡ some e)
      → DeadIn now tokens
      → DeadIn now tokens'
  DeadIn-write now tokens tokens' kept dead t k e h p same =
      elim (Bool-cases (is_active e.value.status)) [
        | inl a ↦ dead t k e h (kept t k e h p a) same
        | inr n ↦ n
      ]

  pub DeadIn-set :
      (now : ℕ) (key : String) (token : RefreshToken) (tokens : Tokens)
      → (token.family_id ≢ family_id) ⊎ (is_active token.status ≡ false)
      → DeadIn now tokens
      → DeadIn now (set_token now key token tokens)
  unfolding set_token
  DeadIn-set now key token tokens (inl other) dead t k e h p same =
      ground (arith, view-set now t key k tokens h token ttl, dead t k e h, other)
  DeadIn-set now key token tokens (inr inactive) dead t k e h p same =
      ground (arith, view-set now t key k tokens h token ttl, dead t k e h)

  pub DeadIn-get_and_delete :
      (now : ℕ) (key : String) (tokens : Tokens)
      → DeadIn now tokens
      → DeadIn now (KvStore.get_and_delete now key tokens).1
  DeadIn-get_and_delete now key tokens dead =
      DeadIn-write now tokens (KvStore.get_and_delete now key tokens).1
        (λ t k e h p a. ground (arith, view-get_and_delete now t key k tokens h)) dead

  pub DeadIn-get_each :
      (now : ℕ) (keys : List String) (tokens : Tokens)
      → DeadIn now tokens
      → DeadIn now (get_each now keys tokens).1
  DeadIn-get_each now keys tokens dead t k e h p same =
      dead t k e h (rw (view-get_each now t k h keys tokens) at p) same

  pub IsDead-revoke :
      (other : String) (s : AuthState)
      → IsDead family_id s
      → IsDead family_id (revoke_refresh_token_family other s).1
  unfolding revoke_refresh_token_family
  IsDead-revoke other s dead =
      let keys = (SetStore.members s.now other s.refresh_token_families).0 in
      let records = get_each s.now keys s.refresh_tokens in
      DeadIn-write s.now records.1 (set_revoked s.now records.0 records.1)
        (λ t k e h p a. (set_revoked_active s.now t k h records.0 records.1 e p a).0)
        (DeadIn-get_each s.now keys s.refresh_tokens dead)

  pub IsDead-describe :
      (other : String) (s : AuthState)
      → IsDead family_id s
      → IsDead family_id (describe_refresh_token_family other s).1
  unfolding describe_refresh_token_family
  IsDead-describe other s dead =
      DeadIn-get_each s.now (SetStore.members s.now other s.refresh_token_families).0
        s.refresh_tokens dead

  pub IsDead-consume_found :
      (key : String) (found : Option RefreshToken) (s : AuthState)
      → IsDead family_id s
      → IsDead family_id (consume_found key found s).1
  unfolding consume_found
  IsDead-consume_found key none s dead = dead
  IsDead-consume_found key (some stored) s dead = elim (Bool-cases (is_active stored.status)) [
    | inl a ↦ rw a (DeadIn-set s.now key _ s.refresh_tokens (inr refl) dead)
    | inr n ↦ rw n (DeadIn-set s.now key stored s.refresh_tokens (inr n) dead)
  ]

  pub IsDead-Untouched :
      {s s' : AuthState} → Untouched s s' → IsDead family_id s → IsDead family_id s'
  IsDead-Untouched u dead t k e h p same =
      dead t k e (rw u.now at h) (rw u.refresh_tokens at p) same
