-- ===== src/Auth/RefreshTokens/Tracked.antt =====
-- refresh-tokens.ts of apps/auth-api: the operations, and the families that list the tokens.
use multi_domain_sandbox.Prelude.{
  ℕ, ◌+◌, ◌≤◌, String, ◌≡◌, refl, false, Option, none, some, arith, inl, inr, Bool-cases,
}
use multi_domain_sandbox.Shared.KvStore
use multi_domain_sandbox.Shared.KvStore.{Entry}
use multi_domain_sandbox.Shared.KvStore.View.{view, view-get_and_delete}
use multi_domain_sandbox.Shared.SetStore
use multi_domain_sandbox.Shared.SetStore.{MemorySetStore}
use multi_domain_sandbox.Shared.SetStore.View as SetView
use multi_domain_sandbox.Auth.Stores.{NewRefreshToken, RefreshToken, is_active}
use multi_domain_sandbox.Auth.State.{Env, AuthState, key_of}
use multi_domain_sandbox.Auth.RefreshTokens.{
  consume_found, revoke_refresh_token_family, describe_refresh_token_family, store_refresh_token,
  create_refresh_token_family, consume_refresh_token, rotate_refresh_token,
}
use multi_domain_sandbox.Auth.RefreshTokens.Family.{
  IsTracked, AllTracked, IsTracked-later, IsTracked-set_token, IsTracked-add, IsTracked-tokens,
  IsTracked-families, revoked_active, revoked_bounded, view-get_each,
}

abbrev pub later : ℕ → AuthState → AuthState
later n s = record s { now = s.now + n }

-- No token of the family is active, now or at any later time, unless one is written.
abbrev pub IsDead : String → AuthState → Type 0
IsDead family_id s =
    (t : ℕ) (k : String) (e : Entry RefreshToken)
    → s.now ≤ t
    → view s.refresh_tokens t k ≡ some e
    → e.value.family_id ≡ family_id
    → is_active e.value.status ≡ false

pub consume_found-AllTracked :
    (key : String) (found : Option RefreshToken) (s : AuthState)
    → AllTracked s
    → AllTracked (consume_found key found s).1
unfolding consume_found
consume_found-AllTracked key none s tr = tr
consume_found-AllTracked key (some stored) s tr = elim (Bool-cases (is_active stored.status)) [
  | inl a ↦ rw a (IsTracked-set_token tr key _ refl)
  | inr n ↦ rw n (IsTracked-set_token tr key stored n)
]

module _ (s : AuthState) (tr : AllTracked s) where
  pub later-AllTracked : (n : ℕ) → AllTracked (later n s)
  later-AllTracked n = IsTracked-later tr (s.now + n) (omega arith)

  -- In a tracked state, revoking a family leaves none of its tokens active, then or at any later time.
  pub revoke_refresh_token_family-IsDead :
      (family_id : String) → IsDead family_id (revoke_refresh_token_family family_id s).1
  unfolding revoke_refresh_token_family
  revoke_refresh_token_family-IsDead family_id t k e h p same =
      elim (Bool-cases (is_active e.value.status)) [
        | inl a ↦ absurd (
            (revoked_active s.now s.refresh_tokens s.refresh_token_families tr family_id t k e h p
                a).1
              same)
        | inr n ↦ n
      ]

  pub revoke_refresh_token_family-AllTracked :
      (family_id : String) → AllTracked (revoke_refresh_token_family family_id s).1
  unfolding revoke_refresh_token_family
  revoke_refresh_token_family-AllTracked family_id =
      IsTracked-families
        (IsTracked-tokens tr _
          (λ k e p a.
            (revoked_active s.now s.refresh_tokens s.refresh_token_families tr family_id s.now k e
              (omega arith) p a).0)
          (revoked_bounded s.now s.refresh_tokens s.refresh_token_families tr family_id))
        _ (λ k. SetView.view-members s.now s.now family_id k s.refresh_token_families (omega arith))

  pub describe_refresh_token_family-AllTracked :
      (family_id : String) → AllTracked (describe_refresh_token_family family_id s).1
  unfolding describe_refresh_token_family
  describe_refresh_token_family-AllTracked family_id =
      let keys = (SetStore.members s.now family_id s.refresh_token_families).0 in
      let same = λ (k : String). view-get_each s.now s.now k (omega arith) keys s.refresh_tokens in
      IsTracked-families
        (IsTracked-tokens tr _ (λ k e p a. rw (same k) at p)
          (λ k e p. tr.bounded k e (rw (same k) at p)))
        _ (λ k. SetView.view-members s.now s.now family_id k s.refresh_token_families (omega arith))

  module _ (env : Env) where
    pub rotate_refresh_token-AllTracked :
        (current : RefreshToken) → AllTracked (rotate_refresh_token env current s).1
    unfolding rotate_refresh_token store_refresh_token
    rotate_refresh_token-AllTracked current = IsTracked-add tr _ _

    pub create_refresh_token_family-AllTracked :
        (input : NewRefreshToken) → AllTracked (create_refresh_token_family env input s).1
    unfolding create_refresh_token_family store_refresh_token
    create_refresh_token_family-AllTracked input = IsTracked-add tr _ _

    pub consume_refresh_token-AllTracked :
        (value : String) → AllTracked (consume_refresh_token env value s).1
    unfolding consume_refresh_token
    consume_refresh_token-AllTracked value =
        let key = key_of env value in
        let taken = KvStore.get_and_delete s.now key s.refresh_tokens in
        let gone =
          λ (k : String). view-get_and_delete s.now s.now key k s.refresh_tokens (omega arith) in
        let tr' : IsTracked s.now taken.1 s.refresh_token_families =
          IsTracked-tokens tr taken.1 (λ k e p a. ground (arith, gone k))
            (λ k e p. ground (arith, gone k, tr.bounded k e)) in
        consume_found-AllTracked key taken.0
          (record s { stores = record s.stores { refresh_tokens = taken.1 } }) tr'
