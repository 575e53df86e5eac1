-- ===== src/Auth/Token/Replay.antt =====
-- token.ts of apps/auth-api: a refresh token that is shown again later.
use multi_domain_sandbox.Prelude.{
  String, ◌≡◌, ◌≢◌, refl, sym, ◌∙◌, false, Option, none, some, ok, err, arith, ap,
}
use multi_domain_sandbox.Shared.KvStore
use multi_domain_sandbox.Shared.KvStore.{Entry, value_of}
use multi_domain_sandbox.Shared.KvStore.View.{view, view-get, get_and_delete_lem}
use multi_domain_sandbox.Auth.Domain.{OidcClient}
use multi_domain_sandbox.Auth.Stores.{RefreshToken, is_active}
use multi_domain_sandbox.Auth.State.{Env, AuthState, key_of}
use multi_domain_sandbox.Auth.RefreshTokens.{consume_refresh_token, consume_found}
use multi_domain_sandbox.Auth.RefreshTokens.Family.{AllTracked}
use multi_domain_sandbox.Auth.RefreshTokens.Tracked.{IsDead}
use multi_domain_sandbox.Auth.RefreshTokens.Dead.{
  DeadIn-get_and_delete, IsDead-consume_found, IsDead-revoke,
}
use multi_domain_sandbox.Auth.Token.{
  TokenResponse, TokenError, exchange_authorization_code, refresh_access_token,
  revoke_refresh_token,
}
use multi_domain_sandbox.Auth.Token.Refresh.{refused-IsDead}
use multi_domain_sandbox.Auth.Token.Dead.{
  Spared, exchange, refresh, revoke, revoke_family, elsewhere, wait, here, both, redeem-IsDead,
  refresh_with-IsDead, revoke_found-IsDead,
}
use multi_domain_sandbox.Auth.Token.SoundRefresh.{
  consume_found_current, refresh_access_token-MayRefresh,
}

module _ (family_id : String) where
  -- What the store holds of a dead family is not active.
  held_inactive :
      (s : AuthState) (key : String) (o : Option (Entry RefreshToken)) (token : RefreshToken)
      → IsDead family_id s
      → view s.refresh_tokens s.now key ≡ o
      → value_of o ≡ some token
      → token.family_id ≡ family_id
      → is_active token.status ≡ false
  held_inactive s key none token dead p q same = cc
  held_inactive s key (some e) token dead p q same =
      let eq : e.value ≡ token = cc in
      rw eq at (dead s.now key e (omega arith) p (ap (λ (t : RefreshToken). t.family_id) eq ∙ same))

  refresh-IsDead :
      (env : Env) (client : OidcClient) (value : String) (s : AuthState)
      → IsDead family_id s
      → IsDead family_id (refresh_access_token env client value s).1
  unfolding refresh_access_token consume_refresh_token
  refresh-IsDead env client value s dead =
      let key = key_of env value in
      let taken = KvStore.get_and_delete s.now key s.refresh_tokens in
      let s1 : AuthState = record s { stores = record s.stores { refresh_tokens = taken.1 } } in
      let result = consume_found key taken.0 s1 in
      refresh_with-IsDead env family_id client result.0 result.1
        (λ stored current same.
          let (found, active_now) =
            consume_found_current env client key taken.0 s1 stored current in
          let spent =
            held_inactive s key (view s.refresh_tokens s.now key) stored dead refl
              (sym (get_and_delete_lem s.now key s.refresh_tokens) ∙ found) same in
          cc (active_now, spent))
        (IsDead-consume_found family_id key taken.0 s1
          (DeadIn-get_and_delete family_id s.now key s.refresh_tokens dead))

  revoke-IsDead :
      (env : Env) (client : OidcClient) (value : String) (s : AuthState)
      → IsDead family_id s
      → IsDead family_id (revoke_refresh_token env client value s).1
  unfolding revoke_refresh_token
  revoke-IsDead env client value s dead =
      let key = key_of env value in
      let read = KvStore.get s.now key s.refresh_tokens in
      let s1 : AuthState = record s { stores = record s.stores { refresh_tokens = read.1 } } in
      let dead1 : IsDead family_id s1 =
        λ t k e h p same. dead t k e h (rw (view-get s.now t key k s.refresh_tokens h) at p) same in
      revoke_found-IsDead env family_id client read.0 s1 dead1

  Spared-IsDead :
      (env : Env) {s s' : AuthState}
      → Spared env family_id s s'
      → IsDead family_id s
      → IsDead family_id s'
  unfolding exchange_authorization_code
  Spared-IsDead env (exchange client input s fresh) dead =
      let key = key_of env input.code in
      let taken = KvStore.get_and_delete s.now key s.authorization_codes in
      redeem-IsDead env family_id client input key taken.0
        (record s { stores = record s.stores { authorization_codes = taken.1 } }) fresh dead
  Spared-IsDead env (refresh client value s) dead = refresh-IsDead env client value s dead
  Spared-IsDead env (revoke client value s) dead = revoke-IsDead env client value s dead
  Spared-IsDead env (revoke_family other s) dead = IsDead-revoke family_id other s dead
  Spared-IsDead env (elsewhere s s' clock same) dead =
      λ t k e h p. dead t k e (rw (← clock) h) (rw same at p)
  Spared-IsDead env (wait seconds s) dead = λ t k e h p same. dead t k e (omega arith) p same
  Spared-IsDead env (here s) dead = dead
  Spared-IsDead env (both first second) dead =
      Spared-IsDead env second (Spared-IsDead env first dead)

-- In a tracked state, once a refresh of a stored token is refused, no token of its family is ever
-- refreshed again: not at any later time, by any client, after any requests to the token and the revocation
-- endpoint whose new families have another identifier, revocations of families, and whatever else leaves
-- the stored refresh tokens as they are.
pub refused_for_good :
    (env : Env) (client : OidcClient) (value : String) (s s' : AuthState) (stored : RefreshToken)
    (error : TokenError)
    → AllTracked s
    → value_of (view s.refresh_tokens s.now (key_of env value)) ≡ some stored
    → (refresh_access_token env client value s).0 ≡ err error
    → Spared env stored.family_id (refresh_access_token env client value s).1 s'
    → (client' : OidcClient) (value' : String) (token : RefreshToken) (response : TokenResponse)
    → value_of (view s'.refresh_tokens s'.now (key_of env value')) ≡ some token
    → token.family_id ≡ stored.family_id
    → (refresh_access_token env client' value' s').0 ≢ ok response
refused_for_good env client value s s' stored error tr held refused spared client' value' token
      response held' same p =
    let may = refresh_access_token-MayRefresh env client' value' s' response p in
    let one : may.token ≡ token = cc (may.stored, held') in
    let spent =
      held_inactive stored.family_id s' (key_of env value')
        (view s'.refresh_tokens s'.now (key_of env value')) token
        (Spared-IsDead stored.family_id env spared
          (refused-IsDead env client value s stored error tr held refused))
        refl held' same in
    cc (may.is_current, one, spent)
