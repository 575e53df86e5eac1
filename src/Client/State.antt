-- ===== src/Client/State.antt =====
-- packages/oidc-client/src/types.ts: `OidcClientDeps`. An operation is an action on `ClientState`. The
-- clock's reading is part of the state, since it moves while an operation waits for the network.
use multi_domain_sandbox.Prelude.{ℕ, suc, String}
use multi_domain_sandbox.Shared.KvStore.{MemoryKeyValueStore}
use multi_domain_sandbox.Shared.SetStore.{MemorySetStore}
use multi_domain_sandbox.Client.Types.{TenantSession, PreAuthState}

pub record ClientState : Type 0 where
  pub now : ℕ
  pub draws : ℕ
  pub sessions : MemoryKeyValueStore TenantSession
  pub sessions_by_sid : MemorySetStore
  pub pre_auth : MemoryKeyValueStore PreAuthState
  pub refresh_locks : MemoryKeyValueStore String

abbrev pub Act : Type 0 → Type 0
Act A = ClientState → A × ClientState

abbrev pub pure : {A : Type 0} → A → Act A
pure a s = (a, s)

infixl 5 ◌>>=◌ ◌>>◌
abbrev pub ◌>>=◌ : {A B : Type 0} → Act A → (A → Act B) → Act B
◌>>=◌ m f s = let (a, s') = m s in f a s'

abbrev pub ◌>>◌ : {A B : Type 0} → Act A → Act B → Act B
◌>>◌ m k s = let (a, s') = m s in k s'

abbrev pub gets : {A : Type 0} → (ClientState → A) → Act A
gets f s = (f s, s)

-- A call of a method of one store, at the clock's reading.
module _ {A : Type 0} where
  abbrev pub on_sessions :
      (ℕ → MemoryKeyValueStore TenantSession → A × MemoryKeyValueStore TenantSession) → Act A
  on_sessions f s = let (a, st) = f s.now s.sessions in (a, record s { sessions = st })

  abbrev pub on_sessions_by_sid : (ℕ → MemorySetStore → A × MemorySetStore) → Act A
  on_sessions_by_sid f s =
      let (a, st) = f s.now s.sessions_by_sid in (a, record s { sessions_by_sid = st })

  abbrev pub on_pre_auth :
      (ℕ → MemoryKeyValueStore PreAuthState → A × MemoryKeyValueStore PreAuthState) → Act A
  on_pre_auth f s = let (a, st) = f s.now s.pre_auth in (a, record s { pre_auth = st })

  abbrev pub on_refresh_locks :
      (ℕ → MemoryKeyValueStore String → A × MemoryKeyValueStore String) → Act A
  on_refresh_locks f s =
      let (a, st) = f s.now s.refresh_locks in (a, record s { refresh_locks = st })

-- A method that returns nothing.
abbrev pub done {ℓ} : {S : Type ℓ} → (ℕ → S → S) → ℕ → S → Unit {0} × S
done f now s = (tt, f now s)

-- The n-th random value of so many bytes, in base64url.
abbrev pub RandomBytes : Type 0
RandomBytes = ℕ → ℕ → String

abbrev pub random_token : RandomBytes → ℕ → Act String
random_token random bytes s = (random bytes s.draws, record s { draws = suc s.draws })

-- The size of a token where `randomToken` is called with no argument.
abbrev pub token_bytes : ℕ
token_bytes = 32
