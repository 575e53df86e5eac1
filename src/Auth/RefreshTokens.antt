-- ===== src/Auth/RefreshTokens.antt =====
-- apps/auth-api/src/application/usecases/refresh-tokens.ts.
pub mod Family
pub mod Tracked
pub mod Dead
pub mod Refs
use Prim.Native.String.{◌++◌ as append}
use multi_domain_sandbox.Prelude.{ℕ, String, Option, none, some, List, [], ◌∷◌, Bool, if◌then◌else◌}
use multi_domain_sandbox.Shared.KvStore
use multi_domain_sandbox.Shared.KvStore.{MemoryKeyValueStore}
use multi_domain_sandbox.Shared.SetStore
use multi_domain_sandbox.Shared.Text.{split}
use multi_domain_sandbox.Auth.Domain.{refresh_token_ttl_seconds}
use multi_domain_sandbox.Auth.Stores.{
  NewRefreshToken, RefreshToken, RefreshTokenStatus, active, rotated, revoked, is_active,
}
use multi_domain_sandbox.Auth.State.{
  Env, Eff, pure, ◌>>=◌, ◌>>◌, on_refresh_tokens, on_refresh_token_families,
  on_sid_refresh_families, done, key_of, random_token, token_bytes,
}

pub record IssuedRefreshToken : Type 0 where
  pub value : String
  pub token : RefreshToken

pub record RefreshFamilyRef : Type 0 where
  pub family_id : String
  pub client_id : String
  pub tenant_id : String

pub data ConsumeResult : Type 0 where
  consumed : RefreshToken → ConsumeResult
  unknown : ConsumeResult
  reused : RefreshToken → ConsumeResult

-- The parts joined by ":".
unfoldable pub encode_family_ref : RefreshFamilyRef → String
encode_family_ref ref =
    append ref.client_id (append ":" (append ref.tenant_id (append ":" ref.family_id)))

abbrev three_parts : List String → Option RefreshFamilyRef
three_parts (client_id ∷ tenant_id ∷ family_id ∷ _) =
    some (record { family_id = family_id; client_id = client_id; tenant_id = tenant_id })
three_parts _ = none

unfoldable pub decode_family_ref : String → Option RefreshFamilyRef
decode_family_ref member = three_parts (split b':' member)

decode_each : List String → List RefreshFamilyRef
decode_each [] = []
decode_each (m ∷ ms) = elim (decode_family_ref m) [
  | none ↦ decode_each ms
  | some ref ↦ ref ∷ decode_each ms
]

unfoldable pub list_refresh_families : String → Eff (List RefreshFamilyRef)
unfolding decode_each decode_family_ref
list_refresh_families sid = do
  members ← on_sid_refresh_families (λ now. SetStore.members now sid)
  pure (decode_each members)

unfoldable pub set_token :
    ℕ → String → RefreshToken → MemoryKeyValueStore RefreshToken → MemoryKeyValueStore RefreshToken
set_token now key token tokens = KvStore.set now key token refresh_token_ttl_seconds tokens

unfoldable pub get_each :
    ℕ
    → List String
    → MemoryKeyValueStore RefreshToken
    → List (String × Option RefreshToken) × MemoryKeyValueStore RefreshToken
get_each now [] tokens = ([], tokens)
get_each now (key ∷ keys) tokens =
    let (stored, tokens') = KvStore.get now key tokens in
    let (rest, tokens'') = get_each now keys tokens' in ((key, stored) ∷ rest, tokens'')

-- `{ ...stored, status: "revoked" }` under each key that held a token
unfoldable pub set_revoked :
    ℕ
    → List (String × Option RefreshToken)
    → MemoryKeyValueStore RefreshToken
    → MemoryKeyValueStore RefreshToken
unfolding set_token
set_revoked now [] tokens = tokens
set_revoked now ((key, none) ∷ rest) tokens = set_revoked now rest tokens
set_revoked now ((key, some stored) ∷ rest) tokens =
    set_revoked now rest (set_token now key (record stored { status = revoked }) tokens)

unfoldable pub revoke_refresh_token_family : String → Eff (Unit {0})
revoke_refresh_token_family family_id = do
  keys ← on_refresh_token_families (λ now. SetStore.members now family_id)
  records ← on_refresh_tokens (λ now. get_each now keys)
  on_refresh_tokens (done (λ now. set_revoked now records))

abbrev first_some : List (String × Option RefreshToken) → Option RefreshToken
first_some [] = none
first_some ((key, none) ∷ rest) = first_some rest
first_some ((key, some t) ∷ rest) = some t

unfoldable pub describe_refresh_token_family : String → Eff (Option RefreshToken)
describe_refresh_token_family family_id = do
  keys ← on_refresh_token_families (λ now. SetStore.members now family_id)
  records ← on_refresh_tokens (λ now. get_each now keys)
  pure (first_some records)

-- What was taken out goes back: spent, or as it was where it had been spent before.
unfoldable pub consume_found : String → Option RefreshToken → Eff ConsumeResult
consume_found key none = pure unknown
consume_found key (some stored) =
    if is_active stored.status
    then (do
      on_refresh_tokens (done (λ now. set_token now key (record stored { status = rotated })))
      pure (consumed stored))
    else (do on_refresh_tokens (done (λ now. set_token now key stored)); pure (reused stored))

module _ (env : Env) where
  unfoldable pub store_refresh_token : NewRefreshToken → String → Eff IssuedRefreshToken
  unfolding set_token
  store_refresh_token input family_id = do
    value ← random_token env token_bytes
    let token : RefreshToken = record { family_id = family_id; grant = input; status = active }
    on_refresh_tokens (done (λ now. set_token now (key_of env value) token))
    pure (record { value = value; token = token })

  unfoldable pub create_refresh_token_family : NewRefreshToken → Eff IssuedRefreshToken
  create_refresh_token_family input = do
    family_id ← random_token env 16
    issued ← store_refresh_token input family_id
    on_refresh_token_families (
        done
          (λ now. SetStore.add now family_id (key_of env issued.value) refresh_token_ttl_seconds))
    on_sid_refresh_families (
        done (λ now.
          SetStore.add now input.sid
            (encode_family_ref (record {
              family_id = family_id;
              client_id = input.client_id;
              tenant_id = input.tenant_id;
            }))
            refresh_token_ttl_seconds))
    pure issued

  unfoldable pub consume_refresh_token : String → Eff ConsumeResult
  unfolding consume_found
  consume_refresh_token value = do
    let key = key_of env value
    found ← on_refresh_tokens (λ now. KvStore.get_and_delete now key)
    consume_found key found

  unfoldable pub rotate_refresh_token : RefreshToken → Eff IssuedRefreshToken
  rotate_refresh_token current = do
    next ← store_refresh_token current.grant current.family_id
    on_refresh_token_families (
        done (λ now.
          SetStore.add now current.family_id (key_of env next.value) refresh_token_ttl_seconds))
    pure next
