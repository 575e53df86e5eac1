-- ===== src/Auth/ClientAuth.antt =====
-- packages/shared/src/secret-hash.ts, `authenticateClient` of
-- apps/auth-api/src/application/usecases/token.ts, and `formHeaders` of
-- packages/oidc-client/src/provider.ts. What Node does to bytes and percent-encoding is the record `Codec`.
pub mod Basic
use Prim.Native.String.{◌++◌ as append}
use multi_domain_sandbox.Prelude.{
  ℕ, String, Option, none, some, Bool, true, false, List, [], ◌∷◌, ◌||◌, ◌&&◌, ◌==◌, if◌then◌else◌,
}
use multi_domain_sandbox.Shared.Text.{split}
use multi_domain_sandbox.Shared.Strings.{strip}
use multi_domain_sandbox.Shared.Strings.Slices.{around}
use multi_domain_sandbox.Auth.Domain.{OidcClient, is_active_client}
use multi_domain_sandbox.Auth.Identity
use multi_domain_sandbox.Auth.Identity.{MemoryIdentityRepository}

pub record Codec : Type 0 where
  -- the SHA-256 digest, and base64url both ways
  pub sha256 : String → String
  pub to_base64url : String → String
  pub from_base64url : String → String
  -- base64, and the UTF-8 text of what it decodes to
  pub to_base64 : String → String
  pub from_base64 : String → String
  pub encode_uri_component : String → String
  -- none where the percent-encoding is malformed
  pub decode_uri_component : String → Option String

module _ (codec : Codec) where
  unfoldable pub hash_secret : String → String
  hash_secret secret = append "sha256$" (codec.to_base64url (codec.sha256 secret))

  secret_parts : List String → String → Bool
  secret_parts (algorithm ∷ hash_part ∷ []) secret =
      algorithm == "sha256" && codec.from_base64url hash_part == codec.sha256 secret
  secret_parts parts secret = false

  unfoldable pub verify_secret : String → String → Bool
  unfolding secret_parts
  verify_secret secret stored = secret_parts (split b'$' stored) secret

  unfoldable pub verify_secret_against_any : String → List String → Bool
  verify_secret_against_any secret [] = false
  verify_secret_against_any secret (hash ∷ hashes) =
      verify_secret secret hash || verify_secret_against_any secret hashes

  authenticate_found : Option OidcClient → String → Option OidcClient
  authenticate_found none secret = none
  authenticate_found (some client) secret =
      if is_active_client client.status
      then if verify_secret_against_any secret client.secret_hashes then some client else none
      else none

  authenticate_decoded :
      MemoryIdentityRepository → Option String → Option String → Option OidcClient
  unfolding authenticate_found
  authenticate_decoded identity (some client_id) (some client_secret) =
      authenticate_found (Identity.find_client identity client_id) client_secret
  authenticate_decoded identity client_id client_secret = none

  -- `indexOf(":") <= 0`: there is no colon, or nothing stands before it.
  authenticate_parts : MemoryIdentityRepository → Option (String × String) → Option OidcClient
  unfolding authenticate_decoded
  authenticate_parts identity none = none
  authenticate_parts identity (some (before, rest)) =
      if before == ""
      then none
      else authenticate_decoded identity (codec.decode_uri_component before)
          (codec.decode_uri_component rest)

  authenticate_basic : MemoryIdentityRepository → Option String → Option OidcClient
  unfolding authenticate_parts
  authenticate_basic identity none = none
  authenticate_basic identity (some credentials) =
      authenticate_parts identity (around ":" (codec.from_base64 credentials))

  -- The one error is `invalid_client`.
  unfoldable pub authenticate_client : MemoryIdentityRepository → Option String → Option OidcClient
  unfolding authenticate_basic
  authenticate_client identity none = none
  authenticate_client identity (some header) = authenticate_basic identity (strip "Basic " header)

  -- The Authorization header that a web server sends with its client's identifier and secret.
  unfoldable pub basic_authorization : String → String → String
  basic_authorization client_id client_secret = append "Basic " (
      codec.to_base64 (
        append (codec.encode_uri_component client_id)
          (append ":" (codec.encode_uri_component client_secret))))
