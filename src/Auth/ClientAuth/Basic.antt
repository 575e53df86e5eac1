-- ===== src/Auth/ClientAuth/Basic.antt =====
-- The header that a web server sends authenticates it at the authorization server.
use Prim.Native.String.{◌++◌ as append}
use text.Mathlib.TextLemmas.{nil-append, cons-append, append_assoc}
use multi_domain_sandbox.Prelude.{
  String, ◌≡◌, ◌≢◌, refl, ◌∙◌, ap, arith, some, true, false, List, [], ◌∷◌, ◌==◌, eq_iff,
}
use multi_domain_sandbox.Shared.Text.{lacks, split, split-append, split_free}
use multi_domain_sandbox.Shared.SetStore.{contains}
use multi_domain_sandbox.Shared.Strings.{strip-append}
use multi_domain_sandbox.Shared.Strings.Slices.{around-lacks}
use multi_domain_sandbox.Auth.Domain.{OidcClient, is_active_client}
use multi_domain_sandbox.Auth.Identity
use multi_domain_sandbox.Auth.Identity.{MemoryIdentityRepository}
use multi_domain_sandbox.Auth.ClientAuth.{
  Codec, hash_secret, secret_parts, verify_secret, verify_secret_against_any, authenticate_found,
  authenticate_decoded, authenticate_parts, authenticate_basic, authenticate_client,
  basic_authorization,
}

-- What the encodings are documented to do: each is undone by its decoding, base64url has no dollar sign, and
-- percent-encoding leaves no colon and encodes nothing but the empty text to the empty text.
pub record IsCodec (codec : Codec) : Type 0 where
  pub base64url : (s : String) → codec.from_base64url (codec.to_base64url s) ≡ s
  pub no_dollar : (s : String) → lacks b'$' (codec.to_base64url s) ≡ true
  pub base64 : (s : String) → codec.from_base64 (codec.to_base64 s) ≡ s
  pub uri : (s : String) → codec.decode_uri_component (codec.encode_uri_component s) ≡ some s
  pub no_colon : (s : String) → lacks b':' (codec.encode_uri_component s) ≡ true
  pub nonempty : (s : String) → s ≢ "" → codec.encode_uri_component s ≢ ""

dollar : (s : String) → append "sha256$" s ≡ append "sha256" (String.◌∷◌ "$" s)
dollar s =
    append_assoc "sha256" "$" s
    ∙ ap (append "sha256") (cons-append "$" "" s ∙ ap (String.◌∷◌ "$") (nil-append s))

module _ (codec : Codec) (ok_codec : IsCodec codec) where
  -- A secret is verified against its own hash.
  verify_secret-hash_secret :
      (secret : String) → verify_secret codec secret (hash_secret codec secret) ≡ true
  unfolding verify_secret hash_secret secret_parts lacks
  verify_secret-hash_secret secret =
      let hash = codec.to_base64url (codec.sha256 secret) in
      let parts : split b'$' (append "sha256$" hash) ≡ "sha256" ∷ hash ∷ [] = rw (dollar hash) (
        split-append b'$' "sha256" "$" hash refl refl
        ∙ ap (λ x. "sha256" ∷ x)
            (split_free b'$' hash (ok_codec.no_dollar (codec.sha256 secret)))) in
      rw (parts, ok_codec.base64url (codec.sha256 secret))
        (ground (arith, eq_iff (codec.sha256 secret) (codec.sha256 secret)))

  verified_any :
      (secret : String) (hashes : List String)
      → contains (hash_secret codec secret) hashes ≡ true
      → verify_secret_against_any codec secret hashes ≡ true
  unfolding verify_secret_against_any contains
  verified_any secret [] h = ground arith
  verified_any secret (x ∷ xs) h = ground (
    arith,
    verified_any secret xs,
    verify_secret-hash_secret secret,
    eq_iff x (hash_secret codec secret),
  )

  -- With codecs that read back what they write, a web server that sends its client's identifier and a
  -- secret whose hash is registered is authenticated as that client, whatever characters the two have,
  -- where the client is active and the identifier not empty.
  pub authenticate_client-basic_authorization :
      (identity : MemoryIdentityRepository) (client : OidcClient) (client_id client_secret : String)
      → client_id ≢ ""
      → Identity.find_client identity client_id ≡ some client
      → is_active_client client.status ≡ true
      → contains (hash_secret codec client_secret) client.secret_hashes ≡ true
      → authenticate_client codec identity
          (some (basic_authorization codec client_id client_secret))
        ≡ some client
  unfolding authenticate_client authenticate_basic authenticate_parts authenticate_decoded
      authenticate_found basic_authorization
  authenticate_client-basic_authorization identity client client_id client_secret n f a h =
      let id = codec.encode_uri_component client_id in
      let secret = codec.encode_uri_component client_secret in
      let named : (id == "") ≡ false =
        ground (arith, eq_iff id "", ok_codec.nonempty client_id n) in
      rw
        (
          strip-append,
          ok_codec.base64 (append id (append ":" secret)),
          around-lacks ":" id secret (ok_codec.no_colon client_id),
          named,
          ok_codec.uri client_id,
          ok_codec.uri client_secret,
          f,
          a,
          verified_any client_secret client.secret_hashes h,
        )
        refl
