-- ===== src/Client/Provider.antt =====
-- packages/oidc-client/src/provider.ts: the documents and tokens that a web server asks of the provider.
-- `fetch` gives what comes of the n-th call and the seconds that it took; the readings of JSON bodies,
-- the URLs' parts and the signature check are parameters.
pub mod Requests
use Prim.Native.String.{◌++◌ as append}
use multi_domain_sandbox.Prelude.{
  ℕ, suc, ◌+◌, String, Option, none, some, Bool, true, false, Result, ok, err, List, [], ◌∷◌, leb,
  ltb, eqb, not, ◌&&◌, ◌==◌, if◌then◌else◌,
}
use multi_domain_sandbox.Shared.CounterStore.RateLimit.{decimal}
use multi_domain_sandbox.Shared.Jwks
use multi_domain_sandbox.Shared.Jwks.{
  Jwk, JwksError, jwks_unavailable, Outcome, no_url, thrown, bad_status, malformed, parsed,
  RemoteJwksSource, Answer, now_with, awaiting, VerifyError, expired, invalid_token, unavailable,
  verify_jwt_with_source,
}
use multi_domain_sandbox.Auth.ClientAuth.{Codec, basic_authorization}
use multi_domain_sandbox.Client.Types.{OidcClientConfig, TokenResponse}
use multi_domain_sandbox.Client.Access.{
  ProviderError, discovery_failed, jwks_failed, token_request_failed, id_token_invalid,
  invalid_grant, invalid_client,
}

pub record OidcProviderConfig : Type 0 where
  pub issuer : String
  pub backchannel_base_url : Option String

pub record Discovery : Type 0 where
  pub issuer : String
  pub authorization_endpoint : String
  pub token_endpoint : String
  pub jwks_uri : String
  pub revocation_endpoint : Option String

-- A claim of a payload: not there, a string, or another value.
pub data Claim : Type 0 where
  absent other : Claim
  text : String → Claim

pub data Audience : Type 0 where
  single : Claim → Audience
  several : List Claim → Audience

-- The claims that are read here.
pub record JwtPayload : Type 0 where
  pub sub : Claim
  pub sid : Claim
  pub nonce : Claim
  pub aud : Audience
  -- `events` is an object with the member of a back-channel logout
  pub logout_event : Bool

-- A form post with its Authorization header, or a plain GET.
pub data HttpRequest : Type 0 where
  gets : String → HttpRequest
  posts : String → String → List (String × String) → HttpRequest

-- A status, and the body's JSON or what the reading of it throws.
pub record HttpResponse (Json : Type 0) : Type 0 where
  pub status : ℕ
  pub json : Result Json String

-- What comes of a call, which may throw, and how long it took.
pub record Exchange (Json : Type 0) : Type 0 where
  pub answer : Result (HttpResponse Json) String
  pub took : ℕ

pub record OidcProvider : Type 0 where
  pub now : ℕ
  pub calls : ℕ
  pub discovery : Option Discovery
  pub jwks : RemoteJwksSource

abbrev pub Call : Type 0 → Type 0
Call A = OidcProvider → A × OidcProvider

abbrev pub pure : {A : Type 0} → A → Call A
pure a s = (a, s)

infixl 5 ◌>>=◌
abbrev pub ◌>>=◌ : {A B : Type 0} → Call A → (A → Call B) → Call B
◌>>=◌ m f s = let (a, s') = m s in f a s'

-- `res.ok`
abbrev pub is_ok_status : ℕ → Bool
is_ok_status status = leb 200 status && ltb status 300

abbrev pub status_text : ℕ → String
status_text status = append "status " (decimal status)

unfoldable pub is_text : String → Claim → Bool
is_text expected (text value) = value == expected
is_text expected claim = false

-- `Array.isArray(aud) ? aud[0] : aud`
unfoldable pub audience_of : Audience → Claim
audience_of (single claim) = claim
audience_of (several []) = absent
audience_of (several (claim ∷ claims)) = claim

unfoldable pub jwks_reason : VerifyError → ProviderError
jwks_reason (unavailable (jwks_unavailable reason)) = jwks_failed reason
jwks_reason expired = id_token_invalid "expired"
jwks_reason (invalid_token reason) = id_token_invalid reason

pub record LogoutTokenClaims : Type 0 where
  pub sid : String
  pub audience : String

-- The last two conditions of a logout token.
logout_claims : Claim → Claim → Result LogoutTokenClaims ProviderError
logout_claims (text sid) (text audience) = ok (record { sid = sid; audience = audience })
logout_claims (text sid) audience = err (id_token_invalid "aud missing")
logout_claims sid audience = err (id_token_invalid "sid missing")

-- `payload.nonce !== undefined`
abbrev is_present : Claim → Bool
is_present absent = false
is_present claim = true

unfoldable pub verify_logout_payload : JwtPayload → Result LogoutTokenClaims ProviderError
unfolding logout_claims
verify_logout_payload payload =
    if not payload.logout_event
    then err (id_token_invalid "events missing")
    else if is_present payload.nonce
    then err (id_token_invalid "nonce present")
    else logout_claims payload.sid (audience_of payload.aud)

abbrev has_text : Claim → Bool
has_text (text value) = true
has_text claim = false

unfoldable pub verify_id_payload : String → JwtPayload → Result JwtPayload ProviderError
verify_id_payload expected_nonce payload =
    if not (is_text expected_nonce payload.nonce)
    then err (id_token_invalid "nonce mismatch")
    else if not (has_text payload.sub)
    then err (id_token_invalid "sub missing")
    else ok payload
