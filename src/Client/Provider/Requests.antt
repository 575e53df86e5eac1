-- ===== src/Client/Provider/Requests.antt =====
-- packages/oidc-client/src/provider.ts: the methods of `OidcProvider`, each run with no other request
-- meanwhile. A URL that is rewritten is one that a URL schema has accepted.
use Prim.Native.String.{◌++◌ as append}
use multi_domain_sandbox.Prelude.{
  ℕ, suc, ◌+◌, String, Option, none, some, Bool, Result, ok, err, List, [], ◌∷◌, eqb, not, ◌==◌,
  if◌then◌else◌,
}
use multi_domain_sandbox.Shared.CounterStore.RateLimit.{decimal}
use multi_domain_sandbox.Shared.Jwks
use multi_domain_sandbox.Shared.Jwks.{
  Jwk, JwksError, jwks_unavailable, Outcome, no_url, thrown, bad_status, malformed, parsed,
  RemoteJwksSource, Answer, now_with, awaiting, VerifyError, expired, invalid_token, unavailable,
  verify_jwt_with_source,
}
use multi_domain_sandbox.Auth.ClientAuth.{Codec, basic_authorization}
use multi_domain_sandbox.Client.Types.{OidcClientConfig, TokenResponse}
use multi_domain_sandbox.Client.Access.{
  ProviderError, discovery_failed, jwks_failed, token_request_failed, id_token_invalid,
  invalid_grant, invalid_client,
}
use multi_domain_sandbox.Client.Provider.{
  OidcProviderConfig, Discovery, JwtPayload, HttpRequest, gets, posts, HttpResponse, Exchange, Call,
  pure, ◌>>=◌, is_ok_status, status_text, jwks_reason, LogoutTokenClaims, verify_logout_payload,
  verify_id_payload,
}

module _ {Json : Type 0} (config : OidcProviderConfig) (codec : Codec)
    (fetch : ℕ → HttpRequest → Exchange Json)
    -- a URL with another one's protocol and host
    (rebase : String → String → String) (read_discovery : Json → Option Discovery)
    (read_jwks : Json → Option (List Jwk)) (read_token_response : Json → Option TokenResponse)
    (read_jwt_kid : String → Option String)
    -- the issuer and the audience that are expected, the token and the keys
    (verify_jwt : String → Option String → String → List Jwk → Result JwtPayload VerifyError) where
  abbrev to_backchannel : String → String
  to_backchannel url = elim config.backchannel_base_url [ none ↦ url | some base ↦ rebase url base ]

  abbrev sends : HttpRequest → Call (Result (HttpResponse Json) String)
  sends request s =
      let e = fetch s.calls request in
      (e.answer, record s { now = s.now + e.took; calls = suc s.calls })

  keep_discovery : Option Discovery → Call (Result Discovery ProviderError)
  keep_discovery none s = (err (discovery_failed "malformed document"), s)
  keep_discovery (some document) s =
      if not (document.issuer == config.issuer)
      then (err (discovery_failed "issuer mismatch"), s)
      else (ok document, record s { discovery = some document })

  discovery_body : Result Json String → Call (Result Discovery ProviderError)
  unfolding keep_discovery
  discovery_body (err reason) = pure (err (discovery_failed reason))
  discovery_body (ok json) = keep_discovery (read_discovery json)

  discovery_answered : Result (HttpResponse Json) String → Call (Result Discovery ProviderError)
  unfolding discovery_body
  discovery_answered (err reason) = pure (err (discovery_failed reason))
  discovery_answered (ok res) =
      if not (is_ok_status res.status)
      then pure (err (discovery_failed (status_text res.status)))
      else discovery_body res.json

  discovery_of : Option Discovery → Call (Result Discovery ProviderError)
  unfolding discovery_answered
  discovery_of (some document) = pure (ok document)
  discovery_of none = do
    answer ←
        sends (gets (to_backchannel (append config.issuer "/.well-known/openid-configuration")))
    discovery_answered answer

  unfoldable pub get_discovery : Call (Result Discovery ProviderError)
  unfolding discovery_of
  get_discovery s = discovery_of s.discovery s

  -- What comes of the fetch of the keys, whose URL the document names.
  jwks_body : Result Json String → Outcome
  jwks_body (err reason) = thrown reason
  jwks_body (ok json) = elim (read_jwks json) [ none ↦ malformed | some keys ↦ parsed keys ]

  jwks_answered : Result (HttpResponse Json) String → Outcome
  unfolding jwks_body
  jwks_answered (err reason) = thrown reason
  jwks_answered (ok res) =
      if not (is_ok_status res.status)
      then bad_status (status_text res.status)
      else jwks_body res.json

  abbrev reason_of : ProviderError → String
  reason_of (discovery_failed reason) = reason
  reason_of (jwks_failed reason) = reason
  reason_of (token_request_failed reason) = reason
  reason_of (id_token_invalid reason) = reason
  reason_of error = ""

  jwks_located : Result Discovery ProviderError → Call Outcome
  unfolding jwks_answered
  jwks_located (err error) = pure (no_url (reason_of error))
  jwks_located (ok document) = do
    answer ← sends (gets (to_backchannel document.jwks_uri))
    pure (jwks_answered answer)

  -- `get` of the keys, with no other request meanwhile.
  source_answered : Answer → Call (Result (List Jwk) JwksError)
  unfolding jwks_located
  source_answered (now_with r) = pure r
  source_answered awaiting = do
    document ← get_discovery
    outcome ← jwks_located document
    (λ s. let (r, jwks) = Jwks.settle outcome s.jwks in (r, record s { jwks = jwks }))

  unfoldable pub source_get : Bool → Call (Result (List Jwk) JwksError)
  unfolding source_answered
  source_get force s =
      let (answer, jwks) = Jwks.get force s.now s.jwks in
      source_answered answer (record s { jwks = jwks })

  unfoldable pub verify : String → Option String → Call (Result JwtPayload ProviderError)
  verify token audience s =
      let (verified, s') =
        verify_jwt_with_source source_get read_jwt_kid (verify_jwt config.issuer audience) token
          s in
      (elim verified [ err error ↦ err (jwks_reason error) | ok payload ↦ ok payload ], s')

  unfoldable pub verify_id_token :
      String → OidcClientConfig → String → Call (Result JwtPayload ProviderError)
  verify_id_token id_token client expected_nonce s =
      let (verified, s') = verify id_token (some client.client_id) s in
      (
        elim verified [
          | err error ↦ err error
          | ok payload ↦ verify_id_payload expected_nonce payload
        ],
        s',
      )

  unfoldable pub verify_logout_token : String → Call (Result LogoutTokenClaims ProviderError)
  verify_logout_token logout_token s =
      let (verified, s') = verify logout_token none s in
      (elim verified [ err error ↦ err error | ok payload ↦ verify_logout_payload payload ], s')

  token_body : Result Json String → Result TokenResponse ProviderError
  token_body (err reason) = err (token_request_failed reason)
  token_body (ok json) = elim (read_token_response json) [
    | none ↦ err (token_request_failed "malformed token response")
    | some tokens ↦ ok tokens
  ]

  token_answered : Result (HttpResponse Json) String → Result TokenResponse ProviderError
  unfolding token_body
  token_answered (err reason) = err (token_request_failed reason)
  token_answered (ok res) =
      if eqb res.status 400
      then err invalid_grant
      else if eqb res.status 401
      then err invalid_client
      else if not (is_ok_status res.status)
      then err (token_request_failed (status_text res.status))
      else token_body res.json

  token_located :
      OidcClientConfig
      → List (String × String)
      → Result Discovery ProviderError
      → Call (Result TokenResponse ProviderError)
  unfolding token_answered
  token_located client form (err error) = pure (err error)
  token_located client form (ok document) = do
    answer ← sends (
        posts (to_backchannel document.token_endpoint)
          (basic_authorization codec client.client_id client.client_secret) form)
    pure (token_answered answer)

  unfoldable pub token_request :
      OidcClientConfig → List (String × String) → Call (Result TokenResponse ProviderError)
  unfolding token_located
  token_request client form = do document ← get_discovery; token_located client form document

  unfoldable pub exchange_code :
      OidcClientConfig → String → String → Call (Result TokenResponse ProviderError)
  exchange_code client code code_verifier = token_request client (
      ("grant_type", "authorization_code")
      ∷ ("code", code)
      ∷ ("redirect_uri", client.redirect_uri)
      ∷ ("code_verifier", code_verifier)
      ∷ [])

  unfoldable pub refresh : OidcClientConfig → String → Call (Result TokenResponse ProviderError)
  refresh client refresh_token =
      token_request client (("grant_type", "refresh_token") ∷ ("refresh_token", refresh_token) ∷ [])

  revoke_answered : Result (HttpResponse Json) String → Result (Unit {0}) ProviderError
  revoke_answered (err reason) = err (token_request_failed reason)
  revoke_answered (ok res) =
      if not (is_ok_status res.status)
      then err (token_request_failed (append "revoke status " (decimal res.status)))
      else ok tt

  revoke_at : OidcClientConfig → String → Option String → Call (Result (Unit {0}) ProviderError)
  unfolding revoke_answered
  revoke_at client refresh_token none = pure (ok tt)
  revoke_at client refresh_token (some endpoint) = do
    answer ← sends (
        posts (to_backchannel endpoint)
          (basic_authorization codec client.client_id client.client_secret)
          (("token", refresh_token) ∷ ("token_type_hint", "refresh_token") ∷ []))
    pure (revoke_answered answer)

  revoke_located :
      OidcClientConfig
      → String
      → Result Discovery ProviderError
      → Call (Result (Unit {0}) ProviderError)
  unfolding revoke_at
  revoke_located client refresh_token (err error) = pure (err error)
  revoke_located client refresh_token (ok document) =
      revoke_at client refresh_token document.revocation_endpoint

  unfoldable pub revoke : OidcClientConfig → String → Call (Result (Unit {0}) ProviderError)
  unfolding revoke_located
  revoke client refresh_token = do
    document ← get_discovery
    revoke_located client refresh_token document
