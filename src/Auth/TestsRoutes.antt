-- ===== src/Auth/TestsRoutes.antt =====
-- The theorems on the routes and the client's authentication at work on the sample server. For bytes and
-- percent-encoding there stands an escape of three characters, which satisfies what is asked of Node's.
use Prim.Native.Char.{Char, code}
use text.Mathlib.TextEquality.{Char-path}
use text.Mathlib.TextLemmas.{cons≢nil}
use multi_domain_sandbox.Prelude.{
  String, ◌≡◌, ◌↔◌, refl, sym, ◌∙◌, ap, arith, none, some, true, false, [], ◌∷◌, ok, eqb,
  if◌then◌else◌, Bool-cases, inl, inr,
}
use multi_domain_sandbox.Shared.Text.{lacks}
use multi_domain_sandbox.Auth.Domain.{OidcClient}
use multi_domain_sandbox.Auth.Identity.{MemoryIdentityRepository}
use multi_domain_sandbox.Auth.Samples.{env, cms, acme, browser, state, callback, verifier}
use multi_domain_sandbox.Auth.Access.{ValidatedAuthorizationRequest}
use multi_domain_sandbox.Auth.AuthorizationRequest.{RawParams, validate_authorization_request}
use multi_domain_sandbox.Auth.AuthorizationRequest.Redirects.{
  IsAccepted, RedirectTarget, validate_authorization_request_iff,
}
use multi_domain_sandbox.Auth.ClientAuth.{
  Codec, hash_secret, authenticate_client, basic_authorization,
}
use multi_domain_sandbox.Auth.ClientAuth.Basic.{IsCodec, authenticate_client-basic_authorization}
use multi_domain_sandbox.Auth.Routes.{authorize}
use multi_domain_sandbox.Auth.Routes.Replies.{authorize-RedirectTarget}

-- `a`, the dollar sign and the colon are written as two letters.
escape : String → String
escape String.[] = ""
escape (String.◌∷◌ c s) =
    let rest = escape s in
    if eqb (code c) b'a'
    then String.◌∷◌ "a" (String.◌∷◌ "a" rest)
    else if eqb (code c) b'$'
    then String.◌∷◌ "a" (String.◌∷◌ "b" rest)
    else if eqb (code c) b':'
    then String.◌∷◌ "a" (String.◌∷◌ "c" rest)
    else String.◌∷◌ c rest

image : Char → Char
image c = if eqb (code c) b'b' then "$" else if eqb (code c) b'c' then ":" else "a"

unescape : String → String
unfolding image
unescape String.[] = ""
unescape (String.◌∷◌ c String.[]) = String.◌∷◌ c ""
unescape (String.◌∷◌ c (String.◌∷◌ d s)) =
    let rest = unescape s in
    let kept = unescape (String.◌∷◌ d s) in
    if eqb (code c) b'a' then String.◌∷◌ (image d) rest else String.◌∷◌ c kept

unescape_plain :
    (c : Char) (s : String)
    → eqb (code c) b'a' ≡ false
    → unescape (String.◌∷◌ c s) ≡ String.◌∷◌ c (unescape s)
unfolding unescape
unescape_plain c String.[] h = refl
unescape_plain c (String.◌∷◌ d s) h = rw h refl

is_char : (c d : Char) → eqb (code c) (code d) ≡ true → c ≡ d
is_char c d h = Char-path c d (ground arith)

unescape-escape : (s : String) → unescape (escape s) ≡ s
unfolding unescape escape image
unescape-escape String.[] = refl
unescape-escape (String.◌∷◌ c s) = elim (Bool-cases (eqb (code c) b'a')) [
  | inl e ↦ rw (e, is_char c "a" e) (ap (String.◌∷◌ "a") (unescape-escape s))
  | inr e ↦ elim (Bool-cases (eqb (code c) b'$')) [
    | inl f ↦ rw (e, f, is_char c "$" f) (ap (String.◌∷◌ "$") (unescape-escape s))
    | inr f ↦ elim (Bool-cases (eqb (code c) b':')) [
      | inl g ↦ rw (e, f, g, is_char c ":" g) (ap (String.◌∷◌ ":") (unescape-escape s))
      | inr g ↦ rw (e, f, g) (unescape_plain c (escape s) e ∙ ap (String.◌∷◌ c) (unescape-escape s))
    ]
  ]
]

escape_no_dollar : (s : String) → lacks b'$' (escape s) ≡ true
unfolding escape lacks
escape_no_dollar String.[] = refl
escape_no_dollar (String.◌∷◌ c s) = ground (arith, escape_no_dollar s)

escape_no_colon : (s : String) → lacks b':' (escape s) ≡ true
unfolding escape lacks
escape_no_colon String.[] = refl
escape_no_colon (String.◌∷◌ c s) = ground (arith, escape_no_colon s)

abbrev codec : Codec
codec = record {
  sha256 = λ s. s;
  to_base64url = escape;
  from_base64url = unescape;
  to_base64 = escape;
  from_base64 = unescape;
  encode_uri_component = escape;
  decode_uri_component = λ s. some (unescape s);
}

codec-IsCodec : IsCodec codec
unfolding unescape
codec-IsCodec = record {
  base64url = unescape-escape;
  no_dollar = escape_no_dollar;
  base64 = unescape-escape;
  uri = λ s. ap some (unescape-escape s);
  no_colon = escape_no_colon;
  nonempty = λ s n e. n (sym (unescape-escape s) ∙ ap unescape e);
}

abbrev with_secret : OidcClient
with_secret = record cms { secret_hashes = hash_secret codec "secret:$a" ∷ [] }

abbrev registered : MemoryIdentityRepository
registered = record state.identity { clients = with_secret ∷ [] }

authenticate_client-basic_authorization_example :
    authenticate_client codec registered (some (basic_authorization codec "cms" "secret:$a"))
    ≡ some with_secret
unfolding multi_domain_sandbox.Auth.Identity.find_client
    multi_domain_sandbox.Shared.SetStore.contains hash_secret escape
authenticate_client-basic_authorization_example =
    authenticate_client-basic_authorization codec codec-IsCodec registered with_secret "cms"
      "secret:$a" (λ e. cons≢nil e) refl refl refl

abbrev params : RawParams
params = record {
  client_id = some "cms";
  redirect_uri = some callback;
  response_type = some "code";
  state = some "state";
  nonce = some "nonce";
  code_challenge_method = some "S256";
  code_challenge = some verifier;
  scope = some "openid";
}

abbrev request : ValidatedAuthorizationRequest
request = record {
  client = cms;
  redirect_uri = callback;
  tenant = acme;
  scope = "openid";
  state = "state";
  nonce = "nonce";
  code_challenge = verifier;
}

validate_authorization_request_iff_example :
    (validate_authorization_request state.identity params ≡ ok request)
    ↔ IsAccepted state.identity params request
validate_authorization_request_iff_example =
    validate_authorization_request_iff state.identity params request

-- The state is missing, and the client is told so at its own redirect URI.
abbrev stateless : RawParams
stateless = record params { state = none }

authorize-RedirectTarget_example : RedirectTarget state.identity stateless callback
unfolding authorize validate_authorization_request multi_domain_sandbox.Auth.Identity.find_client
    multi_domain_sandbox.Shared.RedirectTemplate.match_redirect_uri_template
    multi_domain_sandbox.Shared.Strings.Slices.around
    multi_domain_sandbox.Shared.Strings.starts_with
    multi_domain_sandbox.Shared.Strings.Slices.ends_with
    multi_domain_sandbox.Shared.RedirectTemplate.is_tenant_slug
    multi_domain_sandbox.Shared.Strings.Slices.slice
    multi_domain_sandbox.Auth.Identity.find_tenant_by_slug
    multi_domain_sandbox.Auth.Routes.respond_validation_error
authorize-RedirectTarget_example =
    authorize-RedirectTarget env stateless none browser state callback
      (("error", some "invalid_request")
        ∷ ("error_description", some "state is required")
        ∷ ("state", none)
        ∷ [])
      refl
