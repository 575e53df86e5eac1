-- ===== src/Shared/TestsKeys.antt =====
-- The theorems of the redirect templates and of the sources of keys at concrete values.
use multi_domain_sandbox.Prelude.{
  ℕ, ◌+◌, ◌*◌, ◌≤◌, String, ◌≡◌, ◌≢◌, ◌↔◌, refl, true, false, Option, none, some, List, [], ◌∷◌,
  Result, ok, arith,
}
use multi_domain_sandbox.Shared.Strings.Slices.{around}
use multi_domain_sandbox.Shared.RedirectTemplate.{
  placeholder, is_tenant_slug, expand_redirect_uri_template, match_redirect_uri_template,
}
use multi_domain_sandbox.Shared.RedirectTemplate.Match.{match_redirect_uri_template_iff}
use multi_domain_sandbox.Shared.Jwks.{
  Jwk, RemoteJwksSource, VerifyError, thrown, parsed, get_alone, has_kid, verify_jwt_with_source,
}
use multi_domain_sandbox.Shared.Jwks.Fetches.{
  Event, asks, fetched, elapsed, fetches, is_cached, fetches-bound,
}
use multi_domain_sandbox.Shared.Jwks.Available.{AllTold, always_answers, verify_after_rotation}

abbrev template : String
template = "https://{tenant}.cms.example/callback"

match_redirect_uri_template_iff_example :
    (match_redirect_uri_template template "https://acme.cms.example/callback" ≡ some "acme") ↔ (
      (around placeholder template ≢ none)
      × ((expand_redirect_uri_template template "acme" ≡ "https://acme.cms.example/callback")
          × (is_tenant_slug "acme" ≡ true)))
match_redirect_uri_template_iff_example =
    match_redirect_uri_template_iff template "https://acme.cms.example/callback" "acme"

abbrev old_keys : List Jwk
old_keys = record { kid = some "k1"; material = "a" } ∷ []

abbrev new_keys : List Jwk
new_keys = record { kid = some "k2"; material = "b" } ∷ []

abbrev source : RemoteJwksSource
source = record { cached = some old_keys; attempted_at = 1000; forced_at = 0; inflight = false }

-- A forced call at 1001, a failed fetch a second later, and calls at 1003, 1062 and 1662.
abbrev history : List (ℕ × Event)
history =
    (0, asks true)
    ∷ (1, fetched (thrown "refused"))
    ∷ (1, asks true)
    ∷ (59, asks true)
    ∷ (600, asks false)
    ∷ []

fetches-bound_example :
    (forced : ℕ) × ((unforced : ℕ) × ((fetches 1001 history source ≤ forced + unforced)
        × ((source.forced_at + 60 * forced ≤ 1001 + elapsed history)
            × (source.attempted_at + 600 * unforced ≤ 1001 + elapsed history))))
unfolding is_cached
fetches-bound_example = fetches-bound 1001 history source refl (omega arith) (omega arith)

always_answers_example : AllTold 1001 history old_keys source
always_answers_example = always_answers 1001 history old_keys source refl

abbrev read_jwt_kid : String → Option String
read_jwt_kid token = some "k2"

abbrev verify_jwt : String → List Jwk → Result String VerifyError
verify_jwt token keys = ok token

verify_after_rotation_example :
    (verify_jwt_with_source
      (λ force. get_alone (λ now. parsed new_keys) force 1001)
      read_jwt_kid
      verify_jwt
      "token"
      source).0
    ≡ verify_jwt "token" new_keys
unfolding has_kid
verify_after_rotation_example =
    verify_after_rotation read_jwt_kid verify_jwt (λ now. parsed new_keys) "token" "k2" 1001
      old_keys new_keys source refl refl (omega arith) (omega arith) refl refl
