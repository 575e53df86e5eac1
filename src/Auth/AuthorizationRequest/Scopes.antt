-- ===== src/Auth/AuthorizationRequest/Scopes.antt =====
-- The scopes of an authorization request that a client may have.
use multi_domain_sandbox.Prelude.{String, ◌≡◌, refl, true, none, List, [], ◌∷◌, arith}
use multi_domain_sandbox.Shared.SetStore.{contains}
use multi_domain_sandbox.Auth.Domain.{OidcClient, supported_scopes}
use multi_domain_sandbox.Auth.AuthorizationRequest.{unsupported_scope}

-- Each of them is one of the server's and one of the client's.
unfoldable pub AllAllowed : OidcClient → List String → Type 0
AllAllowed client [] = Unit {0}
AllAllowed client (scope ∷ scopes) =
    (contains scope supported_scopes ≡ true)
    × ((contains scope client.allowed_scopes ≡ true) × AllAllowed client scopes)

pub unsupported_scope-AllAllowed :
    (client : OidcClient) (scopes : List String)
    → unsupported_scope client scopes ≡ none
    → AllAllowed client scopes
unfolding unsupported_scope AllAllowed
unsupported_scope-AllAllowed client [] h = tt
unsupported_scope-AllAllowed client (scope ∷ scopes) h =
    let supported : contains scope supported_scopes ≡ true = ground arith in
    let allowed : contains scope client.allowed_scopes ≡ true = ground arith in
    (
      supported,
      (allowed, unsupported_scope-AllAllowed client scopes (ground (arith, supported, allowed))),
    )

pub AllAllowed-unsupported_scope :
    (client : OidcClient) (scopes : List String)
    → AllAllowed client scopes
    → unsupported_scope client scopes ≡ none
unfolding unsupported_scope AllAllowed
AllAllowed-unsupported_scope client [] h = refl
AllAllowed-unsupported_scope client (scope ∷ scopes) (supported, (allowed, rest)) =
    rw (supported, allowed) (AllAllowed-unsupported_scope client scopes rest)
