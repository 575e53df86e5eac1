-- ===== src/Shared/OidcProtocol.antt =====
-- packages/shared/src/oidc-protocol.ts: the strings that the servers agree on.
pub mod Headers
use Prim.Native.String.{◌++◌ as append}
use multi_domain_sandbox.Prelude.{
  String, Option, none, some, Bool, true, false, ◌==◌, if◌then◌else◌,
}
use multi_domain_sandbox.Shared.Strings.{starts_with, includes, strip}

unfoldable pub bearer_challenge : String → Option String → String
bearer_challenge error none = append "Bearer error=\"" (append error "\"")
bearer_challenge error (some description) =
    append "Bearer error=\""
      (append error (append "\", error_description=\"" (append description "\"")))

abbrev pub token_expired_description : String
token_expired_description = "expired"

abbrev nonempty : Option String → Option String
nonempty none = none
nonempty (some token) = if token == "" then none else some token

-- `strip` gives what follows the prefix, where the header starts with it.
unfoldable pub read_bearer_token : Option String → Option String
read_bearer_token none = none
read_bearer_token (some header) = nonempty (strip "Bearer " header)

unfoldable pub is_expired_token_challenge : Option String → Bool
is_expired_token_challenge none = false
is_expired_token_challenge (some header) = includes "error_description=\"expired\"" header
