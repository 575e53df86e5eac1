-- ===== src/Shared/RedirectTemplate.antt =====
-- packages/shared/src/redirect-template.ts. `replace` gives `$` in its second argument a meaning of its own;
-- a tenant's slug has none.
pub mod Match
use Prim.Native.Char.{code}
use Prim.Native.String.{◌++◌ as append}
use multi_domain_sandbox.Prelude.{
  ℕ, ◌+◌, ◌-◌, String, Option, none, some, Bool, true, false, not, ◌&&◌, ◌||◌, leb, eqb,
  if◌then◌else◌,
}
use multi_domain_sandbox.Shared.CodeVerifier.{length, all, in_range}
use multi_domain_sandbox.Shared.Strings.{starts_with}
use multi_domain_sandbox.Shared.Strings.Slices.{around, slice, ends_with}

-- `[a-z0-9]`
unfoldable pub is_slug_edge : ℕ → Bool
is_slug_edge c = in_range b'a' b'z' c || in_range b'0' b'9' c

-- `[a-z0-9-]*[a-z0-9]`
unfoldable pub ends_slug : String → Bool
unfolding is_slug_edge
ends_slug String.[] = false
ends_slug (String.◌∷◌ c String.[]) = is_slug_edge (code c)
ends_slug (String.◌∷◌ c s) = (is_slug_edge (code c) || eqb (code c) b'-') && ends_slug s

-- `^[a-z0-9](?:[a-z0-9-]{0,61}[a-z0-9])?$`
unfoldable pub is_tenant_slug : String → Bool
unfolding is_slug_edge ends_slug
is_tenant_slug String.[] = false
is_tenant_slug (String.◌∷◌ c String.[]) = is_slug_edge (code c)
is_tenant_slug (String.◌∷◌ c s) = is_slug_edge (code c) && (leb (length s) 62 && ends_slug s)

abbrev pub placeholder : String
placeholder = "{tenant}"

expanded : String → Option (String × String) → String → String
expanded template none slug = template
expanded template (some (before, rest)) slug = append before (append slug rest)

unfoldable pub expand_redirect_uri_template : String → String → String
unfolding expanded
expand_redirect_uri_template template slug = expanded template (around placeholder template) slug

matched : Option (String × String) → String → Option String
matched none uri = none
matched (some (prefix, suffix)) uri =
    if leb (length uri) (length prefix + length suffix)
    then none
    else if not (starts_with prefix uri) || not (ends_with suffix uri)
    then none
    else let slug = slice (length prefix) (length uri - length suffix) uri in
      if is_tenant_slug slug then some slug else none

unfoldable pub match_redirect_uri_template : String → String → Option String
unfolding matched
match_redirect_uri_template template uri = matched (around placeholder template) uri
