-- ===== src/Shared/OidcProtocol/Headers.antt =====
-- What one server writes in a header, the other reads.
use Prim.Native.String.{◌++◌ as append}
use text.Mathlib.TextLemmas.{cons-append, append_assoc}
use multi_domain_sandbox.Prelude.{
  String, ◌≡◌, ◌≢◌, ◌↔◌, refl, ◌∙◌, ap, arith, Option, none, some, true, eq_iff,
}
use multi_domain_sandbox.Shared.Strings.{
  strip, strip-append, append-strip, starts_with, starts_with-append, includes, append_nil,
}
use multi_domain_sandbox.Shared.OidcProtocol.{
  bearer_challenge, token_expired_description, read_bearer_token, is_expired_token_challenge,
  nonempty,
}

token_read :
    (header token : String) (rest : Option String)
    → strip "Bearer " header ≡ rest
    → nonempty rest ≡ some token
    → (header ≡ append "Bearer " token) × (token ≢ "")
token_read header token none e h = ground arith
token_read header token (some t) e h =
    let same : t ≡ token = ground arith in
    (
      append-strip "Bearer " header t e ∙ ap (append "Bearer ") same,
      λ empty. ground (arith, eq_iff t ""),
    )

-- A token is read from a header exactly when the header is `Bearer `, the token, and nothing else.
pub read_bearer_token_iff :
    (header token : String)
    → ((read_bearer_token (some header) ≡ some token)
        ↔ ((header ≡ append "Bearer " token) × (token ≢ "")))
unfolding read_bearer_token
read_bearer_token_iff header token = (
  λ h. token_read header token (strip "Bearer " header) refl h,
  λ (e, n). rw (e, strip-append) (ground (arith, eq_iff token "")),
)

includes-starts : (p s : String) → starts_with p s ≡ true → includes p s ≡ true
unfolding includes
includes-starts p String.[] h = h
includes-starts p (String.◌∷◌ c s) h = ground arith

includes-append : (p s t : String) → includes p (append s (append p t)) ≡ true
unfolding includes
includes-append p String.[] t =
    rw append_nil (includes-starts p (append p t) (starts_with-append p t))
includes-append p (String.◌∷◌ c s) t = rw cons-append (ground (arith, includes-append p s t))

-- The challenge that an API answers with for an expired token is taken for one by the client, whatever
-- the error's name.
pub is_expired_token_challenge-bearer_challenge :
    (error : String)
    → is_expired_token_challenge (some (bearer_challenge error (some token_expired_description)))
      ≡ true
unfolding is_expired_token_challenge bearer_challenge
is_expired_token_challenge-bearer_challenge error =
    rw (append_assoc, append_assoc) at
      (includes-append "error_description=\"expired\""
        (append "Bearer error=\"" (append error "\", ")) "")
