-- ===== src/Auth/RefreshTokens/Refs.antt =====
-- The references to families that the store keeps for each session.
use Prim.Native.String.{◌++◌ as append}
use text.Mathlib.TextLemmas.{nil-append, cons-append}
use multi_domain_sandbox.Prelude.{String, ◌≡◌, ap, ◌∙◌, true, some}
use multi_domain_sandbox.Shared.Text.{lacks, split-append, split_free}
use multi_domain_sandbox.Auth.RefreshTokens.{RefreshFamilyRef, encode_family_ref, decode_family_ref}

colon_append : (s : String) → append ":" s ≡ String.◌∷◌ ":" s
colon_append s = cons-append ":" "" s ∙ ap (String.◌∷◌ ":") (nil-append s)

-- A reference is read back as it was written, where no part of it holds a colon.
pub decode_family_ref-encode_family_ref :
    (ref : RefreshFamilyRef)
    → lacks b':' ref.client_id ≡ true
    → lacks b':' ref.tenant_id ≡ true
    → lacks b':' ref.family_id ≡ true
    → decode_family_ref (encode_family_ref ref) ≡ some ref
unfolding decode_family_ref encode_family_ref
decode_family_ref-encode_family_ref ref a b c =
    rw (colon_append, colon_append, split-append, split-append, split_free)
