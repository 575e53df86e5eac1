-- ===== src/Shared/RedirectTemplate/Match.antt =====
-- Matching a redirect URI against a template undoes the template's expansion, and accepts nothing else.
use Prim.Native.String.{◌++◌ as append}
use text.Mathlib.TextLemmas.{append_assoc}
use multi_domain_sandbox.Prelude.{
  ◌+◌, ◌-◌, ◌<◌, String, ◌≡◌, ◌≢◌, ◌↔◌, refl, sym, ◌∙◌, ap, arith, Option, none, some, true, false,
  leb,
}
use multi_domain_sandbox.Shared.CodeVerifier.{length}
use multi_domain_sandbox.Shared.Strings.{starts_with, starts_with-append}
use multi_domain_sandbox.Shared.Strings.Slices.{
  around, slice, ends_with, ends_with-append, between, slice-between, length-append,
}
use multi_domain_sandbox.Shared.RedirectTemplate.{
  is_tenant_slug, placeholder, expanded, matched, expand_redirect_uri_template,
  match_redirect_uri_template,
}

slug_length : (s : String) → is_tenant_slug s ≡ true → 0 < length s
unfolding is_tenant_slug
slug_length String.[] h = ground arith
slug_length (String.◌∷◌ c s) h = omega arith

module _ (p q : String) where
  matched_sound :
      (uri slug : String)
      → matched (some (p, q)) uri ≡ some slug
      → (append p (append slug q) ≡ uri) × (is_tenant_slug slug ≡ true)
  unfolding matched
  matched_sound uri slug h =
      let mid = slice (length p) (length uri - length q) uri in
      let long : length p + length q < length uri = ground arith in
      let starts : starts_with p uri ≡ true = ground arith in
      let ends : ends_with q uri ≡ true = ground arith in
      let same : mid ≡ slug = ground arith in
      let fits : is_tenant_slug mid ≡ true = ground arith in
      (
        ap (λ x. append p (append x q)) (sym same) ∙ sym (between p q uri long starts ends),
        rw (← same) fits,
      )

  matched_complete :
      (slug : String)
      → is_tenant_slug slug ≡ true
      → matched (some (p, q)) (append p (append slug q)) ≡ some slug
  unfolding matched
  matched_complete slug h =
      let uri = append p (append slug q) in
      let n = length-append p (append slug q) in
      let m = length-append slug q in
      let k = slug_length slug h in
      let long : leb (length uri) (length p + length q) ≡ false = ground (arith, n, m, k) in
      let starts : starts_with p uri ≡ true = starts_with-append p (append slug q) in
      let ends : ends_with q uri ≡ true =
        rw (← append_assoc p slug q) (ends_with-append (append p slug) q) in
      rw (long, starts, ends, slice-between p slug q, h) refl

matched_iff :
    (template uri slug : String) (cut : Option (String × String))
    → ((matched cut uri ≡ some slug)
        ↔ ((cut ≢ none) × ((expanded template cut slug ≡ uri) × (is_tenant_slug slug ≡ true))))
unfolding expanded matched
matched_iff template uri slug none = (λ h. ground arith, λ h. ground arith)
matched_iff template uri slug (some (p, q)) = (
  λ h. (λ e. ground arith, matched_sound p q uri slug h),
  λ (h, (e, fits)). rw (← e) (matched_complete p q slug fits),
)

-- A redirect URI matches a template, and gives a tenant's slug, exactly when the template has the
-- placeholder, the slug is one that a tenant may have, and the template expanded for it is the URI, to the
-- last character.
pub match_redirect_uri_template_iff :
    (template uri slug : String)
    → ((match_redirect_uri_template template uri ≡ some slug) ↔ (
        (around placeholder template ≢ none)
        × ((expand_redirect_uri_template template slug ≡ uri) × (is_tenant_slug slug ≡ true))))
unfolding match_redirect_uri_template expand_redirect_uri_template
match_redirect_uri_template_iff template uri slug =
    matched_iff template uri slug (around placeholder template)
