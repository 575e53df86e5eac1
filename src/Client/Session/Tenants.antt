-- ===== src/Client/Session/Tenants.antt =====
-- A session is found under its own tenant only.
use Prim.Native.String.{◌++◌ as append}
use text.Mathlib.TextLemmas.{nil-append, cons-append, append_cancel_left}
use multi_domain_sandbox.Prelude.{
  ℕ, Bool, String, ◌≡◌, refl, sym, ◌∙◌, ap, true, some, ◌∷◌, arith, Option, none, ◌==◌,
  if◌then◌else◌,
}
use multi_domain_sandbox.Shared.Text.{lacks, split, split-append}
use multi_domain_sandbox.Shared.KvStore.{value_of, Entry}
use multi_domain_sandbox.Client.Types.{OidcClientConfig, TenantSession}
use multi_domain_sandbox.Client.State.{ClientState, RandomBytes}
use multi_domain_sandbox.Client.Session.{load_session, session_key, key_of}
use multi_domain_sandbox.Client.Session.Index.{stored}
use multi_domain_sandbox.Client.Session.Own.{Own, Calls, Calls-Own}
use multi_domain_sandbox.Client.Session.Touch.{load_session_lem, unless_expired}

colon_append : (s : String) → append ":" s ≡ String.◌∷◌ ":" s
colon_append s = cons-append ":" "" s ∙ ap (String.◌∷◌ ":") (nil-append s)

split-session_key :
    (tenant id : String)
    → lacks b':' tenant ≡ true
    → split b':' (session_key tenant id) ≡ tenant ∷ split b':' id
split-session_key tenant id l = rw colon_append (split-append b':' tenant ":" id l refl)

-- Two keys are equal only if the tenants and the identifiers are, where no tenant has a colon.
pub session_key_injective :
    (t u x y : String)
    → lacks b':' t ≡ true
    → lacks b':' u ≡ true
    → session_key t x ≡ session_key u y
    → (t ≡ u) × (x ≡ y)
session_key_injective t u x y lt lu p =
    let parts : t ∷ split b':' x ≡ u ∷ split b':' y =
      sym (split-session_key t x lt) ∙ ap (split b':') p ∙ split-session_key u y lu in
    let tenants : t ≡ u = ground arith in
    (
      tenants,
      append_cancel_left ":" x y
          (append_cancel_left t (append ":" x) (append ":" y) (cc (p, tenants))),
    )

loaded_entry :
    (unnamed : Bool) (now : ℕ) (o : Option (Entry TenantSession)) (session : TenantSession)
    → (if unnamed then none else unless_expired now (value_of o)) ≡ some session
    → (e : Entry TenantSession) × ((o ≡ some e) × (e.value ≡ session))
loaded_entry unnamed now none session p = ground arith
loaded_entry unnamed now (some e) session p = (e, (refl, ground arith))

-- From a store in which every session stands under its own key, such as an empty one, and after any calls of
-- the operations on sessions, touches of sessions that have been deleted included, and waits: a session that
-- is found was made for the client's tenant, under the identifier that was asked for, where neither of the two
-- slugs holds a colon.
pub load_session-tenant :
    (random : RandomBytes) (client : OidcClientConfig) (id : String) (session : TenantSession)
    (s t : ClientState)
    → Own s
    → Calls random s t
    → lacks b':' client.tenant_slug ≡ true
    → lacks b':' session.tenant_slug ≡ true
    → (load_session client (some id) t).0 ≡ some session
    → (client.tenant_slug ≡ session.tenant_slug) × (id ≡ session.id)
load_session-tenant random client id session s t i calls lc ls p =
    let key = session_key client.tenant_slug id in
    let found = sym (load_session_lem client id t) ∙ p in
    let (e, (at, same)) = loaded_entry (id == "") t.now (stored t t.now key) session found in
    let own : key ≡ key_of session =
      (Calls-Own calls i).own t.now key e (omega arith) at ∙ ap key_of same in
    session_key_injective client.tenant_slug session.tenant_slug id session.id lc ls own
