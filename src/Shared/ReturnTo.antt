-- ===== src/Shared/ReturnTo.antt =====
-- packages/shared/src/return-to.ts: where a browser is sent after a login.
use Prim.Native.Char.{code}
use multi_domain_sandbox.Prelude.{
  String, ◌≡◌, refl, arith, Option, none, some, Bool, true, false, not, ◌||◌, leb, eqb, ◌==◌,
  eq_iff, if◌then◌else◌, Bool-cases, inl, inr,
}
use multi_domain_sandbox.Shared.Text.{lacks}
use multi_domain_sandbox.Shared.Strings.{starts_with}

abbrev pub default_return_to : String
default_return_to = "/"

-- The characters from 0 to 31, and 127.
unfoldable pub has_control_character : String → Bool
has_control_character String.[] = false
has_control_character (String.◌∷◌ c s) =
    (leb (code c) 31 || eqb (code c) 127) || has_control_character s

unfoldable pub sanitize_return_to : Option String → String
sanitize_return_to none = default_return_to
sanitize_return_to (some value) =
    if value == ""
    then default_return_to
    else if not (starts_with "/" value)
    then default_return_to
    else if starts_with "//" value
    then default_return_to
    else if not (lacks b'\\' value)
    then default_return_to
    else if has_control_character value
    then default_return_to
    else value

-- A path on the same origin: it starts with one slash, no more, and has neither a backslash nor a
-- control character, which browsers read as a slash or drop.
pub record IsLocalPath (value : String) : Type 0 where
  pub absolute : starts_with "/" value ≡ true
  pub no_host : starts_with "//" value ≡ false
  pub no_backslash : lacks b'\\' value ≡ true
  pub no_control : has_control_character value ≡ false

default-IsLocalPath : IsLocalPath default_return_to
unfolding starts_with lacks has_control_character
default-IsLocalPath = record {
  absolute = refl;
  no_host = refl;
  no_backslash = refl;
  no_control = refl;
}

sanitized-IsLocalPath :
    (value result : String) → sanitize_return_to (some value) ≡ result → IsLocalPath result
unfolding sanitize_return_to
sanitized-IsLocalPath value result e =
    let d = default-IsLocalPath in
    record {
      absolute = ground (arith, d.absolute);
      no_host = ground (arith, d.no_host);
      no_backslash = ground (arith, d.no_backslash);
      no_control = ground (arith, d.no_control);
    }

-- Whatever the query string asks for, the browser is sent to a path on the same origin.
pub sanitize_return_to-IsLocalPath :
    (value : Option String) → IsLocalPath (sanitize_return_to value)
unfolding sanitize_return_to
sanitize_return_to-IsLocalPath none = default-IsLocalPath
sanitize_return_to-IsLocalPath (some value) =
    sanitized-IsLocalPath value (sanitize_return_to (some value)) refl

empty_relative : starts_with "/" "" ≡ false
unfolding starts_with
empty_relative = refl

absolute_nonempty : (value : String) → starts_with "/" value ≡ true → (value == "") ≡ false
absolute_nonempty value a = elim (Bool-cases (value == "")) [
  | inl e ↦
      let empty : value ≡ "" = ground (arith, eq_iff value "") in
      let relative : starts_with "/" value ≡ false = rw empty empty_relative in ground arith
  | inr e ↦ e
]

-- A path on the same origin is kept as it is.
pub sanitize_return_to_keeps :
    (value : String) → IsLocalPath value → sanitize_return_to (some value) ≡ value
unfolding sanitize_return_to
sanitize_return_to_keeps value l =
    rw (absolute_nonempty value l.absolute, l.absolute, l.no_host, l.no_backslash, l.no_control)
      refl
