-- ===== src/Shared/Strings.antt =====
-- `String.prototype` methods: startsWith, endsWith, includes, slice after a prefix.
pub mod Slices
use Prim.Native.Char.{Char, code}
use Prim.Native.String.{◌++◌ as append}
use text.Mathlib.TextLemmas.{nil-append, cons-append}
use text.Mathlib.TextEquality.{Char-path}
use multi_domain_sandbox.Prelude.{
  ℕ, String, ◌≡◌, refl, sym, ◌∙◌, ap, arith, Option, none, some, Bool, true, false, ◌&&◌, ◌||◌, eqb,
  Bool-cases, inl, inr, if◌then◌else◌,
}

-- What follows the prefix in the string, where it starts with it.
unfoldable pub strip : String → String → Option String
strip String.[] s = some s
strip (String.◌∷◌ c p) String.[] = none
strip (String.◌∷◌ c p) (String.◌∷◌ d s) =
    let rest = strip p s in if eqb (code c) (code d) then rest else none

abbrev pub is_some : Option String → Bool
is_some none = false
is_some (some _) = true

unfoldable pub starts_with : String → String → Bool
unfolding strip
starts_with p s = is_some (strip p s)

unfoldable pub includes : String → String → Bool
unfolding starts_with
includes p String.[] = starts_with p ""
includes p (String.◌∷◌ c s) = starts_with p (String.◌∷◌ c s) || includes p s

pub append_nil : (s : String) → append "" s ≡ s
append_nil s = nil-append s

-- What follows a prefix is what was put there.
pub strip-append : (p s : String) → strip p (append p s) ≡ some s
unfolding strip
strip-append String.[] s = rw (append_nil s) refl
strip-append (String.◌∷◌ c p) s = rw (cons-append c p s) (ground (arith, strip-append p s))

pub append-strip : (p s t : String) → strip p s ≡ some t → s ≡ append p t
unfolding strip
append-strip String.[] s t h = ground (arith, append_nil t)
append-strip (String.◌∷◌ c p) String.[] t h = ground arith
append-strip (String.◌∷◌ c p) (String.◌∷◌ d s) t h = elim (Bool-cases (eqb (code c) (code d))) [
  | inl e ↦
      let same : c ≡ d = Char-path c d (ground arith) in
      rw (cons-append c p t, same) (ap (String.◌∷◌ d) (append-strip p s t (ground arith)))
  | inr e ↦ ground arith
]

pub starts_with-append : (p s : String) → starts_with p (append p s) ≡ true
unfolding starts_with
starts_with-append p s = ap is_some (strip-append p s)
