-- ===== src/Shared/Text.antt =====
-- `String.prototype.split` at one character, and the joins that it takes apart.
use Prim.Native.Char.{Char, code}
use Prim.Native.String.{◌++◌}
use text.Mathlib.TextLemmas.{nil-append, cons-append}
use multi_domain_sandbox.Prelude.{
  ℕ, String, ◌≡◌, refl, Bool, true, not, ◌&&◌, List, [], ◌∷◌, arith, eqb, if◌then◌else◌,
}

-- A character before the first part.
abbrev push : Char → List String → List String
push c [] = String.◌∷◌ c "" ∷ []
push c (w ∷ ws) = String.◌∷◌ c w ∷ ws

unfoldable pub split : ℕ → String → List String
split sep String.[] = "" ∷ []
split sep (String.◌∷◌ c s) =
    let rest = split sep s in if eqb (code c) sep then "" ∷ rest else push c rest

unfoldable pub lacks : ℕ → String → Bool
lacks sep String.[] = true
lacks sep (String.◌∷◌ c s) = not (eqb (code c) sep) && lacks sep s

pub split_free : (sep : ℕ) (s : String) → lacks sep s ≡ true → split sep s ≡ s ∷ []
unfolding split lacks
split_free sep String.[] h = refl
split_free sep (String.◌∷◌ c s) h = ground (arith, split_free sep s)

pub split-append :
    (sep : ℕ) (s : String) (c : Char) (t : String)
    → lacks sep s ≡ true
    → eqb (code c) sep ≡ true
    → split sep (s ++ String.◌∷◌ c t) ≡ s ∷ split sep t
unfolding split lacks
split-append sep String.[] c t h e = rw nil-append (ground arith)
split-append sep (String.◌∷◌ d s) c t h e = rw cons-append (ground (arith, split-append sep s c t))
