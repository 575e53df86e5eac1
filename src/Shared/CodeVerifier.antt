-- ===== src/Shared/CodeVerifier.antt =====
-- packages/shared/src/random.ts: the test of a PKCE code verifier.
use Prim.Native.Char.{code}
use multi_domain_sandbox.Prelude.{ℕ, suc, String, Bool, true, ◌&&◌, ◌||◌, leb, eqb}

abbrev pub length : String → ℕ
length String.[] = 0
length (String.◌∷◌ c s) = suc (length s)

abbrev pub all : (ℕ → Bool) → String → Bool
all p String.[] = true
all p (String.◌∷◌ c s) = p (code c) && all p s

abbrev pub in_range : ℕ → ℕ → ℕ → Bool
in_range lo hi c = leb lo c && leb c hi

-- A letter or a digit of the Latin alphabet.
unfoldable pub is_alphanumeric : ℕ → Bool
is_alphanumeric c = in_range b'A' b'Z' c || in_range b'a' b'z' c || in_range b'0' b'9' c

-- `[A-Za-z0-9\-._~]`
unfoldable pub is_unreserved : ℕ → Bool
unfolding is_alphanumeric
is_unreserved c = is_alphanumeric c || eqb c b'-' || eqb c b'.' || eqb c b'_' || eqb c b'~'

unfoldable pub is_valid_code_verifier : String → Bool
unfolding is_unreserved
is_valid_code_verifier value = in_range 43 128 (length value) && all is_unreserved value
