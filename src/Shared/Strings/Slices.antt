-- ===== src/Shared/Strings/Slices.antt =====
-- `String.prototype.slice`, `endsWith`, and `indexOf` with the two slices around what it finds.
use Prim.Native.Char.{Char, code}
use Prim.Native.String.{◌++◌ as append}
use text.Mathlib.TextLemmas.{nil-append, cons-append}
use multi_domain_sandbox.Prelude.{
  ℕ, zero, suc, ◌+◌, ◌-◌, ◌<◌, String, ◌≡◌, refl, sym, ◌∙◌, ap, arith, Option, none, some, Bool,
  true, false, ◌&&◌, leb, eqb, ◌==◌, eq_iff, Option-cases, inl, inr,
}
use multi_domain_sandbox.Shared.CodeVerifier.{length}
use multi_domain_sandbox.Shared.Text.{lacks}
use multi_domain_sandbox.Shared.Strings.{strip, append-strip, append_nil, starts_with}

unfoldable pub drop : ℕ → String → String
drop zero s = s
drop (suc n) String.[] = ""
drop (suc n) (String.◌∷◌ c s) = drop n s

unfoldable pub take : ℕ → String → String
take zero s = ""
take (suc n) String.[] = ""
take (suc n) (String.◌∷◌ c s) = String.◌∷◌ c (take n s)

-- From the first position up to the second.
unfoldable pub slice : ℕ → ℕ → String → String
unfolding take drop
slice from to s = take (to - from) (drop from s)

unfoldable pub ends_with : String → String → Bool
unfolding drop
ends_with p s = leb (length p) (length s) && drop (length s - length p) s == p

abbrev Cut : Type 0
Cut = Option (String × String)

cut_here : Option String → Cut → Cut
cut_here (some rest) later = some ("", rest)
cut_here none later = later

cut_later : Char → Cut → Cut
cut_later c none = none
cut_later c (some (before, rest)) = some (String.◌∷◌ c before, rest)

-- What stands before and after the first occurrence of the pattern.
unfoldable pub around : String → String → Option (String × String)
unfolding cut_here cut_later strip
around p String.[] = cut_here (strip p "") none
around p (String.◌∷◌ c s) = cut_here (strip p (String.◌∷◌ c s)) (cut_later c (around p s))

pub length-append : (s t : String) → length (append s t) ≡ length s + length t
length-append String.[] t = rw (append_nil t) (omega arith)
length-append (String.◌∷◌ c s) t = rw (cons-append c s t) (ground (arith, length-append s t))

pub drop-append : (s t : String) (n m : ℕ) → m ≡ length s + n → drop m (append s t) ≡ drop n t
unfolding drop
drop-append String.[] t n m h = rw (append_nil t) (ap (λ k. drop k t) (omega arith))
drop-append (String.◌∷◌ c s) t n zero h = ground arith
drop-append (String.◌∷◌ c s) t n (suc m) h =
    rw (cons-append c s t) (drop-append s t n m (omega arith))

pub take-append : (s t : String) → take (length s) (append s t) ≡ s
unfolding take
take-append String.[] t = refl
take-append (String.◌∷◌ c s) t = rw (cons-append c s t) (ap (String.◌∷◌ c) (take-append s t))

pub append-take-drop : (n : ℕ) (s : String) → append (take n s) (drop n s) ≡ s
unfolding take drop
append-take-drop zero s = append_nil s
append-take-drop (suc n) String.[] = append_nil ""
append-take-drop (suc n) (String.◌∷◌ c s) =
    cons-append c (take n s) (drop n s) ∙ ap (String.◌∷◌ c) (append-take-drop n s)

abbrev Joins : String → String → Cut → Type 0
Joins p s cut =
    (before rest : String) → cut ≡ some (before, rest) → s ≡ append before (append p rest)

here-Joins :
    (p s : String) (here : Option String) (later : Cut)
    → strip p s ≡ here
    → Joins p s later
    → Joins p s (cut_here here later)
unfolding cut_here
here-Joins p s none later h j = j
here-Joins p s (some r) later h j = λ before rest e.
    let (b, q) : ("" ≡ before) × (r ≡ rest) = (ground arith, ground arith) in
    rw (← b, ← q, append_nil) (append-strip p s r h)

later-Joins :
    (c : Char) (p s : String) (cut : Cut)
    → Joins p s cut
    → Joins p (String.◌∷◌ c s) (cut_later c cut)
unfolding cut_later
later-Joins c p s none j = λ before rest e. ground arith
later-Joins c p s (some (b, r)) j = λ before rest e.
    let (x, y) : (String.◌∷◌ c b ≡ before) × (r ≡ rest) = (ground arith, ground arith) in
    rw (← x, ← y, cons-append) (ap (String.◌∷◌ c) (j b r refl))

around-Joins : (p s : String) → Joins p s (around p s)
unfolding around
around-Joins p String.[] = here-Joins p "" (strip p "") none refl (λ before rest e. ground arith)
around-Joins p (String.◌∷◌ c s) =
    here-Joins p (String.◌∷◌ c s) (strip p (String.◌∷◌ c s)) (cut_later c (around p s)) refl
      (later-Joins c p s (around p s) (around-Joins p s))

-- The two slices are what stands around an occurrence of the pattern.
pub around_joins :
    (p s before rest : String)
    → around p s ≡ some (before, rest)
    → s ≡ append before (append p rest)
around_joins p s = around-Joins p s

-- A string ends with what was appended to it.
pub ends_with-append : (s p : String) → ends_with p (append s p) ≡ true
unfolding ends_with
ends_with-append s p =
    let n = length-append s p in
    let d = drop-append s p 0 (length (append s p) - length p) (omega (arith, n)) in
    ground (arith, n, d, eq_iff p p)

-- A string that starts with one part and ends with another, and is longer than both, is the slice between
-- them with the two parts around it.
pub between :
    (p q s : String)
    → length p + length q < length s
    → starts_with p s ≡ true
    → ends_with q s ≡ true
    → s ≡ append p (append (slice (length p) (length s - length q) s) q)
unfolding starts_with ends_with slice
between p q s l h e = elim (Option-cases (strip p s)) [
  | inl none_left ↦ ground arith
  | inr (r, eq) ↦
      let joined : s ≡ append p r = append-strip p s r eq in
      let n : length s ≡ length p + length r = rw joined (length-append p r) in
      let k = length s - length q - length p in
      let after : drop (length p) s ≡ r = rw joined (drop-append p r 0 (length p) (omega arith)) in
      let tail : drop (length s - length q) s ≡ drop k r =
        ap (drop (length s - length q)) joined
        ∙ drop-append p r k (length s - length q) (omega (arith, n)) in
      let last : drop (length s - length q) s ≡ q =
        ground (arith, eq_iff (drop (length s - length q) s) q) in
      joined ∙ ap (append p) (sym (append-take-drop k r) ∙ cc (after, sym tail ∙ last))
]

pub slice-between :
    (p x q : String)
    → slice (length p) (length (append p (append x q)) - length q) (append p (append x q)) ≡ x
unfolding slice
slice-between p x q =
    let n = length-append p (append x q) in
    let m = length-append x q in
    rw (drop-append p (append x q) 0 (length p) (omega arith))
      (ap (λ k. take k (append x q)) (omega (arith, n, m)) ∙ take-append x q)

here_cut :
    (c : Char) (t : String) (later : Cut)
    → cut_here (strip (String.◌∷◌ c "") (String.◌∷◌ c t)) (cut_later c later) ≡ some ("", t)
unfolding cut_here strip
here_cut c t later = let same : eqb (code c) (code c) ≡ true = ground arith in rw same refl

-- The first occurrence of a character in a text that starts with a part without it stands after that part.
pub around-lacks :
    (c : Char) (s t : String)
    → lacks (code c) s ≡ true
    → around (String.◌∷◌ c "") (append s (append (String.◌∷◌ c "") t)) ≡ some (s, t)
unfolding around cut_here cut_later lacks strip
around-lacks c String.[] t h =
    rw (nil-append, cons-append, nil-append) (here_cut c t (around (String.◌∷◌ c "") t))
around-lacks c (String.◌∷◌ d s) t h =
    let other : eqb (code c) (code d) ≡ false = ground arith in
    rw (cons-append, other, around-lacks c s t (ground arith)) refl
