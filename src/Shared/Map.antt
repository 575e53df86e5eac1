-- ===== src/Shared/Map.antt =====
-- JavaScript's `Map` with string keys where the program never asks for the order of its entries: a
-- function from keys. `Map.set`, `Map.delete`, and a loop that deletes the entries passing a test.
use multi_domain_sandbox.Prelude.{String, Bool, Option, none, some, ◌==◌, if◌then◌else◌}

abbrev pub Map {ℓ} : Type ℓ → Type ℓ
Map V = String → Option V

module _ {ℓ} {V : Type ℓ} where
  abbrev pub empty : Map V
  empty k = none

  unfoldable pub insert : String → V → Map V → Map V
  insert k v m j = if k == j then some v else m j

  unfoldable pub remove : String → Map V → Map V
  remove k m j = if k == j then none else m j

  abbrev pub drop_if : (V → Bool) → Option V → Option V
  drop_if drop none = none
  drop_if drop (some v) = if drop v then none else some v

  -- `for (const [key, entry] of entries) if (drop(entry)) entries.delete(key)`
  unfoldable pub remove_where : (V → Bool) → Map V → Map V
  remove_where drop m j = drop_if drop (m j)
