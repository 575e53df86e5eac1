-- ===== src/Shared/SetStore.antt =====
-- packages/shared/src/kv-store.ts: `MemorySetStore`. A set is its members in the order of insertion.
pub mod Members
pub mod View
use multi_domain_sandbox.Prelude.{
  ℕ, ◌+◌, ◌%◌, String, Bool, true, false, Option, none, some, List, [], ◌∷◌, ◌++◌, ◌||◌, leb, eqb,
  ◌==◌, if◌then◌else◌,
}
use multi_domain_sandbox.Shared.Map
use multi_domain_sandbox.Shared.Map.{Map}
use multi_domain_sandbox.Shared.KvStore.{sweep_every}

pub record SetEntry : Type 0 where
  pub members : List String
  pub expires_at : ℕ

pub record MemorySetStore : Type 0 where
  pub sets : Map SetEntry
  pub writes : ℕ

abbrev pub empty : MemorySetStore
empty = record { sets = Map.empty; writes = 0 }

unfoldable pub contains : String → List String → Bool
contains x [] = false
contains x (y ∷ ys) = y == x || contains x ys

-- `Set.add` and `Set.delete`
unfoldable pub add_member : String → List String → List String
add_member x xs = if contains x xs then xs else xs ++ x ∷ []

unfoldable pub remove_member : String → List String → List String
remove_member x [] = []
remove_member x (y ∷ ys) = let rest = remove_member x ys in if y == x then rest else y ∷ rest

abbrev expired : ℕ → SetEntry → Bool
expired now e = leb e.expires_at now

sweep : Map SetEntry → ℕ → Map SetEntry
sweep sets now = Map.remove_where (expired now) sets

-- A set that has expired is deleted when it is read.
live : ℕ → String → MemorySetStore → Option SetEntry × MemorySetStore
live now key s = elim (s.sets key) [
  | none ↦ (none, s)
  | some e ↦
      if expired now e then (none, record s { sets = Map.remove key s.sets }) else (some e, s)
]

abbrev pub members_of : Option SetEntry → List String
members_of none = []
members_of (some e) = e.members

unfoldable pub add : ℕ → String → String → ℕ → MemorySetStore → MemorySetStore
unfolding live sweep
add now key member ttl s =
    let (found, s') = live now key s in
    let e : SetEntry = record {
      members = add_member member (members_of found);
      expires_at = now + ttl;
    } in
    let sets = Map.insert key e s'.sets in
    let writes = s'.writes + 1 in
    record { sets = if eqb (writes % sweep_every) 0 then sweep sets now else sets; writes = writes }

-- The set is changed in place: its expiry stays.
unfoldable pub remove : ℕ → String → String → MemorySetStore → MemorySetStore
unfolding live
remove now key member s =
    let (found, s') = live now key s in
    elim found [
      | none ↦ s'
      | some e ↦
          let e' : SetEntry = record e { members = remove_member member e.members } in
          record s' { sets = Map.insert key e' s'.sets }
    ]

unfoldable pub members : ℕ → String → MemorySetStore → List String × MemorySetStore
unfolding live
members now key s = let (found, s') = live now key s in (members_of found, s')

unfoldable pub delete : String → MemorySetStore → MemorySetStore
delete key s = record s { sets = Map.remove key s.sets }
