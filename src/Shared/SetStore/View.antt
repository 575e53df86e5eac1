-- ===== src/Shared/SetStore/View.antt =====
-- What a reader of the set store can see at a time.
use multi_domain_sandbox.Prelude.{
  ℕ, ◌+◌, ◌≤◌, String, ◌≡◌, false, Option, none, some, List, [], ◌∷◌, ◌++◌, ◌||◌, arith, leb, ◌==◌,
  eq_iff, if◌then◌else◌,
}
use multi_domain_sandbox.Shared.Map
use multi_domain_sandbox.Shared.SetStore.{
  SetEntry, MemorySetStore, contains, add_member, remove_member, sweep, members_of, add, remove,
  members, delete,
}

abbrev pub unexpired : ℕ → Option SetEntry → Option SetEntry
unexpired t none = none
unexpired t (some e) = if leb e.expires_at t then none else some e

unfoldable pub view : MemorySetStore → ℕ → String → Option SetEntry
view s t k = unexpired t (s.sets k)

contains-append :
    (x y : String) (xs : List String) → contains x (xs ++ y ∷ []) ≡ (contains x xs || y == x)
unfolding contains
contains-append x y [] = ground arith
contains-append x y (z ∷ xs) = ground (arith, contains-append x y xs)

pub contains-add_member :
    (x y : String) (xs : List String) → contains x (add_member y xs) ≡ (y == x || contains x xs)
unfolding add_member
contains-add_member x y xs = ground (arith, contains-append x y xs, eq_iff y x)

pub contains-remove_member :
    (x y : String) (xs : List String)
    → contains x (remove_member y xs) ≡ (if y == x then false else contains x xs)
unfolding contains remove_member
contains-remove_member x y [] = ground arith
contains-remove_member x y (z ∷ xs) =
    ground (arith, contains-remove_member x y xs, eq_iff y x, eq_iff z x, eq_iff z y)

abbrev pub set_entry : List String → ℕ → SetEntry
set_entry xs t = record { members = xs; expires_at = t }

pub members_lem :
    (now : ℕ) (key : String) (s : MemorySetStore)
    → (members now key s).0 ≡ members_of (view s now key)
unfolding members view
members_lem now key s = ground arith

module _ (now t : ℕ) (key k : String) (s : MemorySetStore) (h : now ≤ t) where
  pub view-members : view (members now key s).1 t k ≡ view s t k
  unfolding view members Map.remove
  view-members = ground (arith, eq_iff key k)

  pub view-add :
      (member : String) (ttl : ℕ)
      → view (add now key member ttl s) t k ≡ (
          if key == k
          then unexpired t
              (some (set_entry (add_member member (members_of (view s now key))) (now + ttl)))
          else view s t k)
  unfolding view add Map.remove sweep Map.insert Map.remove_where
  view-add member ttl = ground (arith, eq_iff key k)

  pub view-remove :
      (member : String)
      → view (remove now key member s) t k ≡ (
          if key == k
          then elim (view s t k) [
            | none ↦ none
            | some e ↦ some (set_entry (remove_member member e.members) e.expires_at)
          ]
          else view s t k)
  unfolding view remove Map.remove Map.insert
  view-remove member = ground (arith, eq_iff key k)

pub view-delete :
    (t : ℕ) (key k : String) (s : MemorySetStore)
    → view (delete key s) t k ≡ (if key == k then none else view s t k)
unfolding view delete Map.remove
view-delete t key k s = ground arith

pub view_mono :
    (s : MemorySetStore) (now t : ℕ) (k : String) (e : SetEntry)
    → now ≤ t
    → view s t k ≡ some e
    → view s now k ≡ some e
unfolding view
view_mono s now t k e h p = ground arith
