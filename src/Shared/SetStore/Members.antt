-- ===== src/Shared/SetStore/Members.antt =====
-- What the calls of a set store do to one member of one set.
use multi_domain_sandbox.Prelude.{
  ℕ, ◌+◌, ◌≤◌, ◌<◌, String, ◌≡◌, true, false, ◌==◌, eq_iff, arith, some, none, Option, refl,
}
use multi_domain_sandbox.Shared.SetStore.{
  SetEntry, MemorySetStore, contains, members_of, add, remove,
}
use multi_domain_sandbox.Shared.SetStore.View.{
  view, view-add, view-remove, view_mono, contains-add_member, contains-remove_member,
}

module _ (now t : ℕ) (key k : String) (member m : String) (s : MemorySetStore) (h : now ≤ t) where
  remove_found :
      (o : Option SetEntry)
      → view s t k ≡ o
      → (member == m) ≡ false
      → contains m (members_of o) ≡ true
      → contains m (members_of (view (remove now key member s) t k)) ≡ true
  remove_found none e d p = ground (arith, view-remove now t key k s h member)
  remove_found (some x) e d p =
      ground (arith, view-remove now t key k s h member, contains-remove_member m member x.members)

  -- A call of `remove` takes no other member away.
  pub contains-remove :
      (member == m) ≡ false
      → contains m (members_of (view s t k)) ≡ true
      → contains m (members_of (view (remove now key member s) t k)) ≡ true
  contains-remove d p = remove_found (view s t k) refl d p

  add_found :
      (ttl : ℕ) (o : Option SetEntry)
      → view s t k ≡ o
      → t < now + ttl
      → contains m (members_of o) ≡ true
      → contains m (members_of (view (add now key member ttl s) t k)) ≡ true
  unfolding contains
  add_found ttl none e l p = ground arith
  add_found ttl (some x) e l p = ground (
    arith,
    view-add now t key k s h member ttl,
    contains-add_member m member x.members,
    view_mono s now t k x h,
    eq_iff key k,
  )

  -- A call of `add` leaves every other member that its new expiry does not cut off.
  pub contains-add :
      (ttl : ℕ)
      → t < now + ttl
      → contains m (members_of (view s t k)) ≡ true
      → contains m (members_of (view (add now key member ttl s) t k)) ≡ true
  contains-add ttl l p = add_found ttl (view s t k) refl l p

pub contains-add_self :
    (now t : ℕ) (key member : String) (ttl : ℕ) (s : MemorySetStore)
    → now ≤ t
    → t < now + ttl
    → contains member (members_of (view (add now key member ttl s) t key)) ≡ true
contains-add_self now t key member ttl s h l = ground (
  arith,
  view-add now t key key s h member ttl,
  contains-add_member member member (members_of (view s now key)),
  eq_iff key key,
  eq_iff member member,
)
