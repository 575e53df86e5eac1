-- ===== src/Shared/KvStore/View.antt =====
-- What a reader of the key-value store can see at a time: the entry of each key, unless expired.
-- Lazy deletion and the sweep are invisible from the present on.
use multi_domain_sandbox.Prelude.{
  ℕ, ◌+◌, ◌≤◌, String, ◌≡◌, Bool, true, false, Option, none, some, arith, leb, ◌==◌, eq_iff,
  if◌then◌else◌, ◌⊎◌, inl, inr, sym, ◌∙◌, Bool-cases,
}
use multi_domain_sandbox.Shared.Map
use multi_domain_sandbox.Shared.KvStore.{
  Entry, MemoryKeyValueStore, sweep, live, write, value_of, get, set, update, delete,
  get_and_delete, set_if_absent,
}

module _ {ℓ} {T : Type ℓ} where
  abbrev pub unexpired : ℕ → Option (Entry T) → Option (Entry T)
  unexpired t none = none
  unexpired t (some e) = if leb e.expires_at t then none else some e

  -- The entry of a key at time `t`.
  unfoldable pub view : MemoryKeyValueStore T → ℕ → String → Option (Entry T)
  view s t k = unexpired t (s.entries k)

  abbrev pub entry : T → ℕ → Entry T
  entry v t = record { value = v; expires_at = t }

  abbrev pub is_some : Option (Entry T) → Bool
  is_some none = false
  is_some (some _) = true

  abbrev pub updated : T → Option (Entry T) → Option (Entry T)
  updated v none = none
  updated v (some e) = some (entry v e.expires_at)

  module _ (now : ℕ) (key : String) (s : MemoryKeyValueStore T) where
    live_lem : (live now key s).0 ≡ view s now key
    unfolding view live
    live_lem = ground arith

    pub get_lem : (get now key s).0 ≡ value_of (view s now key)
    unfolding get view
    get_lem = ground arith

    pub get_and_delete_lem : (get_and_delete now key s).0 ≡ value_of (view s now key)
    unfolding get_and_delete view
    get_and_delete_lem = ground arith

    pub update_lem : (v : T) → (update now key v s).0 ≡ is_some (view s now key)
    unfolding update view
    update_lem v = ground arith

    pub set_if_absent_lem :
        (v : T) (ttl : ℕ)
        → (set_if_absent now key v ttl s).0 ≡ (if is_some (view s now key) then false else true)
    unfolding set_if_absent view
    set_if_absent_lem v ttl = ground arith

  module _ (now t : ℕ) (key k : String) (s : MemoryKeyValueStore T) (h : now ≤ t) where
    view-write :
        (e : Entry T)
        → view (write now key e s) t k ≡ (if key == k then unexpired t (some e) else view s t k)
    unfolding view write sweep Map.insert Map.remove_where
    view-write e = ground arith

    view-live : view (live now key s).1 t k ≡ view s t k
    unfolding view live Map.remove
    view-live = ground (arith, eq_iff key k)

    pub view-get : view (get now key s).1 t k ≡ view s t k
    unfolding view get Map.remove
    view-get = ground (arith, eq_iff key k)

    pub view-set :
        (v : T) (ttl : ℕ)
        → view (set now key v ttl s) t k
          ≡ (if key == k then unexpired t (some (entry v (now + ttl))) else view s t k)
    unfolding set
    view-set v ttl = view-write (entry v (now + ttl))

    pub view-get_and_delete :
        view (get_and_delete now key s).1 t k ≡ (if key == k then none else view s t k)
    unfolding view get_and_delete Map.remove
    view-get_and_delete = ground (arith, eq_iff key k)

    pub view-update :
        (v : T)
        → view (update now key v s).1 t k
          ≡ (if key == k then updated v (view s t k) else view s t k)
    unfolding view update Map.remove Map.insert
    view-update v = ground (arith, eq_iff key k)

    pub view-set_if_absent :
        (v : T) (ttl : ℕ)
        → view (set_if_absent now key v ttl s).1 t k ≡ (
            if is_some (view s now key)
            then view s t k
            else if key == k
            then unexpired t (some (entry v (now + ttl)))
            else view s t k)
    unfolding view set_if_absent Map.remove sweep Map.insert Map.remove_where
    view-set_if_absent v ttl = ground (arith, eq_iff key k)

  pub view-delete :
      (t : ℕ) (key k : String) (s : MemoryKeyValueStore T)
      → view (delete key s) t k ≡ (if key == k then none else view s t k)
  unfolding view delete Map.remove
  view-delete t key k s = ground arith

  -- What has expired stays expired, and what is there later was there before.
  pub view_mono :
      (s : MemoryKeyValueStore T) (now t : ℕ) (k : String) (e : Entry T)
      → now ≤ t
      → view s t k ≡ some e
      → view s now k ≡ some e
  unfolding view
  view_mono s now t k e h p = ground arith

  pub view-later :
      (s : MemoryKeyValueStore T) (now t : ℕ) (k : String)
      → now ≤ t
      → view s t k ≡ unexpired t (view s now k)
  unfolding view
  view-later s now t k h = ground arith

  unexpired_value :
      (t until : ℕ) (v : T) (e : Entry T)
      → unexpired t (some (entry v until)) ≡ some e
      → e.value ≡ v
  unexpired_value t until v e p = ground arith

  -- After a `set`, what can be seen is what was set or what could be seen before.
  pub set_cases :
      (now t : ℕ) (key k : String) (v : T) (ttl : ℕ) (s : MemoryKeyValueStore T) (e : Entry T)
      → now ≤ t
      → view (set now key v ttl s) t k ≡ some e
      → (e.value ≡ v) ⊎ (view s t k ≡ some e)
  set_cases now t key k v ttl s e h p =
      let q = sym (view-set now t key k s h v ttl) ∙ p in
      elim (Bool-cases (key == k)) [
        | inl same ↦ inl (unexpired_value t (now + ttl) v e (rw same at q))
        | inr other ↦ inr (rw other at q)
      ]
