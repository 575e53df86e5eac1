-- ===== src/Shared/KvStore.antt =====
-- packages/shared/src/kv-store.ts: `MemoryKeyValueStore`. The clock's reading is an argument of
-- each call; a method returns its result with the new store.
pub mod View
pub mod Refinement
use multi_domain_sandbox.Prelude.{
  ℕ, ◌+◌, ◌%◌, String, ◌≡◌, Bool, true, false, Option, none, some, leb, eqb, if◌then◌else◌,
}
use multi_domain_sandbox.Shared.Map
use multi_domain_sandbox.Shared.Map.{Map}

pub record Entry {ℓ} (T : Type ℓ) : Type ℓ where
  pub value : T
  pub expires_at : ℕ

pub record MemoryKeyValueStore {ℓ} (T : Type ℓ) : Type ℓ where
  pub entries : Map (Entry T)
  pub writes : ℕ

abbrev pub sweep_every : ℕ
sweep_every = 256

module _ {ℓ} {T : Type ℓ} where
  abbrev pub empty : MemoryKeyValueStore T
  empty = record { entries = Map.empty; writes = 0 }

  abbrev expired : ℕ → Entry T → Bool
  expired now e = leb e.expires_at now

  sweep : Map (Entry T) → ℕ → Map (Entry T)
  sweep entries now = Map.remove_where (expired now) entries

  -- An entry that has expired is deleted when it is read.
  live : ℕ → String → MemoryKeyValueStore T → Option (Entry T) × MemoryKeyValueStore T
  live now key s = elim (s.entries key) [
    | none ↦ (none, s)
    | some e ↦
        if expired now e
        then (none, record s { entries = Map.remove key s.entries })
        else (some e, s)
  ]

  write : ℕ → String → Entry T → MemoryKeyValueStore T → MemoryKeyValueStore T
  unfolding sweep
  write now key e s =
      let entries = Map.insert key e s.entries in
      let writes = s.writes + 1 in
      record {
        entries = if eqb (writes % sweep_every) 0 then sweep entries now else entries;
        writes = writes;
      }

  abbrev pub value_of : Option (Entry T) → Option T
  value_of none = none
  value_of (some e) = some e.value

  unfoldable pub get : ℕ → String → MemoryKeyValueStore T → Option T × MemoryKeyValueStore T
  unfolding live
  get now key s = let (found, s') = live now key s in (value_of found, s')

  unfoldable pub set : ℕ → String → T → ℕ → MemoryKeyValueStore T → MemoryKeyValueStore T
  unfolding write
  set now key value ttl s = write now key (record { value = value; expires_at = now + ttl }) s

  unfoldable pub update : ℕ → String → T → MemoryKeyValueStore T → Bool × MemoryKeyValueStore T
  unfolding live
  update now key value s =
      let (found, s') = live now key s in
      elim found [
        | none ↦ (false, s')
        | some e ↦ (
          true,
          record s' {
            entries =
                Map.insert key (record { value = value; expires_at = e.expires_at }) s'.entries;
          },
        )
      ]

  unfoldable pub delete : String → MemoryKeyValueStore T → MemoryKeyValueStore T
  delete key s = record s { entries = Map.remove key s.entries }

  unfoldable pub get_and_delete :
      ℕ → String → MemoryKeyValueStore T → Option T × MemoryKeyValueStore T
  unfolding live delete
  get_and_delete now key s = let (found, s') = live now key s in (value_of found, delete key s')

  unfoldable pub set_if_absent :
      ℕ → String → T → ℕ → MemoryKeyValueStore T → Bool × MemoryKeyValueStore T
  unfolding live write
  set_if_absent now key value ttl s =
      let (found, s') = live now key s in
      elim found [
        | some e ↦ (false, s')
        | none ↦ (true, write now key (record { value = value; expires_at = now + ttl }) s')
      ]
