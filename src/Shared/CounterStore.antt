-- ===== src/Shared/CounterStore.antt =====
-- packages/shared/src/kv-store.ts: `MemoryCounterStore`.
pub mod RateLimit
use multi_domain_sandbox.Prelude.{
  ℕ, ◌+◌, ◌%◌, String, Bool, Option, none, some, leb, eqb, if◌then◌else◌,
}
use multi_domain_sandbox.Shared.Map
use multi_domain_sandbox.Shared.Map.{Map}
use multi_domain_sandbox.Shared.KvStore.{Entry, sweep_every}

pub record MemoryCounterStore : Type 0 where
  pub counters : Map (Entry ℕ)
  pub writes : ℕ

abbrev pub empty : MemoryCounterStore
empty = record { counters = Map.empty; writes = 0 }

abbrev expired : ℕ → Entry ℕ → Bool
expired now e = leb e.expires_at now

sweep : Map (Entry ℕ) → ℕ → Map (Entry ℕ)
sweep counters now = Map.remove_where (expired now) counters

-- The first count of a window, with its expiry.
start : ℕ → String → ℕ → MemoryCounterStore → ℕ × MemoryCounterStore
unfolding sweep
start now key ttl s =
    let first : Entry ℕ = record { value = 1; expires_at = now + ttl } in
    let counters = Map.insert key first s.counters in
    let writes = s.writes + 1 in
    (
      1,
      record {
        counters = if eqb (writes % sweep_every) 0 then sweep counters now else counters;
        writes = writes;
      },
    )

-- Returns the count after adding one. Only the first count of a window sets its expiry.
unfoldable pub increment : ℕ → String → ℕ → MemoryCounterStore → ℕ × MemoryCounterStore
unfolding start
increment now key ttl s = elim (s.counters key) [
  | none ↦ start now key ttl s
  | some e ↦
      if expired now e
      then start now key ttl s
      else let e' : Entry ℕ = record e { value = e.value + 1 } in
        (e'.value, record s { counters = Map.insert key e' s.counters })
]
