-- ===== src/Shared/KvStore/Refinement.antt =====
-- `MemoryKeyValueStore` against the contract of `KeyValueStore`: a table of entries with their
-- expiry times, from which nothing is ever swept or dropped on a read.
use multi_domain_sandbox.Prelude.{
  ℕ, ◌+◌, ◌≤◌, String, ◌≡◌, Bool, true, false, Option, none, some, List, [], ◌∷◌, arith, eq_iff,
  refl,
}
use multi_domain_sandbox.Shared.Map
use multi_domain_sandbox.Shared.Map.{Map}
use multi_domain_sandbox.Shared.KvStore
use multi_domain_sandbox.Shared.KvStore.{Entry, MemoryKeyValueStore, value_of}
use multi_domain_sandbox.Shared.KvStore.View.{
  unexpired, view, entry, get_lem, get_and_delete_lem, update_lem, set_if_absent_lem, view-get,
  view-set, view-get_and_delete, view-update, view-set_if_absent, view-delete,
}

module _ {ℓ} where
  -- A call of one of the store's methods.
  pub data Call (T : Type ℓ) : Type ℓ where
    gets deletes takes : String → Call T
    sets sets_if_absent : String → T → ℕ → Call T
    updates : String → T → Call T

  pub data Reply (T : Type ℓ) : Type ℓ where
    found : Option T → Reply T
    flag : Bool → Reply T
    done : Reply T

module _ {ℓ} {T : Type ℓ} where
  pub step : ℕ → Call T → MemoryKeyValueStore T → Reply T × MemoryKeyValueStore T
  step now (gets k) s = let (r, s') = KvStore.get now k s in (found r, s')
  step now (takes k) s = let (r, s') = KvStore.get_and_delete now k s in (found r, s')
  step now (deletes k) s = (done, KvStore.delete k s)
  step now (sets k v ttl) s = (done, KvStore.set now k v ttl s)
  step now (sets_if_absent k v ttl) s =
      let (r, s') = KvStore.set_if_absent now k v ttl s in (flag r, s')
  step now (updates k v) s = let (r, s') = KvStore.update now k v s in (flag r, s')

  -- The contract: one write or removal of one key, and a reply from the unexpired entry.
  pub spec_step : ℕ → Call T → Map (Entry T) → Reply T × Map (Entry T)
  spec_step now (gets k) m = (found (value_of (unexpired now (m k))), m)
  spec_step now (takes k) m = (found (value_of (unexpired now (m k))), Map.remove k m)
  spec_step now (deletes k) m = (done, Map.remove k m)
  spec_step now (sets k v ttl) m = (done, Map.insert k (entry v (now + ttl)) m)
  spec_step now (sets_if_absent k v ttl) m = elim (unexpired now (m k)) [
    | some e ↦ (flag false, m)
    | none ↦ (flag true, Map.insert k (entry v (now + ttl)) m)
  ]
  spec_step now (updates k v) m = elim (unexpired now (m k)) [
    | some e ↦ (flag true, Map.insert k (entry v e.expires_at) m)
    | none ↦ (flag false, m)
  ]

  -- A history gives the seconds that pass before each call; the replies in order.
  pub run : ℕ → List (ℕ × Call T) → MemoryKeyValueStore T → List (Reply T)
  run now [] s = []
  run now ((wait, c) ∷ cs) s = let (r, s') = step (now + wait) c s in r ∷ run (now + wait) cs s'

  pub spec_run : ℕ → List (ℕ × Call T) → Map (Entry T) → List (Reply T)
  spec_run now [] m = []
  spec_run now ((wait, c) ∷ cs) m =
      let (r, m') = spec_step (now + wait) c m in r ∷ spec_run (now + wait) cs m'

  pub record Agrees (now : ℕ) (s : MemoryKeyValueStore T) (m : Map (Entry T)) : Type ℓ where
    pub at : (t : ℕ) (k : String) → now ≤ t → view s t k ≡ unexpired t (m k)

  Agrees-later :
      {s : MemoryKeyValueStore T} {m : Map (Entry T)} (now wait : ℕ)
      → Agrees now s m
      → Agrees (now + wait) s m
  Agrees-later now wait a = record { at = λ t k h. a.at t k (omega arith) }

  module _ (now : ℕ) (s : MemoryKeyValueStore T) (m : Map (Entry T)) (a : Agrees now s m) where
    step_reply : (c : Call T) → (step now c s).0 ≡ (spec_step now c m).0
    unfolding step spec_step
    step_reply (gets k) = ground (arith, get_lem now k s, a.at now k)
    step_reply (takes k) = ground (arith, get_and_delete_lem now k s, a.at now k)
    step_reply (deletes k) = refl
    step_reply (sets k v ttl) = refl
    step_reply (sets_if_absent k v ttl) =
        ground (arith, set_if_absent_lem now k s v ttl, a.at now k)
    step_reply (updates k v) = ground (arith, update_lem now k s v, a.at now k)

    step-Agrees : (c : Call T) → Agrees now (step now c s).1 (spec_step now c m).1
    unfolding step spec_step Map.insert Map.remove
    step-Agrees (gets k) = record {
      at = λ t j h. ground (arith, view-get now t k j s h, a.at t j h);
    }
    step-Agrees (takes k) = record {
      at = λ t j h. ground (arith, view-get_and_delete now t k j s h, a.at t j h);
    }
    step-Agrees (deletes k) = record {
      at = λ t j h. ground (arith, view-delete t k j s, a.at t j h);
    }
    step-Agrees (sets k v ttl) = record {
      at = λ t j h. ground (arith, view-set now t k j s h v ttl, a.at t j h);
    }
    step-Agrees (sets_if_absent k v ttl) = record {
      at = λ t j h.
          ground
            (arith, view-set_if_absent now t k j s h v ttl, a.at t j h, a.at now k, eq_iff k j);
    }
    step-Agrees (updates k v) = record {
      at = λ t j h. ground (arith, view-update now t k j s h v, a.at t j h, a.at now k, eq_iff k j);
    }

  -- Whatever the history of calls and waits, a store that agrees with the table gives its replies:
  -- lazy deletion and the sweep after every 256 writes never change what a caller is told.
  pub run-eq-spec_run :
      (now : ℕ) (cs : List (ℕ × Call T)) (s : MemoryKeyValueStore T) (m : Map (Entry T))
      → Agrees now s m
      → run now cs s ≡ spec_run now cs m
  unfolding run spec_run
  run-eq-spec_run now [] s m a = refl
  run-eq-spec_run now ((wait, c) ∷ cs) s m a =
      let b = Agrees-later now wait a in
      cc (
        step_reply (now + wait) s m b c,
        run-eq-spec_run (now + wait) cs (step (now + wait) c s).1 (spec_step (now + wait) c m).1
            (step-Agrees (now + wait) s m b c),
      )
