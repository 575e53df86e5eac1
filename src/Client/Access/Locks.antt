-- ===== src/Client/Access/Locks.antt =====
-- The refresh lock of one session in packages/oidc-client/src/api-client.ts, under any order of the steps
-- of the requests that use it: a request takes the lock, and lets it go when its refresh has ended.
use multi_domain_sandbox.Prelude.{
  ℕ, ◌+◌, ◌≤◌, ◌<◌, String, ◌≡◌, inl, inr, refl, Bool, true, false, List, [], ◌∷◌, arith, ltb, eqb,
  ◌&&◌, eq_iff, if◌then◌else◌, Bool-cases,
}
use multi_domain_sandbox.Shared.KvStore
use multi_domain_sandbox.Shared.KvStore.{MemoryKeyValueStore, Entry}
use multi_domain_sandbox.Shared.KvStore.View
use multi_domain_sandbox.Client.Types.{refresh_lock_ttl_seconds}

-- A request that has the lock, and the time at which it took it.
pub record Holder : Type 0 where
  pub request : ℕ
  pub since : ℕ

pub record Locks : Type 0 where
  pub now : ℕ
  pub refresh_locks : MemoryKeyValueStore String
  pub holders : List Holder

-- Seconds pass; a request asks for the lock; a request's `finally`.
pub data Action : Type 0 where
  waits takes releases : ℕ → Action

holds : ℕ → List Holder → Bool
holds i [] = false
holds i (h ∷ hs) = if eqb h.request i then true else holds i hs

without : ℕ → List Holder → List Holder
without i [] = []
without i (h ∷ hs) = let others = without i hs in if eqb h.request i then others else h ∷ others

-- Every request that has the lock took it less than the lock's lifetime ago.
unfoldable pub timely : ℕ → List Holder → Bool
timely now [] = true
timely now (h ∷ hs) = ltb now (h.since + refresh_lock_ttl_seconds) && timely now hs

abbrev pub at_most_one : List Holder → Bool
at_most_one [] = true
at_most_one (h ∷ []) = true
at_most_one (h ∷ hs) = false

module _ (lock_key : String) where
  -- The lock is deleted whoever's it is.
  unfoldable pub step : Action → Locks → Locks
  unfolding holds without
  step (waits n) s = record s { now = s.now + n }
  step (takes i) s =
      let (locked, store) =
        KvStore.set_if_absent s.now lock_key "1" refresh_lock_ttl_seconds s.refresh_locks in
      record s {
        refresh_locks = store;
        holders = if locked then record { request = i; since = s.now } ∷ s.holders else s.holders;
      }
  step (releases i) s =
      if holds i s.holders
      then record s {
        refresh_locks = KvStore.delete lock_key s.refresh_locks;
        holders = without i s.holders;
      }
      else s

  unfoldable pub run : List Action → Locks → Locks
  run [] s = s
  run (a ∷ rest) s = run rest (step a s)

  unfoldable pub always_timely : List Action → Locks → Bool
  always_timely [] s = true
  always_timely (a ∷ rest) s =
      timely (step a s).now (step a s).holders && always_timely rest (step a s)

  -- No one has the lock, or one request has it and it stands in the store until its lifetime is over.
  data Guarded (now : ℕ) (store : MemoryKeyValueStore String) : List Holder → Type 0 where
    free : Guarded now store []
    held :
        (h : Holder)
        → ((t : ℕ)
            → now ≤ t
            → t < h.since + refresh_lock_ttl_seconds
            → View.is_some (View.view store t lock_key) ≡ true)
        → Guarded now store (h ∷ [])

  abbrev Ok : Locks → Type 0
  Ok s = Guarded s.now s.refresh_locks s.holders

  waits-Ok :
      (now n : ℕ) (store : MemoryKeyValueStore String) (hs : List Holder)
      → Guarded now store hs
      → Guarded (now + n) store hs
  waits-Ok now n store [] free = free
  waits-Ok now n store (_ ∷ []) (held h f) = held h (λ t p l. f t (omega arith) l)
  waits-Ok now n store (_ ∷ (_ ∷ _)) g = elim g [ ]

  abbrev asked : ℕ → MemoryKeyValueStore String → Bool × MemoryKeyValueStore String
  asked now store = KvStore.set_if_absent now lock_key "1" refresh_lock_ttl_seconds store

  abbrev taken : ℕ → ℕ → Bool → List Holder → List Holder
  taken now i locked hs = if locked then record { request = i; since = now } ∷ hs else hs

  takes-Ok :
      (now i : ℕ) (store : MemoryKeyValueStore String) (hs : List Holder) (locked : Bool)
      → (asked now store).0 ≡ locked
      → timely now hs ≡ true
      → Guarded now store hs
      → Guarded now (asked now store).1 (taken now i locked hs)
  unfolding timely
  takes-Ok now i store [] false e w free = free
  takes-Ok now i store [] true e w free =
      held (record { request = i; since = now })
        (λ t p l. ground (
          arith,
          View.view-set_if_absent now t lock_key lock_key store p "1" refresh_lock_ttl_seconds,
          View.set_if_absent_lem now lock_key store "1" refresh_lock_ttl_seconds,
          eq_iff lock_key lock_key,
        ))
  takes-Ok now i store (_ ∷ []) true e w (held h f) =
      let there = f now (omega arith) (ground arith) in
      ground (arith, View.set_if_absent_lem now lock_key store "1" refresh_lock_ttl_seconds)
  takes-Ok now i store (_ ∷ []) false e w (held h f) =
      let there = f now (omega arith) (ground arith) in
      held h (λ t p l. ground (
        arith,
        View.view-set_if_absent now t lock_key lock_key store p "1" refresh_lock_ttl_seconds,
        f t p l,
      ))
  takes-Ok now i store (_ ∷ (_ ∷ _)) locked e w g = elim g [ ]

  releases-Ok :
      (i : ℕ) (s : Locks) (hs : List Holder)
      → s.holders ≡ hs
      → Guarded s.now s.refresh_locks hs
      → Ok (step (releases i) s)
  unfolding step holds without
  releases-Ok i s [] e free = rw e free
  releases-Ok i s (_ ∷ []) e (held h f) = elim (Bool-cases (eqb h.request i)) [
    | inl own ↦ rw (e, own) free
    | inr other ↦ rw (e, other) (held h f)
  ]
  releases-Ok i s (_ ∷ (_ ∷ _)) e g = elim g [ ]

  step-Ok : (a : Action) (s : Locks) → timely s.now s.holders ≡ true → Ok s → Ok (step a s)
  unfolding step
  step-Ok (waits n) s h g = waits-Ok s.now n s.refresh_locks s.holders g
  step-Ok (takes i) s h g =
      takes-Ok s.now i s.refresh_locks s.holders (asked s.now s.refresh_locks).0 refl h g
  step-Ok (releases i) s h g = releases-Ok i s s.holders refl g

  Guarded-at_most_one :
      (now : ℕ) (store : MemoryKeyValueStore String) (hs : List Holder)
      → Guarded now store hs
      → at_most_one hs ≡ true
  Guarded-at_most_one now store [] free = refl
  Guarded-at_most_one now store (_ ∷ []) (held h f) = refl
  Guarded-at_most_one now store (_ ∷ (_ ∷ _)) g = elim g [ ]

  run-Ok :
      (rest : List Action) (s : Locks)
      → timely s.now s.holders ≡ true
      → always_timely rest s ≡ true
      → Ok s
      → Ok (run rest s)
  unfolding run always_timely
  run-Ok [] s t h g = g
  run-Ok (a ∷ rest) s t h g = run-Ok rest (step a s) (ground arith) (ground arith) (step-Ok a s t g)

  -- From any store of locks and no holder, however the requests' steps are ordered, no two have the
  -- lock at once, as long as no request has it for the lock's lifetime of 10 seconds or longer.
  pub refresh_exclusion :
      (rest : List Action) (now : ℕ) (store : MemoryKeyValueStore String)
      → let s : Locks = record { now = now; refresh_locks = store; holders = [] } in
        always_timely rest s ≡ true → at_most_one (run rest s).holders ≡ true
  unfolding timely
  refresh_exclusion rest now store h =
      let s : Locks = record { now = now; refresh_locks = store; holders = [] } in
      Guarded-at_most_one (run rest s).now (run rest s).refresh_locks (run rest s).holders
        (run-Ok rest s refl h free)
