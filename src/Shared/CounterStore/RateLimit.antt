-- ===== src/Shared/CounterStore/RateLimit.antt =====
-- packages/shared/src/rate-limit.ts over the counter store: the fixed window of `rateLimit`. The
-- subject is the caller's address or what the option `keyOf` makes of the request.
use Prim.Native.String.{◌++◌}
use multi_domain_sandbox.Prelude.{
  ℕ, zero, suc, ◌+◌, ◌-◌, ◌*◌, ◌/◌, ◌%◌, ◌≤◌, ◌<◌, min, String, ◌≡◌, refl, Bool, true, false, none,
  some, List, [], ◌∷◌, inl, inr, arith, ltb, ◌==◌, eq_iff, eqb, if◌then◌else◌, Bool-cases,
}
use multi_domain_sandbox.Shared.Map
use multi_domain_sandbox.Shared.KvStore.{Entry}
use multi_domain_sandbox.Shared.CounterStore.{MemoryCounterStore, increment, sweep}

pub record RateLimitOptions : Type 0 where
  pub limit : ℕ
  pub window_seconds : ℕ

digit : ℕ → String
digit n =
    if eqb n 0
    then "0"
    else if eqb n 1
    then "1"
    else if eqb n 2
    then "2"
    else if eqb n 3
    then "3"
    else if eqb n 4
    then "4"
    else if eqb n 5
    then "5"
    else if eqb n 6
    then "6"
    else if eqb n 7
    then "7"
    else if eqb n 8
    then "8"
    else "9"

-- A number in decimal, as in a template string; a number has fewer digits than `n + 1`.
decimal_on : ℕ → ℕ → String
decimal_on zero n = ""
decimal_on (suc fuel) n =
    let shorter = decimal_on fuel (n / 10) in
    if ltb n 10 then digit n else shorter ++ digit (n % 10)

unfoldable pub decimal : ℕ → String
unfolding decimal_on digit
decimal n = decimal_on (suc n) n

module _ (name : String) (options : RateLimitOptions) where
  pub window_of : ℕ → ℕ
  window_of now = now / options.window_seconds

  unfoldable pub key : String → ℕ → String
  unfolding decimal window_of
  key subject now = name ++ ":" ++ subject ++ ":" ++ decimal (window_of now)

  -- Whether the request goes on to its handler; otherwise the answer is 429.
  unfoldable pub rate_limit : String → ℕ → MemoryCounterStore → Bool × MemoryCounterStore
  rate_limit subject now s =
      let (count, s') = increment now (key subject now) options.window_seconds s in
      (if ltb options.limit count then false else true, s')

  -- The requests under the key `k` that go on, in a history of times and subjects.
  pub admitted : String → List (ℕ × String) → MemoryCounterStore → ℕ
  admitted k [] s = 0
  admitted k ((now, subject) ∷ rest) s =
      let (passes, s') = rate_limit subject now s in
      let later = admitted k rest s' in
      if passes then (if key subject now == k then suc later else later) else later

  -- The requests that were made under the key `k`.
  pub presented : String → List (ℕ × String) → ℕ
  presented k [] = 0
  presented k ((now, subject) ∷ rest) =
      let later = presented k rest in if key subject now == k then suc later else later

  pub data InWindow (w : ℕ) : List (ℕ × String) → Type 0 where
    nil : InWindow w []
    cons :
        {now : ℕ} {subject : String} {rest : List (ℕ × String)}
        → w * options.window_seconds ≤ now
        → now < w * options.window_seconds + options.window_seconds
        → InWindow w rest
        → InWindow w ((now, subject) ∷ rest)

  -- The counter under `k` has reached `c` and outlives the window.
  pub data Counted (w : ℕ) (k : String) (c : ℕ) (s : MemoryCounterStore) : Type 0 where
    unused : s.counters k ≡ none → c ≡ 0 → Counted w k c s
    used :
        (e : Entry ℕ)
        → s.counters k ≡ some e
        → c ≡ e.value
        → w * options.window_seconds + options.window_seconds ≤ e.expires_at
        → Counted w k c s

  module _ (w now : ℕ) (k : String) (c : ℕ) (s : MemoryCounterStore)
      (from : w * options.window_seconds ≤ now)
      (to : now < w * options.window_seconds + options.window_seconds) where
    increment-Counted :
        Counted w k c s
        → ((increment now k options.window_seconds s).0 ≡ suc c)
          × Counted w k (suc c) (increment now k options.window_seconds s).1
    unfolding increment Map.insert Map.remove_where sweep
    increment-Counted (unused e z) = (
      ground arith,
      used (record { value = 1; expires_at = now + options.window_seconds })
          (ground (arith, eq_iff k k)) (ground arith) (omega arith),
    )
    increment-Counted (used e p z x) = (
      ground arith,
      used (record e { value = e.value + 1 }) (ground (arith, eq_iff k k)) (ground arith) x,
    )

    increment-Counted_ne :
        (j : String)
        → (j == k) ≡ false
        → Counted w k c s
        → Counted w k c (increment now j options.window_seconds s).1
    unfolding increment Map.insert Map.remove_where sweep
    increment-Counted_ne j ne (unused e z) = unused (ground arith) z
    increment-Counted_ne j ne (used e p z x) = used e (ground arith) z x

  -- The `c`-th count of a window leaves `limit - c` requests to go on.
  admitted_from :
      (w : ℕ) (k : String) (c : ℕ) (rs : List (ℕ × String)) (s : MemoryCounterStore)
      → InWindow w rs
      → Counted w k c s
      → admitted k rs s ≡ min (options.limit - c) (presented k rs)
  unfolding admitted presented rate_limit
  admitted_from w k c [] s nil h = omega arith
  admitted_from w k c ((now, subject) ∷ rs) s (cons from to more) h =
      elim (Bool-cases (key subject now == k)) [
        | inl same ↦
            let e : key subject now ≡ k = (eq_iff _ _).0 same in
            let (count, counted) = increment-Counted w now k c s from to h in
            let ih = admitted_from w k (suc c) rs _ more counted in
            rw same (rw e (rw count (ground (arith, ih))))
        | inr other ↦
            let counted = increment-Counted_ne w now k c s from to (key subject now) other h in
            let ih = admitted_from w k c rs _ more counted in rw other (ground (arith, ih))
      ]

-- In one window, from a store that has not counted the key `k` yet, the requests under `k` go on
-- until `limit` of them have, whatever other subjects ask for in between.
pub limit_per_window :
    (name : String) (options : RateLimitOptions) (w : ℕ) (k : String) (rs : List (ℕ × String))
    (s : MemoryCounterStore)
    → s.counters k ≡ none
    → InWindow name options w rs
    → admitted name options k rs s ≡ min options.limit (presented name options k rs)
limit_per_window name options w k rs s fresh within =
    omega (arith, admitted_from name options w k 0 rs s within (unused fresh refl))
