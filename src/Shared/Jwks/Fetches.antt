-- ===== src/Shared/Jwks/Fetches.antt =====
-- How often a source of keys goes to the network.
use multi_domain_sandbox.Prelude.{
  ℕ, ◌+◌, ◌*◌, ◌≤◌, ◌≡◌, refl, Bool, true, false, Option, none, some, List, [], ◌∷◌, arith, ltb,
  not, ◌&&◌, if◌then◌else◌,
}
use multi_domain_sandbox.Shared.Jwks.{
  Jwk, Outcome, RemoteJwksSource, get, settle, get_with, get_cached, refresh, parsed,
}

-- What callers and the network do: a call of `get`, forced or not, and the end of a fetch.
pub data Event : Type 0 where
  asks : Bool → Event
  fetched : Outcome → Event

-- The end of a fetch counts where one is under way.
unfoldable pub step : ℕ → Event → RemoteJwksSource → RemoteJwksSource
step now (asks force) s = (get force now s).1
step now (fetched outcome) s = if s.inflight then (settle outcome s).1 else s

-- A fetch begins where none was under way before.
unfoldable pub begins : ℕ → Event → RemoteJwksSource → ℕ
unfolding step
begins now e s = if not s.inflight && (step now e s).inflight then 1 else 0

-- A history gives the seconds that pass before each event.
unfoldable pub elapsed : List (ℕ × Event) → ℕ
elapsed [] = 0
elapsed ((wait, e) ∷ es) = wait + elapsed es

unfoldable pub fetches : ℕ → List (ℕ × Event) → RemoteJwksSource → ℕ
fetches now [] s = 0
fetches now ((wait, e) ∷ es) s =
    begins (now + wait) e s + fetches (now + wait) es (step (now + wait) e s)

unfoldable pub is_cached : RemoteJwksSource → Bool
is_cached s = elim s.cached [ none ↦ false | some jwks ↦ true ]

-- What one event costs: `f` forced fetches and `u` others, by the dates of the last of each kind.
pub record Costs (now : ℕ) (e : Event) (s : RemoteJwksSource) : Type 0 where
  pub forced : ℕ
  pub unforced : ℕ
  pub total : begins now e s ≤ forced + unforced
  pub forced_at : s.forced_at + 60 * forced ≤ (step now e s).forced_at
  pub attempted_at : s.attempted_at + 600 * unforced ≤ (step now e s).attempted_at
  pub forced_past : (step now e s).forced_at ≤ now
  pub attempted_past : (step now e s).attempted_at ≤ now
  pub cached : is_cached (step now e s) ≡ true

asks-Costs :
    (force : Bool) (now : ℕ) (jwks : List Jwk) (a f : ℕ) (inflight : Bool)
    → a ≤ now
    → f ≤ now
    → Costs now
        (asks force)
        (record { cached = some jwks; attempted_at = a; forced_at = f; inflight = inflight })
unfolding step begins get get_with get_cached is_cached
asks-Costs true now jwks a f inflight ha hf = record {
  forced = if ltb now (f + 60) then 0 else 1;
  unforced = 0;
  total = ground arith;
  forced_at = ground arith;
  attempted_at = ground arith;
  forced_past = ground arith;
  attempted_past = ground arith;
  cached = ground arith;
}
asks-Costs false now jwks a f inflight ha hf = record {
  forced = 0;
  unforced = if inflight then 0 else if ltb now (a + 600) then 0 else 1;
  total = ground arith;
  forced_at = ground arith;
  attempted_at = ground arith;
  forced_past = ground arith;
  attempted_past = ground arith;
  cached = ground arith;
}

-- The end of a fetch leaves the dates as they are, and a key set that was there is followed by one.
record Settles (s s' : RemoteJwksSource) : Type 0 where
  pub forced_at : s'.forced_at ≡ s.forced_at
  pub attempted_at : s'.attempted_at ≡ s.attempted_at
  pub inflight : s'.inflight ≡ false
  pub cached : is_cached s ≡ true → is_cached s' ≡ true

settle-Settles : (outcome : Outcome) (s : RemoteJwksSource) → Settles s (settle outcome s).1
unfolding settle refresh is_cached
settle-Settles (parsed jwks) s = record {
  forced_at = refl;
  attempted_at = refl;
  inflight = refl;
  cached = λ h. refl;
}
settle-Settles outcome s = record {
  forced_at = refl;
  attempted_at = refl;
  inflight = refl;
  cached = λ h. h;
}

fetched-Costs :
    (outcome : Outcome) (now : ℕ) (s : RemoteJwksSource)
    → is_cached s ≡ true
    → s.attempted_at ≤ now
    → s.forced_at ≤ now
    → Costs now (fetched outcome) s
unfolding step begins
fetched-Costs outcome now s c ha hf =
    let q = settle-Settles outcome s in
    record {
      forced = 0;
      unforced = 0;
      total = ground (arith, q.inflight);
      forced_at = ground (arith, q.forced_at);
      attempted_at = ground (arith, q.attempted_at);
      forced_past = ground (arith, q.forced_at);
      attempted_past = ground (arith, q.attempted_at);
      cached = ground (arith, q.cached c);
    }

cached-Costs :
    (force : Bool) (now : ℕ) (c : Option (List Jwk)) (a f : ℕ) (inflight : Bool)
    → is_cached (record { cached = c; attempted_at = a; forced_at = f; inflight = inflight }) ≡ true
    → a ≤ now
    → f ≤ now
    → Costs now
        (asks force)
        (record { cached = c; attempted_at = a; forced_at = f; inflight = inflight })
unfolding is_cached
cached-Costs force now none a f inflight h ha hf = ground arith
cached-Costs force now (some jwks) a f inflight h ha hf =
    asks-Costs force now jwks a f inflight ha hf

step-Costs :
    (e : Event) (now : ℕ) (s : RemoteJwksSource)
    → is_cached s ≡ true
    → s.attempted_at ≤ now
    → s.forced_at ≤ now
    → Costs now e s
step-Costs (fetched outcome) now s h ha hf = fetched-Costs outcome now s h ha hf
step-Costs (asks force) now s h ha hf =
    cached-Costs force now s.cached s.attempted_at s.forced_at s.inflight h ha hf

-- From a source that has keys and whose dates are not ahead of the clock, a history that starts at
-- `now` begins at most one fetch for each 60 seconds since the last forced one and one for each 600
-- seconds since the last attempt.
pub fetches-bound :
    (now : ℕ) (es : List (ℕ × Event)) (s : RemoteJwksSource)
    → is_cached s ≡ true
    → s.attempted_at ≤ now
    → s.forced_at ≤ now
    → (forced : ℕ) × ((unforced : ℕ) × ((fetches now es s ≤ forced + unforced)
          × ((s.forced_at + 60 * forced ≤ now + elapsed es)
              × (s.attempted_at + 600 * unforced ≤ now + elapsed es))))
unfolding fetches elapsed
fetches-bound now [] s h ha hf = (0, (0, (omega arith, (omega arith, omega arith))))
fetches-bound now ((wait, e) ∷ es) s h ha hf =
    let t = now + wait in
    let c = step-Costs e t s h (omega arith) (omega arith) in
    let s' = step t e s in
    let (f, (u, (n, (hf', ha')))) = fetches-bound t es s' c.cached c.attempted_past c.forced_past in
    let p = c.total in
    let q = c.forced_at in
    let r = c.attempted_at in
    (
      c.forced + f,
      (c.unforced + u, (omega (arith, n, p), (omega (arith, hf', q), omega (arith, ha', r)))),
    )
