-- ===== src/Client/Access/Waiting.antt =====
-- The wait for another request's refresh: `waitForRefresh` of packages/oidc-client/src/api-client.ts.
use multi_domain_sandbox.Prelude.{
  ℕ, zero, suc, ◌<◌, ◌≡◌, inl, inr, refl, Bool, true, false, Option, none, some, Result, ok, err,
  arith, Bool-cases,
}
use multi_domain_sandbox.Client.Types.{OidcClientConfig, TenantSession}
use multi_domain_sandbox.Client.State.{ClientState}
use multi_domain_sandbox.Client.Session.{load_session}
use multi_domain_sandbox.Client.Access.{
  World, ApiAccessError, session_expired, provider_unavailable, needs_refresh, wait_rounds,
  wait_for_refresh, refresh_wait_ms, refresh_wait_attempts,
}

module _ {Init Body : Type 0} (world : World Init Body) (client : OidcClientConfig)
    (session : TenantSession) where
  -- One sleep, and the session as it is stored then.
  abbrev pub wake : ClientState → Option TenantSession × ClientState
  wake s = load_session client (some session.id) (world.sleep refresh_wait_ms s).1

  unfoldable pub after : ℕ → ClientState → ClientState
  after zero s = s
  after (suc n) s = after n (wake s).1

  -- The session is there and its token has not been renewed.
  abbrev pub stale : Option TenantSession × ClientState → Bool
  stale (none, s) = false
  stale (some latest, s) = needs_refresh latest s.now

  abbrev pub answer :
      Option TenantSession × ClientState → Result TenantSession ApiAccessError × ClientState
  answer (none, s) = (err session_expired, s)
  answer (some latest, s) = (ok latest, s)

  -- The wait of `k` rounds ends at the first wake that finds the session renewed or gone, and with a
  -- timeout where all of them find it stale.
  pub data Ends (k : ℕ) (s : ClientState) (r : Result TenantSession ApiAccessError × ClientState)
      : Type 0 where
    woken :
        (n : ℕ)
        → n < k
        → ((m : ℕ) → m < n → stale (wake (after m s)) ≡ true)
        → stale (wake (after n s)) ≡ false
        → r ≡ answer (wake (after n s))
        → Ends k s r
    timed_out :
        ((m : ℕ) → m < k → stale (wake (after m s)) ≡ true)
        → r ≡ (err (provider_unavailable "refresh_lock_timeout"), after k s)
        → Ends k s r

  shifted :
      (k : ℕ) (s : ClientState)
      → stale (wake s) ≡ true
      → ((m : ℕ) → m < k → stale (wake (after m (wake s).1)) ≡ true)
      → (m : ℕ) → m < suc k
      → stale (wake (after m s)) ≡ true
  unfolding after
  shifted k s h before zero l = h
  shifted k s h before (suc m) l = before m (omega arith)

  Ends-suc :
      (k : ℕ) (s : ClientState) (r : Result TenantSession ApiAccessError × ClientState)
      → stale (wake s) ≡ true
      → Ends k (wake s).1 r
      → Ends (suc k) s r
  unfolding after
  Ends-suc k s r h (woken n l before fresh e) =
      woken (suc n) (omega arith) (shifted n s h before) fresh e
  Ends-suc k s r h (timed_out all e) = timed_out (shifted k s h all) e

  woken_now : (k : ℕ) (s : ClientState) → stale (wake s) ≡ false → Ends (suc k) s (answer (wake s))
  unfolding after
  woken_now k s h = woken 0 (omega arith) (λ m l. ground arith) h refl

  rounds : ℕ → ClientState → Result TenantSession ApiAccessError × ClientState
  rounds = wait_rounds world client session

  round : ℕ → Option TenantSession × ClientState → Result TenantSession ApiAccessError × ClientState
  unfolding rounds
  round k (found, s2) = elim found [
    | none ↦ (err session_expired, s2)
    | some latest ↦ elim (needs_refresh latest s2.now) [
      | true ↦ rounds k s2
      | false ↦ (ok latest, s2)
    ]
  ]

  rounds-suc : (k : ℕ) (s : ClientState) → rounds (suc k) s ≡ round k (wake s)
  unfolding rounds round wait_rounds
  rounds-suc k s = refl

  round_stops :
      (k : ℕ) (w : Option TenantSession × ClientState) → stale w ≡ false → round k w ≡ answer w
  unfolding round
  round_stops k (none, s) h = refl
  round_stops k (some latest, s) h = ground arith

  round_goes_on :
      (k : ℕ) (w : Option TenantSession × ClientState) → stale w ≡ true → round k w ≡ rounds k w.1
  unfolding round
  round_goes_on k (none, s) h = ground arith
  round_goes_on k (some latest, s) h = ground arith

  rounds-Ends : (k : ℕ) (s : ClientState) → Ends k s (rounds k s)
  unfolding rounds after wait_rounds
  rounds-Ends zero s = timed_out (λ m l. ground arith) refl
  rounds-Ends (suc k) s = elim (Bool-cases (stale (wake s))) [
    | inl e ↦
        rw (rounds-suc k s, round_goes_on k (wake s) e)
          (Ends-suc k s (rounds k (wake s).1) e (rounds-Ends k (wake s).1))
    | inr e ↦ rw (rounds-suc k s, round_stops k (wake s) e) (woken_now k s e)
  ]

  -- Whatever passes meanwhile, the wait ends within 30 sleeps of 100 ms: with the session as the
  -- first wake finds it that does not find a stale one, with `session_expired` where that wake finds none,
  -- and with a timeout only where all 30 found it stale.
  pub wait_for_refresh-Ends :
      (s : ClientState) → Ends 30 s (wait_for_refresh world client session s)
  unfolding rounds wait_for_refresh
  wait_for_refresh-Ends s = rounds-Ends refresh_wait_attempts s
