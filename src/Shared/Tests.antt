-- ===== src/Shared/Tests.antt =====
-- The theorems of the shared parts at concrete values.
use multi_domain_sandbox.Prelude.{
  ℕ, ◌+◌, min, String, ◌≡◌, refl, inl, inr, ltb, ◌&&◌, List, [], ◌∷◌, arith,
}
use multi_domain_sandbox.Shared.Map
use multi_domain_sandbox.Shared.KvStore
use multi_domain_sandbox.Shared.KvStore.View.{view}
use multi_domain_sandbox.Shared.KvStore.Refinement.{
  Call, gets, takes, sets, updates, Agrees, run, spec_run, run-eq-spec_run,
}
use multi_domain_sandbox.Shared.CounterStore
use multi_domain_sandbox.Shared.CounterStore.RateLimit.{
  RateLimitOptions, InWindow, nil, cons, admitted, presented, limit_per_window,
}
use multi_domain_sandbox.Shared.SessionExpiry.{ExpiringSession, SessionExpiryPolicy}
use multi_domain_sandbox.Shared.SessionExpiry.Visits.{
  AllClear, visits, is_alive, all_within, elapsed, visits_iff,
}

empty-Agrees : Agrees {T = ℕ} 0 KvStore.empty Map.empty
unfolding view
empty-Agrees = record { at = λ t k h. refl }

abbrev calls : List (ℕ × Call ℕ)
calls =
    (0, sets "a" 1 10) ∷ (5, updates "a" 2) ∷ (1, gets "a") ∷ (9, gets "a") ∷ (0, takes "a") ∷ []

run-eq-spec_run_example : run 0 calls KvStore.empty ≡ spec_run 0 calls Map.empty
run-eq-spec_run_example = run-eq-spec_run 0 calls KvStore.empty Map.empty empty-Agrees

abbrev two_a_minute : RateLimitOptions
two_a_minute = record { limit = 2; window_seconds = 60 }

abbrev requests : List (ℕ × String)
requests = (61, "a") ∷ (62, "b") ∷ (63, "a") ∷ (64, "a") ∷ []

requests-InWindow : InWindow "login" two_a_minute 1 requests
requests-InWindow = cons (omega arith) (omega arith) (
    cons (omega arith) (omega arith)
      (cons (omega arith) (omega arith) (cons (omega arith) (omega arith) nil)))

limit_per_window_example :
    admitted "login" two_a_minute "login:a:1" requests CounterStore.empty
    ≡ min 2 (presented "login" two_a_minute "login:a:1" requests)
limit_per_window_example =
    limit_per_window "login" two_a_minute 1 "login:a:1" requests CounterStore.empty refl
      requests-InWindow

abbrev policy : SessionExpiryPolicy
policy = record { idle_seconds = 100; absolute_seconds = 1000 }

abbrev old : ExpiringSession
old = record { created_at = 0; last_seen_at = 0 }

visits_iff_example :
    is_alive (visits policy (30 ∷ 35 ∷ 200 ∷ []) 20 old)
    ≡ (all_within 100 (30 ∷ 35 ∷ 200 ∷ []) && ltb (20 + elapsed (30 ∷ 35 ∷ 200 ∷ [])) 1000)
unfolding AllClear
visits_iff_example =
    visits_iff policy (30 ∷ 35 ∷ 200 ∷ []) 20 old
      (inl (omega arith), (inl (omega arith), (inr (omega arith), tt))) (omega arith) (omega arith)
      (omega arith)
