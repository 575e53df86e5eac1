-- ===== src/Shared/SessionExpiry/Visits.antt =====
-- How long a session lasts that is read and touched at every request.
use multi_domain_sandbox.Prelude.{
  ℕ, ◌+◌, ◌≤◌, ◌<◌, ◌≡◌, ◌⊎◌, inl, inr, refl, Bool, true, false, Option, none, some, List, [], ◌∷◌,
  arith, ltb, ◌&&◌, if◌then◌else◌, Bool-cases,
}
use multi_domain_sandbox.Shared.SessionExpiry.{
  ExpiringSession, SessionExpiryPolicy, remaining_ttl, is_expired, should_touch, touched,
  touch_interval_seconds,
}

-- A request: a session that has expired is not found, and one that is due is touched.
unfoldable pub visit : SessionExpiryPolicy → ℕ → ExpiringSession → Option ExpiringSession
visit policy now session =
    if is_expired policy session now
    then none
    else if should_touch session now
    then some (touched session now)
    else some session

-- Requests, each so many seconds after the last.
unfoldable pub visits : SessionExpiryPolicy → List ℕ → ℕ → ExpiringSession → Option ExpiringSession
visits policy [] now session = some session
visits policy (wait ∷ waits) now session = elim (visit policy (now + wait) session) [
  | none ↦ none
  | some session' ↦ visits policy waits (now + wait) session'
]

abbrev pub is_alive : Option ExpiringSession → Bool
is_alive none = false
is_alive (some session) = true

unfoldable pub elapsed : List ℕ → ℕ
elapsed [] = 0
elapsed (wait ∷ waits) = wait + elapsed waits

-- No wait reaches the idle time.
unfoldable pub all_within : ℕ → List ℕ → Bool
all_within idle [] = true
all_within idle (wait ∷ waits) = ltb wait idle && all_within idle waits

-- No wait ends in the touch interval before the idle time: there the outcome hangs on the last touch.
unfoldable pub AllClear : ℕ → List ℕ → Type 0
AllClear idle [] = Unit {0}
AllClear idle (wait ∷ waits) =
    ((wait + touch_interval_seconds ≤ idle) ⊎ (idle ≤ wait)) × AllClear idle waits

module _ (policy : SessionExpiryPolicy) where
  -- A request that finds the session leaves it seen less than the touch interval ago.
  visit_lem :
      (now : ℕ) (session : ExpiringSession)
      → session.last_seen_at ≤ now
      → ((is_expired policy session now ≡ true) × (visit policy now session ≡ none))
        ⊎ ((is_expired policy session now ≡ false)
            × ((session' : ExpiringSession) × ((visit policy now session ≡ some session')
                  × ((session'.created_at ≡ session.created_at)
                      × ((session'.last_seen_at ≤ now)
                          × (now < session'.last_seen_at + touch_interval_seconds))))))
  unfolding visit should_touch
  visit_lem now session past = elim (Bool-cases (is_expired policy session now)) [
    | inl gone ↦ inl (gone, rw gone refl)
    | inr here ↦ inr (
      here,
      elim (Bool-cases (should_touch session now)) [
        | inl due ↦ (touched session now, (rw (here, due) refl, (refl, (omega arith, omega arith))))
        | inr seen ↦ (session, (rw (here, seen) refl, (refl, (past, ground arith))))
      ],
    )
  ]

  visits_none : (now : ℕ) (session : ExpiringSession) → visits policy [] now session ≡ some session
  unfolding visits
  visits_none now session = refl

  visits_gone :
      (wait : ℕ) (waits : List ℕ) (now : ℕ) (session : ExpiringSession)
      → visit policy (now + wait) session ≡ none
      → visits policy (wait ∷ waits) now session ≡ none
  unfolding visits
  visits_gone wait waits now session e = rw (visits, e) refl

  visits_found :
      (wait : ℕ) (waits : List ℕ) (now : ℕ) (session session' : ExpiringSession)
      → visit policy (now + wait) session ≡ some session'
      → visits policy (wait ∷ waits) now session ≡ visits policy waits (now + wait) session'
  unfolding visits
  visits_found wait waits now session session' e = rw (visits, e) refl

  -- Where a session that has not reached its absolute limit and was seen less than the touch interval
  -- ago is requested again and again, and no wait ends within the touch interval before the idle time,
  -- it is still found after the last wait exactly if every wait was shorter than the idle time and its
  -- absolute limit, counted from its creation, has not come: touches put off the first and never the
  -- second.
  pub visits_iff :
      (waits : List ℕ) (now : ℕ) (session : ExpiringSession)
      → AllClear policy.idle_seconds waits
      → session.last_seen_at ≤ now
      → now < session.last_seen_at + touch_interval_seconds
      → now < session.created_at + policy.absolute_seconds
      → is_alive (visits policy waits now session) ≡ (
          all_within policy.idle_seconds waits
          && ltb (now + elapsed waits) (session.created_at + policy.absolute_seconds))
  unfolding all_within elapsed AllClear is_expired remaining_ttl
  visits_iff [] now session clear past recent before = rw (visits_none now session) (ground arith)
  visits_iff (wait ∷ waits) now session (c, clear) past recent before =
      elim (visit_lem (now + wait) session (omega arith)) [
        | inl (gone, none_found) ↦ rw (visits_gone wait waits now session none_found) (ground arith)
        | inr (here, (session', (found, (same, (past', recent'))))) ↦
            let rest =
              visits_iff waits (now + wait) session' clear past' recent' (rw same (ground arith)) in
            rw (visits_found wait waits now session session' found) (ground (arith, rest, same))
      ]
