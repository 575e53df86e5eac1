-- ===== src/Shared/SessionExpiry.antt =====
-- packages/shared/src/session-expiry.ts. Times are seconds; a remaining time below zero is 0 here,
-- and the code asks for it only where the session has not expired.
pub mod Visits
use multi_domain_sandbox.Prelude.{
  ℕ, ◌+◌, ◌-◌, ◌≤◌, ◌≡◌, ◌↔◌, ◌⊎◌, Bool, true, false, ◌||◌, arith, leb,
}

pub record ExpiringSession : Type 0 where
  pub created_at : ℕ
  pub last_seen_at : ℕ

pub record SessionExpiryPolicy : Type 0 where
  pub idle_seconds : ℕ
  pub absolute_seconds : ℕ

abbrev pub touch_interval_seconds : ℕ
touch_interval_seconds = 60

module _ (policy : SessionExpiryPolicy) where
  unfoldable pub remaining_ttl : ExpiringSession → ℕ → ℕ
  remaining_ttl session now = session.created_at + policy.absolute_seconds - now

  -- `remainingTtl(session, now) <= 0` is the truncated difference's being 0.
  unfoldable pub is_expired : ExpiringSession → ℕ → Bool
  unfolding remaining_ttl
  is_expired session now =
      leb (session.last_seen_at + policy.idle_seconds) now || leb (remaining_ttl session now) 0

unfoldable pub should_touch : ExpiringSession → ℕ → Bool
should_touch session now = leb (session.last_seen_at + touch_interval_seconds) now

abbrev pub touched : ExpiringSession → ℕ → ExpiringSession
touched session now = record session { last_seen_at = now }

-- Once expired, always expired, whatever the policy.
pub is_expired_mono :
    (policy : SessionExpiryPolicy) (session : ExpiringSession) (now later : ℕ)
    → now ≤ later
    → is_expired policy session now ≡ true
    → is_expired policy session later ≡ true
unfolding is_expired
is_expired_mono policy session now later h e = ground arith
