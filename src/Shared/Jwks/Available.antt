-- ===== src/Shared/Jwks/Available.antt =====
-- What the callers of a source of keys are told: while fetches fail, and after the keys are rotated.
use multi_domain_sandbox.Prelude.{
  ℕ, ◌+◌, ◌≤◌, ◌<◌, ◌≡◌, ◌↔◌, refl, ap, Bool, true, false, String, Option, some, List, [], ◌∷◌,
  Result, ok, err, arith, if◌then◌else◌, ltb,
}
use multi_domain_sandbox.Shared.Jwks.{
  Jwk, JwksError, Outcome, no_url, thrown, bad_status, malformed, RemoteJwksSource, Answer, join,
  cache_ttl_seconds, refresh_min_interval_seconds, now_with, awaiting, get, settle, get_with,
  get_cached, get_alone, refresh, parsed, has_kid, VerifyError, verify_jwt_with_source, verify_kid,
  verify_cached, verify_with,
}
use multi_domain_sandbox.Shared.Jwks.Fetches.{Event, asks, fetched, step}

-- What a caller gets of a source whose keys are `keys`: these, at once, or its turn to wait for the end of
-- the fetch that is then under way.
abbrev pub Told : List Jwk → RemoteJwksSource → Answer → Type 0
Told keys s (now_with r) = r ≡ ok keys
Told keys s awaiting = s.inflight ≡ true

-- The keys after a fetch has ended: what it brought, or those that were there.
abbrev pub renewed_keys : Outcome → List Jwk → List Jwk
renewed_keys (parsed keys) old = keys
renewed_keys outcome old = old

-- What everyone is told over a history, from a source whose keys are `keys`: the callers that ask, and, at
-- the end of a fetch, those that wait for it.
unfoldable pub AllTold : ℕ → List (ℕ × Event) → List Jwk → RemoteJwksSource → Type 0
AllTold now [] keys s = s.cached ≡ some keys
AllTold now ((wait, asks force) ∷ es) keys s =
    Told keys (step (now + wait) (asks force) s) (get force (now + wait) s).0
    × AllTold (now + wait) es keys (step (now + wait) (asks force) s)
AllTold now ((wait, fetched outcome) ∷ es) keys s =
    let keys' = if s.inflight then renewed_keys outcome keys else keys in
    (((settle outcome s).0 ≡ ok (renewed_keys outcome keys))
      × AllTold (now + wait) es keys' (step (now + wait) (fetched outcome) s))

-- An answer with the state that it leaves, the keys unchanged.
abbrev Tells : List Jwk → Answer × RemoteJwksSource → Type 0
Tells keys (answer, s) = Told keys s answer × (s.cached ≡ some keys)

either-Tells :
    (keys : List Jwk) (b : Bool) (x y : Answer × RemoteJwksSource)
    → (b ≡ true → Tells keys x)
    → Tells keys y
    → Tells keys (if b then x else y)
either-Tells keys true x y p q = p refl
either-Tells keys false x y p q = q

join-Tells :
    (keys : List Jwk) (now : ℕ) (s : RemoteJwksSource)
    → s.cached ≡ some keys
    → Tells keys (join now s)
join-Tells keys now s c =
    either-Tells keys s.inflight (awaiting, s)
      (awaiting, record s { attempted_at = now; inflight = true }) (λ busy. (busy, c)) (refl, c)

get_cached-Tells :
    (force : Bool) (now : ℕ) (keys : List Jwk) (s : RemoteJwksSource)
    → s.cached ≡ some keys
    → Tells keys (get_cached force now keys s)
unfolding get_cached
get_cached-Tells true now keys s c =
    either-Tells keys (ltb now (s.forced_at + refresh_min_interval_seconds)) (now_with (ok keys), s)
      (join now (record s { forced_at = now })) (λ h. (refl, c))
      (join-Tells keys now (record s { forced_at = now }) c)
get_cached-Tells false now keys s c =
    let kept : Answer × RemoteJwksSource = (now_with (ok keys), s) in
    let soon = ltb now (s.attempted_at + refresh_min_interval_seconds) in
    either-Tells keys (ltb now (s.attempted_at + cache_ttl_seconds)) kept
      (if soon then kept else join now s) (λ h. (refl, c))
      (either-Tells keys soon kept (join now s) (λ h. (refl, c)) (join-Tells keys now s c))

get_with-Tells :
    (force : Bool) (now : ℕ) (keys : List Jwk) (o : Option (List Jwk)) (s : RemoteJwksSource)
    → o ≡ some keys
    → s.cached ≡ some keys
    → Tells keys (get_with o force now s)
unfolding get_with
get_with-Tells force now keys o s e c = rw e (get_cached-Tells force now keys s c)

get-Tells :
    (force : Bool) (now : ℕ) (keys : List Jwk) (s : RemoteJwksSource)
    → s.cached ≡ some keys
    → Tells keys (get force now s)
unfolding get
get-Tells force now keys s c = get_with-Tells force now keys s.cached s c c

settle_lem :
    (outcome : Outcome) (keys : List Jwk) (s : RemoteJwksSource)
    → s.cached ≡ some keys
    → ((settle outcome s).0 ≡ ok (renewed_keys outcome keys))
      × ((settle outcome s).1.cached ≡ some (renewed_keys outcome keys))
unfolding settle refresh
settle_lem (parsed keys') keys s c = (refl, refl)
settle_lem (no_url reason) keys s c = (rw c refl, c)
settle_lem (thrown reason) keys s c = (rw c refl, c)
settle_lem (bad_status reason) keys s c = (rw c refl, c)
settle_lem malformed keys s c = (rw c refl, c)

either_cached :
    (b : Bool) (s s' : RemoteJwksSource) (keys keys' : List Jwk)
    → s.cached ≡ some keys
    → s'.cached ≡ some keys'
    → (if b then s' else s).cached ≡ some (if b then keys' else keys)
either_cached true s s' keys keys' c c' = c'
either_cached false s s' keys keys' c c' = c

-- Once a source has keys, every caller is answered with the keys that the last fetch that succeeded brought:
-- at once, or, where a fetch is under way, at the end of it, which brings its own or, if it fails, leaves
-- those that were there. A caller that waits has no answer before a fetch has ended.
pub always_answers :
    (now : ℕ) (es : List (ℕ × Event)) (keys : List Jwk) (s : RemoteJwksSource)
    → s.cached ≡ some keys
    → AllTold now es keys s
unfolding AllTold step
always_answers now [] keys s c = c
always_answers now ((wait, asks force) ∷ es) keys s c =
    let (told, c') = get-Tells force (now + wait) keys s c in
    (told, always_answers (now + wait) es keys (get force (now + wait) s).1 c')
always_answers now ((wait, fetched outcome) ∷ es) keys s c =
    let (told, c') = settle_lem outcome keys s c in
    let s' = (settle outcome s).1 in
    let keys' = renewed_keys outcome keys in
    let kept = either_cached s.inflight s s' keys keys' c c' in
    (
      told,
      always_answers (now + wait) es (if s.inflight then keys' else keys)
          (if s.inflight then s' else s) kept,
    )

-- A source that has keys goes to the network on its own for a call that does not force it 600
-- seconds after the last attempt or later, and never sooner, whether that attempt failed or not.
pub get_unforced_iff :
    (now : ℕ) (jwks : List Jwk) (s : RemoteJwksSource)
    → s.cached ≡ some jwks
    → (((get false now s).0 ≡ awaiting) ↔ (s.attempted_at + 600 ≤ now))
unfolding get get_with get_cached
get_unforced_iff now jwks s h = ground arith

alone_unforced :
    (fetched_at : ℕ → Outcome) (now : ℕ) (old : List Jwk) (s : RemoteJwksSource)
    → s.cached ≡ some old
    → now < s.attempted_at + 600
    → get_alone fetched_at false now s ≡ (ok old, s)
unfolding get_alone get get_with get_cached
alone_unforced fetched_at now old s c a = ground arith

alone_forced :
    (fetched_at : ℕ → Outcome) (now : ℕ) (old new : List Jwk) (s : RemoteJwksSource)
    → s.cached ≡ some old
    → s.forced_at + 60 ≤ now
    → fetched_at now ≡ parsed new
    → (get_alone fetched_at true now s).0 ≡ ok new
unfolding get_alone get get_with get_cached settle refresh
alone_forced fetched_at now old new s c f o = ground arith

verified_with :
    {P : Type 0} (read_jwt_kid : String → Option String)
    (verify_jwt : String → List Jwk → Result P VerifyError)
    (source_get : Bool → RemoteJwksSource → Result (List Jwk) JwksError × RemoteJwksSource)
    (token : String) (new : List Jwk) (given : Result (List Jwk) JwksError × RemoteJwksSource)
    → given.0 ≡ ok new
    → (verify_with source_get read_jwt_kid verify_jwt token given).0 ≡ verify_jwt token new
unfolding verify_with
verified_with read_jwt_kid verify_jwt source_get token new (ok keys, s) e =
    ap (verify_jwt token) (ground arith)
verified_with read_jwt_kid verify_jwt source_get token new (err x, s) e = ground arith

-- A token whose key is not among the cached ones is checked against the keys that a new fetch brings,
-- where the last attempt began less than 600 seconds ago and the last forced one 60 seconds ago or
-- more.
pub verify_after_rotation :
    {P : Type 0} (read_jwt_kid : String → Option String)
    (verify_jwt : String → List Jwk → Result P VerifyError) (fetched_at : ℕ → Outcome)
    (token kid : String) (now : ℕ) (old new : List Jwk) (s : RemoteJwksSource)
    → read_jwt_kid token ≡ some kid
    → s.cached ≡ some old
    → now < s.attempted_at + 600
    → s.forced_at + 60 ≤ now
    → has_kid old kid ≡ false
    → fetched_at now ≡ parsed new
    → (verify_jwt_with_source
        (λ force. get_alone fetched_at force now)
        read_jwt_kid
        verify_jwt
        token
        s).0
      ≡ verify_jwt token new
unfolding verify_jwt_with_source verify_kid verify_cached
verify_after_rotation read_jwt_kid verify_jwt fetched_at token kid now old new s k c a f n o =
    rw (k, alone_unforced fetched_at now old s c a, n)
      (verified_with read_jwt_kid verify_jwt (λ force. get_alone fetched_at force now) token new
        (get_alone fetched_at true now s) (alone_forced fetched_at now old new s c f o))
