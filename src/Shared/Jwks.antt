-- ===== src/Shared/Jwks.antt =====
-- packages/shared/src/jwks.ts: `RemoteJwksSource` and `verifyJwtWithSource`. A call of `get` answers at
-- once or waits for the one fetch that is under way; `settle` is that fetch's end, from what came of it.
pub mod Fetches
pub mod Available
use multi_domain_sandbox.Prelude.{
  ℕ, ◌+◌, String, Option, none, some, Bool, true, false, List, [], ◌∷◌, Result, ok, err, ltb, ◌&&◌,
  ◌||◌, ◌==◌, if◌then◌else◌,
}

-- A key of the set, by its `kid`, and what the signature check takes from it.
pub record Jwk : Type 0 where
  pub kid : Option String
  pub material : String

pub data JwksError : Type 0 where
  jwks_unavailable : String → JwksError

-- What came of a fetch: the URL could not be resolved, no answer, a status, a body.
pub data Outcome : Type 0 where
  no_url thrown : String → Outcome
  bad_status : String → Outcome
  malformed : Outcome
  parsed : List Jwk → Outcome

pub record RemoteJwksSource : Type 0 where
  pub cached : Option (List Jwk)
  pub attempted_at : ℕ
  pub forced_at : ℕ
  pub inflight : Bool

pub data Answer : Type 0 where
  now_with : Result (List Jwk) JwksError → Answer
  awaiting : Answer

abbrev pub refresh_min_interval_seconds : ℕ
refresh_min_interval_seconds = 60

abbrev pub cache_ttl_seconds : ℕ
cache_ttl_seconds = 600

abbrev pub initial : RemoteJwksSource
initial = record { cached = none; attempted_at = 0; forced_at = 0; inflight = false }

-- `this.inflight ??= this.refresh()…`: the attempt is dated when the fetch begins.
abbrev join : ℕ → RemoteJwksSource → Answer × RemoteJwksSource
join now s =
    if s.inflight
    then (awaiting, s)
    else (awaiting, record s { attempted_at = now; inflight = true })

get_cached : Bool → ℕ → List Jwk → RemoteJwksSource → Answer × RemoteJwksSource
get_cached true now jwks s =
    if ltb now (s.forced_at + refresh_min_interval_seconds)
    then (now_with (ok jwks), s)
    else join now (record s { forced_at = now })
get_cached false now jwks s =
    if ltb now (s.attempted_at + cache_ttl_seconds)
    then (now_with (ok jwks), s)
    else if ltb now (s.attempted_at + refresh_min_interval_seconds)
    then (now_with (ok jwks), s)
    else join now s

get_uncached : Bool → ℕ → RemoteJwksSource → Answer × RemoteJwksSource
get_uncached true now s = join now (record s { forced_at = now })
get_uncached false now s = join now s

get_with : Option (List Jwk) → Bool → ℕ → RemoteJwksSource → Answer × RemoteJwksSource
unfolding get_cached get_uncached
get_with none force now s = get_uncached force now s
get_with (some jwks) force now s = get_cached force now jwks s

unfoldable pub get : Bool → ℕ → RemoteJwksSource → Answer × RemoteJwksSource
unfolding get_with
get force now s = get_with s.cached force now s

abbrev fallback : Option (List Jwk) → String → Result (List Jwk) JwksError
fallback (some jwks) reason = ok jwks
fallback none reason = err (jwks_unavailable reason)

refresh : Outcome → RemoteJwksSource → Result (List Jwk) JwksError × RemoteJwksSource
refresh (no_url reason) s = (fallback s.cached reason, s)
refresh (thrown reason) s = (fallback s.cached reason, s)
refresh (bad_status reason) s = (fallback s.cached reason, s)
refresh malformed s = (fallback s.cached "malformed jwks", s)
refresh (parsed jwks) s = (ok jwks, record s { cached = some jwks })

unfoldable pub settle : Outcome → RemoteJwksSource → Result (List Jwk) JwksError × RemoteJwksSource
unfolding refresh
settle outcome s = let (r, s') = refresh outcome s in (r, record s' { inflight = false })

-- One caller alone: a call that waits is settled with what the fetch it waits for brings.
unfoldable pub get_alone :
    (ℕ → Outcome) → Bool → ℕ → RemoteJwksSource → Result (List Jwk) JwksError × RemoteJwksSource
unfolding get settle
get_alone fetched force now s =
    let (answer, s') = get force now s in
    elim answer [ now_with r ↦ (r, s') | awaiting ↦ settle (fetched now) s' ]

pub data VerifyError : Type 0 where
  expired : VerifyError
  invalid_token : String → VerifyError
  unavailable : JwksError → VerifyError

same_kid : Option String → String → Bool
same_kid none kid = false
same_kid (some k) kid = k == kid

unfoldable pub has_kid : List Jwk → String → Bool
unfolding same_kid
has_kid [] kid = false
has_kid (key ∷ keys) kid = same_kid key.kid kid || has_kid keys kid

-- The signature check and the reading of the header are jose's; the source is any state with a `get`.
module _ {ℓ} {S : Type ℓ} {P : Type 0} (source_get : Bool → S → Result (List Jwk) JwksError × S)
    (read_jwt_kid : String → Option String)
    (verify_jwt : String → List Jwk → Result P VerifyError) where
  verify_with : String → Result (List Jwk) JwksError × S → Result P VerifyError × S
  verify_with token (err e, s) = (err (unavailable e), s)
  verify_with token (ok jwks, s) = (verify_jwt token jwks, s)

  verify_cached : String → String → Result (List Jwk) JwksError × S → Result P VerifyError × S
  unfolding verify_with
  verify_cached token kid (err e, s) = (err (unavailable e), s)
  verify_cached token kid (ok jwks, s) =
      if has_kid jwks kid
      then verify_with token (ok jwks, s)
      else verify_with token (source_get true s)

  verify_kid : String → Option String → S → Result P VerifyError × S
  unfolding verify_cached
  verify_kid token none s = (err (invalid_token "kid missing"), s)
  verify_kid token (some kid) s = verify_cached token kid (source_get false s)

  unfoldable pub verify_jwt_with_source : String → S → Result P VerifyError × S
  unfolding verify_kid
  verify_jwt_with_source token s = verify_kid token (read_jwt_kid token) s
