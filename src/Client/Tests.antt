-- ===== src/Client/Tests.antt =====
-- The theorems at work on the sample web server.
use text.Mathlib.TextLemmas.{cons≢nil}
use multi_domain_sandbox.Prelude.{◌≡◌, refl, true, none, some, [], ◌∷◌, ok, arith, String}
use multi_domain_sandbox.Shared.KvStore
use multi_domain_sandbox.Shared.KvStore.View
use multi_domain_sandbox.Client.Types.{TenantSession}
use multi_domain_sandbox.Client.Samples.{
  random, client, input, nothing, session, logged_in, world, provider, query, begun, service,
}
use multi_domain_sandbox.Client.Session.{create_session, load_session, touch_session}
use multi_domain_sandbox.Client.Session.Index.{Indexed}
use multi_domain_sandbox.Client.Session.Own.{Own, Call, Calls}
use multi_domain_sandbox.Client.Session.Steps.{here, then, creates, waits, later, Steps-Indexed}
use multi_domain_sandbox.Client.Session.Tenants.{load_session-tenant}
use multi_domain_sandbox.Client.Session.Touch.{load_session-touch_session}
use multi_domain_sandbox.Client.Access.{
  wait_for_refresh, ensure_fresh_access_token, api_fetch, with_bearer, lock_key_of,
}
use multi_domain_sandbox.Client.Access.Waiting.{Ends, wait_for_refresh-Ends}
use multi_domain_sandbox.Client.Access.Fresh.{ensure_fresh_access_token-unlocks}
use multi_domain_sandbox.Client.Access.Forced.{api_fetch_repeats}
use multi_domain_sandbox.Client.Access.Locks.{
  Action, waits as passes, takes, releases, run, at_most_one, refresh_exclusion,
}
use multi_domain_sandbox.Client.State.{ClientState}
use multi_domain_sandbox.Client.Routes.{login}
use multi_domain_sandbox.Client.Routes.Callback.{callback}
use multi_domain_sandbox.Client.Routes.Callback.Established.{Established, callback-Established}
use multi_domain_sandbox.Client.Routes.Logout.{backchannel_logout}
use multi_domain_sandbox.Client.Routes.Logout.Ended.{LoggedOut, backchannel_logout-LoggedOut}

nothing-Own : Own nothing
unfolding View.view
nothing-Own = record { own = λ t k e h p. ground arith }

nothing-Indexed : Indexed nothing
unfolding View.view
nothing-Indexed = record { owes = λ t k e h p. ground arith }

Steps-Indexed_example : Indexed (create_session random input (later 5 nothing)).1
Steps-Indexed_example = Steps-Indexed (then (then here (waits 5)) (creates input)) nothing-Indexed

logged_in-Indexed : Indexed logged_in
unfolding logged_in
logged_in-Indexed = Steps-Indexed {random = random} (then here (creates input)) nothing-Indexed

creation : Calls random nothing logged_in
unfolding logged_in
creation = Calls.then Calls.here (Call.creates input)

load_session-tenant_example :
    (client.tenant_slug ≡ session.tenant_slug) × (◌≡◌ {A = String} "r" session.id)
unfolding multi_domain_sandbox.Shared.Text.lacks load_session KvStore.get logged_in create_session
    KvStore.set multi_domain_sandbox.Shared.Map.insert multi_domain_sandbox.Client.Samples.numbered
    multi_domain_sandbox.Shared.SessionExpiry.is_expired
load_session-tenant_example =
    load_session-tenant random client "r" session nothing logged_in nothing-Own creation refl refl
      refl

-- Back-channel logout has ended the session that a request has read before, and two minutes have passed.
load_session-touch_session_example :
    (load_session client (some "r") (touch_session session (later 120 nothing)).1).0
    ≡ some (record session { last_seen_at = 1120 })
unfolding multi_domain_sandbox.Shared.SessionExpiry.should_touch later
    multi_domain_sandbox.Shared.SessionExpiry.is_expired View.view
load_session-touch_session_example =
    load_session-touch_session client session (later 120 nothing) refl (λ e. cons≢nil e) refl refl
      refl

wait_for_refresh-Ends_example :
    Ends world client session 30 logged_in (wait_for_refresh world client session logged_in)
wait_for_refresh-Ends_example = wait_for_refresh-Ends world client session logged_in

abbrev renewed_session : TenantSession
renewed_session = record session { access_token_expires_at = 2780; last_seen_at = 1880 }

ensure_fresh_access_token-unlocks_example :
    View.view
      (ensure_fresh_access_token world client session (later 880 logged_in)).1.refresh_locks
      1880
      (lock_key_of client session)
    ≡ none
unfolding multi_domain_sandbox.Client.Access.needs_refresh later logged_in create_session View.view
ensure_fresh_access_token-unlocks_example =
    ensure_fresh_access_token-unlocks world client session (later 880 logged_in) 1880 refl refl

-- The API refuses the token as expired, and gets the same token again.
api_fetch_repeats_example :
    (s2 : ClientState) × ((api_fetch world client session "/posts" tt logged_in).0
      ≡ ok (record {
        response = (world.fetch (with_bearer world "/posts" tt "access-1") s2).0;
        session = session;
      }))
unfolding multi_domain_sandbox.Client.Access.needs_refresh logged_in create_session
    multi_domain_sandbox.Shared.OidcProtocol.is_expired_token_challenge
    multi_domain_sandbox.Shared.Strings.includes View.view load_session KvStore.get KvStore.set
    multi_domain_sandbox.Shared.Map.insert multi_domain_sandbox.Client.Samples.numbered
    multi_domain_sandbox.Shared.SessionExpiry.is_expired
api_fetch_repeats_example =
    api_fetch_repeats world client session session "/posts" tt logged_in refl refl refl refl refl
      refl

refresh_exclusion_example :
    at_most_one
      (run "acme:r"
        (takes 1 ∷ passes 3 ∷ takes 2 ∷ releases 1 ∷ takes 3 ∷ [])
        (record { now = 0; refresh_locks = KvStore.empty; holders = [] })).holders
    ≡ true
unfolding multi_domain_sandbox.Client.Access.Locks.always_timely
    multi_domain_sandbox.Client.Access.Locks.timely multi_domain_sandbox.Client.Access.Locks.step
    KvStore.set_if_absent multi_domain_sandbox.Shared.Map.insert KvStore.delete
    multi_domain_sandbox.Shared.Map.remove
refresh_exclusion_example =
    refresh_exclusion "acme:r" (takes 1 ∷ passes 3 ∷ takes 2 ∷ releases 1 ∷ takes 3 ∷ []) 0
      KvStore.empty refl

callback-Established_example :
    Established random provider client query
      (some "r")
      (callback random provider client query (some "r") none begun).0.reply
      begun
unfolding callback KvStore.get_and_delete begun login KvStore.set
    multi_domain_sandbox.Shared.Map.insert multi_domain_sandbox.Client.Samples.numbered
    create_session load_session
callback-Established_example =
    callback-Established random provider client query none "rxxxx" (some "r") begun refl

backchannel_logout-LoggedOut_example :
    LoggedOut provider
      (λ id. some service)
      "token"
      logged_in
      (backchannel_logout provider (λ id. some service) (some "token") logged_in).1
unfolding backchannel_logout
backchannel_logout-LoggedOut_example =
    backchannel_logout-LoggedOut provider (λ id. some service) "token" logged_in logged_in-Indexed
      refl
