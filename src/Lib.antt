-- ===== src/Lib.antt =====
-- Verification of the core of the multi-domain sandbox: the authorization server (apps/auth-api), the
-- OIDC client of the web servers (packages/oidc-client), the stores and rules of packages/shared, the
-- members of packages/api-core, and the data of the CMS and CRM services.
--
-- How the parts interact. A browser logs in with a password (login.ts) and a second factor (mfa.ts);
-- only then there is an SSO session (sso-session.ts). With a session, an authorization request gets
-- a code if the user may enter the service for the tenant (authorize.ts, pending-authorization.ts).
-- A client exchanges the code for tokens and refreshes them (token.ts, refresh-tokens.ts); a code or
-- a refresh token that is shown twice revokes its family of refresh tokens. The client is a web server:
-- it sends the browser to the authorization server, takes the code at its callback, keeps the tokens in
-- a session of one tenant, refreshes them under a lock and calls the API with them. An API server takes
-- the access token, checks it against the published keys, finds what its member may do
-- (packages/api-core) and serves the rows of the member's tenant.
--
-- Which file models what. A function keeps its name, in lower case with underscores.
--   Shared/KvStore, SetStore, CounterStore   packages/shared/src/kv-store.ts, the stores in memory
--   Shared/CounterStore/RateLimit            packages/shared/src/rate-limit.ts
--   Shared/SessionExpiry, CodeVerifier       packages/shared/src/session-expiry.ts, random.ts
--   Shared/OidcProtocol, ReturnTo,           packages/shared/src/oidc-protocol.ts, return-to.ts,
--   RedirectTemplate, Jwks                   redirect-template.ts, jwks.ts
--   Shared/Strings                           the methods of strings that these use
--   Auth/Domain, Cognito, Stores             apps/auth-api/src/domain, src/application/ports
--   Auth/Identity, Sessions                  src/infrastructure/memory-identity-repository.ts and
--                                            memory-session-repository.ts of apps/auth-api
--   Auth/State                               src/application/deps.ts, usecases/audit.ts
--   Auth/RefreshTokens, SsoSession, Access, PendingAuthorization, IssueTokens, Token, Login, Mfa,
--   Csrf, GlobalLogout, ServiceMembers       the use cases of these names in
--                                            apps/auth-api/src/application/usecases (Access is
--                                            authorize.ts)
--   Auth/AuthorizationRequest, ClientAuth    authorization-request.ts and authenticateClient of
--                                            token.ts there, packages/shared/src/secret-hash.ts
--   Auth/Routes                              apps/auth-api/src/interface/http/routes
--   Client/Types, State, Session, Access,    packages/oidc-client/src: types.ts, session.ts,
--   Provider, Routes                         api-client.ts, provider.ts, routes.ts, middleware.ts
--   Services/Table, Posts, EndUsers          apps/cms-api/src/posts, apps/crm-api/src/end-users
--   Api/Permissions, MemberRepository,       packages/api-core/src: domain, infrastructure,
--   Members, TenantContext                   application
-- A module below one of these holds its theorems and is named for what they are about; the samples
-- and tests stand in the modules Samples, Tests, TestsRefresh, TestsRoutes and TestsKeys.
--
-- How it is modelled. A store is a table from keys to entries with their time of expiry; `view` is
-- what a reader sees of it at a time. A use case is an action on `AuthState`: the clock, the stores,
-- the repositories, the audit events and a count of the random values drawn. A request runs to its
-- end at one reading of the clock in the authorization server. In the client an action on `ClientState`
-- takes the time that its outside calls take: while a request waits for another one's refresh, any
-- change of the state may happen, and it makes at most thirty rounds, which is the count that the wait
-- recurs on. Several requests that use one refresh lock are a list of steps in any order. An early
-- return is a result; a chain of conditions on what a store gave is a function by clauses. All recursion
-- is structural, so nothing runs on fuel, but for the decimal digits of a number, which has fewer digits
-- than its successor. Times are natural numbers of seconds; a remaining time below zero is 0.
--
-- Taken from outside, as fields of records or arguments: the digest, random bytes, identifiers, the
-- codecs of base64 and of URIs, the signature of a JWT, encryption, lower case, the replies of Cognito
-- and of the provider, what an HTTP call answers, the answers of the administration API to an API
-- server, and whether a client took a logout token. `expandRedirectUriTemplate` is modelled for slugs
-- and other texts without `$`, which `replace` would read as a pattern.
--
-- Not modelled: requests interleaved within one use case of the authorization server or within one call of
-- `OidcProvider` (which the client's other modules take as any action), cookies' attributes, SQL and Redis, the login, portal
-- and administration routes, the routes of the CMS and CRM, the rate limits' reading of the caller's
-- address, views, the web applications and the infrastructure.
mod Prelude
pub mod Shared
pub mod Auth
pub mod Client
pub mod Services
pub mod Api
