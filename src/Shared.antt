-- ===== src/Shared.antt =====
-- packages/shared: the volatile stores and the rules that several services share.
pub mod Map
pub mod CodeVerifier
pub mod Text
pub mod Strings
pub mod OidcProtocol
pub mod ReturnTo
pub mod RedirectTemplate
pub mod Jwks
pub mod KvStore
pub mod SetStore
pub mod CounterStore
pub mod SessionExpiry
mod Tests
mod TestsKeys
