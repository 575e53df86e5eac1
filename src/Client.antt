-- ===== src/Client.antt =====
-- packages/oidc-client: the OpenID Connect client of the web servers.
pub mod Types
pub mod State
pub mod Session
pub mod Access
pub mod Provider
pub mod Routes
pub mod Samples
mod Tests
