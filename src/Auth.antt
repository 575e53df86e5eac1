-- ===== src/Auth.antt =====
-- apps/auth-api: the authorization server.
pub mod Domain
pub mod Cognito
pub mod Stores
pub mod Identity
pub mod Sessions
pub mod State
pub mod RefreshTokens
pub mod SsoSession
pub mod Login
pub mod Mfa
pub mod Access
pub mod AuthorizationRequest
pub mod PendingAuthorization
pub mod Csrf
pub mod ClientAuth
pub mod IssueTokens
pub mod Token
pub mod Samples
mod Tests
mod TestsRefresh
mod TestsRoutes
pub mod GlobalLogout
pub mod ServiceMembers
pub mod Routes
