-- ===== src/Api.antt =====
-- packages/api-core: what every API server of a service shares.
pub mod Permissions
pub mod MemberRepository
pub mod Members
pub mod TenantContext
mod Tests
