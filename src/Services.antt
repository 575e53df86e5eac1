-- ===== src/Services.antt =====
-- apps/cms-api and apps/crm-api: the data of the two services, by tenant.
pub mod Table
pub mod Posts
pub mod EndUsers
mod Tests
