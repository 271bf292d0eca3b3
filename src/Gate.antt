-- ===== src/Gate.antt =====
-- The way of a request into the application: tenants, API keys, quotas, and the middlewares that
-- establish who asks and for which tenant.
pub mod Limits
pub mod Tenants
pub mod ActiveTenant
pub mod Keys
pub mod Request
pub mod Entry
pub mod TenantEntry
pub mod Blacklist
pub mod Logout
pub mod KeySteps
pub mod KeyHistory
pub mod KeyLaws
pub mod TenantUpdate
pub mod Suspension
pub mod Quota
pub mod Sample
mod Tests
