-- ===== src/Tenants.antt =====
-- app/tenants: the life cycle of a tenant, and how far it is ready.
pub mod Lifecycle
pub mod Readiness
mod Tests
