-- ===== src/Billing.antt =====
-- The billing package (app/billing).
pub mod Status
pub mod Models
pub mod Session
pub mod Catalogue
pub mod Plans
pub mod Subscription
pub mod Invoices
pub mod Provider
pub mod Payments
pub mod Refunds
pub mod Entitlement
pub mod Usage
mod Tests
