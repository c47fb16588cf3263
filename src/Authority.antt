-- ===== src/Authority.antt =====
-- app/core/authority: the risk of an action, the hash that binds an approval to it, and the gate that
-- every action passes.
pub mod Risk
pub mod Schemas
pub mod Checks
pub mod Service
mod Tests
