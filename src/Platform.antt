-- ===== src/Platform.antt =====
-- What the services outside of billing share: the database and the actor of a request.
pub mod Store
pub mod Context
pub mod Samples
