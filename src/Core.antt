-- ===== src/Core.antt =====
-- The parts that the other packages rest on (app/core).
pub mod Exceptions
pub mod Triples
pub mod Phone
