-- ===== src/Integration.antt =====
-- The services together: where one calls another, or reads what another writes.
pub mod Verification
pub mod Pipeline
mod Tests
