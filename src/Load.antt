-- ===== src/Load.antt =====
-- infra/load-testing: the shapes of the load tests, and what their users ask of the services.
pub mod Shapes
pub mod Claims
pub mod Policies
pub mod Login
mod Tests
