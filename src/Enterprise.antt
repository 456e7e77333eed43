-- ===== src/Enterprise.antt =====
-- The enterprise demo (enterprise_demo): services that share one SQLite file.
pub mod World
pub mod Audit
pub mod Grants
pub mod Policy
pub mod Bap
pub mod Resource
pub mod Gateway
pub mod FrontDoor
pub mod Dashboard
pub mod Supervisor
mod Tests
