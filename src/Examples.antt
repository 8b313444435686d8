-- ===== src/Examples.antt =====
-- Small concrete states of each service: tests of the definitions, and the theorems at work.
pub mod Repositories
pub mod Interviews
pub mod Reports
pub mod Pipeline
pub mod Ingestion
pub mod Sessions
pub mod Messages
pub mod Plans
pub mod Areas
pub mod SignIn
pub mod Calls
