-- ===== src/CoreApi.antt =====
-- Core API: users' repositories and interviews.
pub mod Models
pub mod Repositories
pub mod Interviews
pub mod Worker
pub mod Auth
pub mod Internal
