-- ===== src/VoiceService.antt =====
-- Voice Service: the plan of questions, the live interview and the stored session.
pub mod Store
pub mod Planning
pub mod Runner
pub mod Planner
pub mod Internal
