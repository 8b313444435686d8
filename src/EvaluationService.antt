-- ===== src/EvaluationService.antt =====
-- Evaluation Service: grades interviews and keeps their reports.
pub mod Reports
pub mod Generation
pub mod Grading
pub mod Pipeline
pub mod Internal
